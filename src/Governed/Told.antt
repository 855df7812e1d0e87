-- ===== src/Governed/Told.antt =====
-- What the outcome receipt of governed_action.py says of the executor.
use dagr_mcp.Prelude.{String, ◌≡◌, ◌>>=◌, Bool, true, false, Option, none, some, is_some, ok, arith}
use dagr_mcp.Python.{null}
use dagr_mcp.Lifecycle.Plan.{plan_outcome, plan_outcome_strict}
use dagr_mcp.Receipts.{ReceiptContext}
use dagr_mcp.Receipts.Emitter.{OutcomeArguments}
use dagr_mcp.Governed.{Digests}
use dagr_mcp.Governed.Emission.{Ending, returned, timed_out, failed, broke, outcome_arguments}
use dagr_mcp.Governed.Run.{classify_ending}

-- The outcome and the exception class that a receipt tells of an ending.
abbrev pub told_outcome : Ending → String
told_outcome (returned v) = "result_returned"
told_outcome _ = "exception"

abbrev pub told_class : Ending → Option String
told_class (returned v) = none
told_class (timed_out class) = some "TimeoutError"
told_class (failed class) = some class
told_class (broke class) = none

abbrev pub has_result : Ending → Bool
has_result (returned null) = false
has_result (returned v) = true
has_result _ = false

-- The receipt of an executor that ended: a returned value is told as a result, with a digest
-- unless it is `None`; a timeout is told as an exception of class `TimeoutError`, whatever the class
-- raised, and another exception under its own class, both without a digest.
pub outcome_arguments-told :
    (d : Digests) (context : ReceiptContext) (ref : String) (ending : Ending) {a : OutcomeArguments}
    → (classify_ending ending >>= outcome_arguments d context ref) ≡ ok a
    → (a.admission_receipt_ref ≡ ref)
      × (a.outcome ≡ told_outcome ending)
      × (a.exception_class ≡ told_class ending)
      × (is_some a.result_digest ≡ has_result ending)
unfolding classify_ending outcome_arguments plan_outcome_strict plan_outcome
outcome_arguments-told d context ref (returned null) h = ground arith
outcome_arguments-told d context ref (returned v) h = ground arith
outcome_arguments-told d context ref (timed_out class) h = ground arith
outcome_arguments-told d context ref (failed class) h = ground arith
outcome_arguments-told d context ref (broke class) h = absurd cc
