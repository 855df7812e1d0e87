-- ===== src/Governed/Membrane.antt =====
-- What `run_governed_action` of governed_action.py promises: when the executor is called, and what
-- the result says.
use dagr_mcp.Prelude.{
  String, ◌≡◌, Bool, true, false, not, ◌&&◌, is_some, ◌∷◌, Result, ok, raised, arith, if◌then◌else◌,
}
use dagr_mcp.Receipts.{ReceiptError}
use dagr_mcp.Receipts.Sink.{Files}
use dagr_mcp.Receipts.Emitter.{emit_admission}
use dagr_mcp.Governed.{
  DecisionLabel, allow, refuse, defer, GovernedError, GovernedActionRequest,
  GovernedActionBoundaryConfig, GovernedActionDecision, GovernedActionResult,
}
use dagr_mcp.Governed.Freeze.{thaw}
use dagr_mcp.Governed.Decide.{decide_governed_action}
use dagr_mcp.Governed.Policy.{is_allow}
use dagr_mcp.Governed.Emission.{Membrane, RunState, admission_arguments, Execution}
use dagr_mcp.Governed.Run.{
  run_governed_action, admit, proceed, execute, record_execution, performed, not_performed,
}

-- The answer of the admission receipt's emission.
abbrev pub admission_answer :
    Membrane → GovernedActionRequest → GovernedActionDecision → Files → Result ReceiptError String
admission_answer m request decision files =
    (emit_admission m.emitter m.admission_stamp (admission_arguments m.context request decision)
      files).0

-- The call is allowed, and its admission receipt is stored.
abbrev pub is_admitted :
    Result GovernedError GovernedActionDecision
    → (GovernedActionDecision → Result ReceiptError String)
    → Bool
is_admitted (raised e) answer = false
is_admitted (ok decision) answer = elim decision.decision [
  | allow ↦ elim (answer decision) [ ok ref ↦ true | raised e ↦ false ]
  | _ ↦ false
]

record_execution-executions :
    (m : Membrane) (request : GovernedActionRequest) (decision : GovernedActionDecision)
    (ref : String) (e : Execution) (state : RunState)
    → (record_execution m request decision ref e state).1.executions ≡ state.executions
unfolding record_execution
record_execution-executions m request decision ref e state = ground arith

execute-executions :
    (m : Membrane) (request : GovernedActionRequest) (decision : GovernedActionDecision)
    (ref : String) (state : RunState)
    → (execute m request decision ref state).1.executions
      ≡ thaw request.arguments_snapshot ∷ state.executions
unfolding execute
execute-executions m request decision ref state =
    ground (arith, record_execution-executions m request decision ref)

admit-executions :
    (m : Membrane) (request : GovernedActionRequest) (decision : GovernedActionDecision)
    (state : RunState)
    → (admit m request decision state).1.executions ≡ (
        if is_admitted (ok decision) (λ decided. admission_answer m request decided state.files)
        then thaw request.arguments_snapshot ∷ state.executions
        else state.executions)
unfolding admit proceed
admit-executions m request decision state = ground (arith, execute-executions m request decision)

-- The executor is called exactly for a request that is allowed and whose admission receipt was
-- stored before, once, on the thawed arguments of the request; otherwise it is not called.
pub run_governed_action-executions :
    (m : Membrane) (config : GovernedActionBoundaryConfig) (request : GovernedActionRequest)
    (state : RunState)
    → (run_governed_action m config request state).1.executions ≡ (
        if is_admitted
          (decide_governed_action m.digests request config)
          (λ decided. admission_answer m request decided state.files)
        then thaw request.arguments_snapshot ∷ state.executions
        else state.executions)
unfolding run_governed_action
run_governed_action-executions m config request state = ground (arith, admit-executions m request)

-- What every result of a decision says, given whether the call was performed.
abbrev pub HasFacts : GovernedActionDecision → Bool → GovernedActionResult → Type 0
HasFacts decision is_performed r =
    (r.decision ≡ decision)
    × (r.execution_performed ≡ is_performed)
    × (is_some r.execution_outcome ≡ is_performed)
    × (is_some r.execution_summary_digest ≡ is_performed)
    × (is_some r.admission_receipt_ref ≡ true)
    × (is_some r.outcome_receipt_ref ≡ (is_performed && r.receipt_persisted))
    × (r.receipt_gap ≡ not r.receipt_persisted)

module _ (m : Membrane) (request : GovernedActionRequest) (decision : GovernedActionDecision) where
  performed-HasFacts :
      (ref : String) (e : Execution) (digest : String) (emission : Result GovernedError String)
      {r : GovernedActionResult}
      → performed m request decision ref e digest emission ≡ ok r
      → HasFacts decision true r
  unfolding performed
  performed-HasFacts ref e digest (ok s) h = ground arith
  performed-HasFacts ref e digest (raised s) h = ground arith

  not_performed-HasFacts :
      (ref : String) {r : GovernedActionResult}
      → not_performed m request decision ref ≡ ok r
      → HasFacts decision false r
  unfolding not_performed
  not_performed-HasFacts ref h = ground arith

  record_execution-HasFacts :
      (ref : String) (e : Execution) (state : RunState) {r : GovernedActionResult}
      → (record_execution m request decision ref e state).0 ≡ ok r
      → HasFacts decision true r
  unfolding record_execution
  record_execution-HasFacts ref e state h = ground (arith, performed-HasFacts ref e)

  execute-HasFacts :
      (ref : String) (state : RunState) {r : GovernedActionResult}
      → (execute m request decision ref state).0 ≡ ok r
      → HasFacts decision true r
  unfolding execute
  execute-HasFacts ref state h = ground (arith, record_execution-HasFacts ref)

  proceed-HasFacts :
      (label : DecisionLabel) (ref : String) (state : RunState) {r : GovernedActionResult}
      → (proceed m request decision label ref state).0 ≡ ok r
      → HasFacts decision (is_allow label) r
  unfolding proceed
  proceed-HasFacts allow ref state h = execute-HasFacts ref state h
  proceed-HasFacts refuse ref state h = not_performed-HasFacts ref h
  proceed-HasFacts defer ref state h = not_performed-HasFacts ref h

  admit-HasFacts :
      (state : RunState) {r : GovernedActionResult}
      → (admit m request decision state).0 ≡ ok r
      → HasFacts decision (is_allow decision.decision) r
  unfolding admit
  admit-HasFacts state h = ground (arith, proceed-HasFacts decision.decision)

-- A result carries the decision of its request, and its call was performed exactly if that decision
-- allows. The outcome and the summary digest are there exactly for a performed call, the admission
-- receipt's reference always; the outcome receipt's reference is there exactly for a performed call
-- whose receipt is reported as persisted, and a gap is reported exactly where it is not.
pub run_governed_action-HasFacts :
    (m : Membrane) (config : GovernedActionBoundaryConfig) (request : GovernedActionRequest)
    (state : RunState) {r : GovernedActionResult}
    → (run_governed_action m config request state).0 ≡ ok r
    → (decide_governed_action m.digests request config ≡ ok r.decision)
      × HasFacts r.decision (is_allow r.decision.decision) r
unfolding run_governed_action
run_governed_action-HasFacts m config request state h = ground (arith, admit-HasFacts m request)
