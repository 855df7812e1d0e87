-- ===== src/Harness/Silent.antt =====
-- The parts of dagr_mcp/enforcement_harness.py that do not call the inner handler, one by one.
use dagr_mcp.Prelude.{String, refl, Option, List, [], ◌∷◌, Result, ok, raised}
use dagr_mcp.Python.{Fields}
use dagr_mcp.Harness.{
  ToolPolicy, PolicyDecision, HarnessContext, HarnessSinks, ReviewObject, ReviewObjectSink,
  SrsBridge, Harness,
}
use dagr_mcp.Harness.Disposition.{BuildError, not_built, escaped}
use dagr_mcp.Harness.Acts.{
  Act, ◌>>=◌, ◌>>◌, context, check_required_sink, check_effective_required_sinks, safe_write_event,
  append_event_if_available,
}
use dagr_mcp.Harness.Gate.{
  emit_admission, emit_refusal, try_refusal, set_admission, add_receipts, gate_receipt, gate_event,
  gate_routed, gate_create, gate_built, gate_call,
}
use dagr_mcp.Harness.Policy.{fail_with}
use dagr_mcp.Harness.Receipt.{write_receipt}
use dagr_mcp.Harness.Quiet.{
  IsQuiet, quiet, nothing, lift-IsQuiet, pure-IsQuiet, context-IsQuiet, set_context-IsQuiet,
  >>=-IsQuiet, try-IsQuiet, or_unavailable-IsQuiet, ask-IsQuiet, option-IsQuiet, if-IsQuiet,
  IsQuiet-Quiet,
}

pub fail_with-IsQuiet : (reason : String) (d : Option PolicyDecision) → IsQuiet (fail_with reason d)
unfolding fail_with
fail_with-IsQuiet reason d = quiet (λ s. nothing)

pub check_required_sink-IsQuiet :
    (sinks : HarnessSinks) (behavior name : String)
    → IsQuiet (check_required_sink sinks behavior name)
unfolding check_required_sink
check_required_sink-IsQuiet sinks behavior name = option-IsQuiet _ (pure-IsQuiet _) (λ health.
    >>=-IsQuiet (try-IsQuiet (ask-IsQuiet _ _ (λ _. refl))) (λ answer.
      option-IsQuiet answer (pure-IsQuiet _) (λ h.
        >>=-IsQuiet context-IsQuiet
          (λ c. >>=-IsQuiet (set_context-IsQuiet _) (λ _. pure-IsQuiet _)))))

pub check_effective_required_sinks-IsQuiet :
    (sinks : HarnessSinks) (behavior : String) (names : List String)
    → IsQuiet (check_effective_required_sinks sinks behavior names)
unfolding check_effective_required_sinks
check_effective_required_sinks-IsQuiet sinks behavior [] = pure-IsQuiet _
check_effective_required_sinks-IsQuiet sinks behavior (name ∷ rest) =
    >>=-IsQuiet (check_required_sink-IsQuiet sinks behavior name) (λ failure.
      option-IsQuiet failure (check_effective_required_sinks-IsQuiet sinks behavior rest)
        (λ _. pure-IsQuiet _))

pub safe_write_event-IsQuiet :
    (h : Harness) (event_type : String) (detail : Fields)
    → IsQuiet (safe_write_event h event_type detail)
unfolding safe_write_event
safe_write_event-IsQuiet h event_type detail =
    quiet (λ s. IsQuiet-Quiet (or_unavailable-IsQuiet (ask-IsQuiet _ _ (λ _. refl))) s)

pub append_event_if_available-IsQuiet :
    (h : Harness) (event_type : String) (detail : Fields)
    → IsQuiet (append_event_if_available h event_type detail)
unfolding append_event_if_available
append_event_if_available-IsQuiet h event_type detail =
    >>=-IsQuiet (safe_write_event-IsQuiet h event_type detail) (λ event_ref.
      option-IsQuiet event_ref (pure-IsQuiet _) (λ ref.
        >>=-IsQuiet context-IsQuiet
          (λ c. >>=-IsQuiet (set_context-IsQuiet _) (λ _. pure-IsQuiet _))))

-- An event written of the context, and what follows.
pub event-IsQuiet :
    {B : Type 0} (h : Harness) (event_type : String) (detail : HarnessContext → Fields) {k : Act B}
    → IsQuiet k
    → IsQuiet (context >>= λ c. append_event_if_available h event_type (detail c) >> k)
event-IsQuiet h event_type detail p =
    >>=-IsQuiet context-IsQuiet
      (λ c. >>=-IsQuiet (append_event_if_available-IsQuiet h event_type (detail c)) (λ _. p))

pub set_admission-IsQuiet : (ref : String) → IsQuiet (set_admission ref)
set_admission-IsQuiet ref = >>=-IsQuiet context-IsQuiet (λ c. set_context-IsQuiet _)

pub add_receipts-IsQuiet : (refs : List String) → IsQuiet (add_receipts refs)
add_receipts-IsQuiet refs = >>=-IsQuiet context-IsQuiet (λ c. set_context-IsQuiet _)

pub emit_admission-IsQuiet :
    (bridge : SrsBridge) (tool_name disposition : String) (a b c : Option String)
    → IsQuiet (emit_admission bridge tool_name disposition a b c)
unfolding emit_admission
emit_admission-IsQuiet bridge tool_name disposition a b c =
    >>=-IsQuiet context-IsQuiet (λ c. ask-IsQuiet _ _ (λ _. refl))

pub write_receipt-IsQuiet :
    (h : Harness) (d : PolicyDecision) (tool_name : String) → IsQuiet (write_receipt h d tool_name)
unfolding write_receipt
write_receipt-IsQuiet h d tool_name =
    option-IsQuiet h.sinks.receipt (pure-IsQuiet _)
      (λ sink. quiet (λ s. IsQuiet-Quiet (or_unavailable-IsQuiet (ask-IsQuiet _ _ (λ _. refl))) s))

pub emit_refusal-IsQuiet :
    (bridge : SrsBridge) (tool_name reason : String)
    → IsQuiet (emit_refusal bridge tool_name reason)
unfolding emit_refusal
emit_refusal-IsQuiet bridge tool_name reason =
    >>=-IsQuiet (try-IsQuiet (emit_admission-IsQuiet bridge tool_name "refused" _ _ _)) (λ answer.
      option-IsQuiet answer (pure-IsQuiet _)
        (λ ref. >>=-IsQuiet (set_admission-IsQuiet ref) (λ _. pure-IsQuiet _)))

module _ (h : Harness) (tool_name : String) where
  pub try_refusal-IsQuiet : (reason : String) → IsQuiet (try_refusal h tool_name reason)
  unfolding try_refusal
  try_refusal-IsQuiet reason =
      option-IsQuiet h.srs_bridge (pure-IsQuiet _)
        (λ bridge. >>=-IsQuiet (emit_refusal-IsQuiet bridge tool_name reason) (λ _. pure-IsQuiet _))

  gate_receipt-IsQuiet : (d : PolicyDecision) → IsQuiet (gate_receipt h tool_name d)
  unfolding gate_receipt
  gate_receipt-IsQuiet d =
      if-IsQuiet d.receipt_required
        (>>=-IsQuiet (write_receipt-IsQuiet h d tool_name) (λ receipt_ref.
          option-IsQuiet receipt_ref (fail_with-IsQuiet _ _)
            (λ ref. >>=-IsQuiet (add_receipts-IsQuiet _) (λ _. fail_with-IsQuiet _ _))))
        (fail_with-IsQuiet _ _)

  gate_event-IsQuiet : (d : PolicyDecision) (ref : String) → IsQuiet (gate_event h tool_name d ref)
  unfolding gate_event
  gate_event-IsQuiet d ref = event-IsQuiet h _ _ (gate_receipt-IsQuiet d)

  gate_routed-IsQuiet :
      (d : PolicyDecision) (ref : String) → IsQuiet (gate_routed h tool_name d ref)
  unfolding gate_routed
  gate_routed-IsQuiet d ref =
      >>=-IsQuiet (>>=-IsQuiet context-IsQuiet (λ c. set_context-IsQuiet _)) (λ _.
        option-IsQuiet h.srs_bridge (gate_event-IsQuiet d ref) (λ bridge.
          >>=-IsQuiet (try-IsQuiet (emit_admission-IsQuiet bridge tool_name _ _ _ _)) (λ answer.
            option-IsQuiet answer (fail_with-IsQuiet _ _) (λ receipt.
              >>=-IsQuiet (>>=-IsQuiet (set_admission-IsQuiet _) (λ _. add_receipts-IsQuiet _))
                (λ _. gate_event-IsQuiet d ref)))))

  gate_create-IsQuiet :
      (sink : ReviewObjectSink) (d : PolicyDecision) (row : ReviewObject)
      → IsQuiet (gate_create h tool_name sink d row)
  unfolding gate_create
  gate_create-IsQuiet sink d row =
      >>=-IsQuiet (try-IsQuiet (ask-IsQuiet _ _ (λ _. refl))) (λ answer.
        option-IsQuiet answer (>>=-IsQuiet (try_refusal-IsQuiet _) (λ _. fail_with-IsQuiet _ _))
          (gate_routed-IsQuiet d))

  gate_built-IsQuiet :
      (sink : ReviewObjectSink) (d : PolicyDecision) (built : Result BuildError ReviewObject)
      → IsQuiet (gate_built h tool_name sink d built)
  unfolding gate_built
  gate_built-IsQuiet sink d (raised (not_built e)) = fail_with-IsQuiet _ _
  gate_built-IsQuiet sink d (raised (escaped e)) = lift-IsQuiet _
  gate_built-IsQuiet sink d (ok row) = gate_create-IsQuiet sink d row

  pub gate_call-IsQuiet :
      (arguments : Fields) (d : PolicyDecision) (policy : Option ToolPolicy)
      → IsQuiet (gate_call h tool_name arguments d policy)
  unfolding gate_call
  gate_call-IsQuiet arguments d policy =
      option-IsQuiet h.sinks.review
        (>>=-IsQuiet (try_refusal-IsQuiet _) (λ _. fail_with-IsQuiet _ _))
        (λ sink. quiet (λ s. IsQuiet-Quiet (gate_built-IsQuiet sink d _) s))
