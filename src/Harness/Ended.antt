-- ===== src/Harness/Ended.antt =====
-- What `wrapped` of dagr_mcp/enforcement_harness.py does without calling the inner handler: what
-- follows the call, and the branches that refuse.
use dagr_mcp.Prelude.{String, Result, ok, raised, refl}
use dagr_mcp.Python.{Value, mapping}
use dagr_mcp.Harness.{PolicyDecision, Raise, Harness, SrsBridge, OutcomeCall}
use dagr_mcp.Harness.Policy.{find_policy}
use dagr_mcp.Harness.Run.{
  succeed, issue_receipt, emit_outcome, report_result, finish_result, report_exception,
  finish_exception, finish, reject, refuse, gate, class_name,
}
use dagr_mcp.Harness.Quiet.{
  IsQuiet, quiet, nothing, lift-IsQuiet, pure-IsQuiet, context-IsQuiet, set_context-IsQuiet,
  >>=-IsQuiet, try-IsQuiet, ask-IsQuiet, option-IsQuiet, if-IsQuiet,
}
use dagr_mcp.Harness.Silent.{
  fail_with-IsQuiet, event-IsQuiet, add_receipts-IsQuiet, write_receipt-IsQuiet,
  emit_refusal-IsQuiet, gate_call-IsQuiet, append_event_if_available-IsQuiet,
}

emit_outcome-IsQuiet :
    (bridge : SrsBridge) (call : OutcomeCall) → IsQuiet (emit_outcome bridge call)
unfolding emit_outcome
emit_outcome-IsQuiet bridge call = ask-IsQuiet _ _ (λ _. refl)

module _ (h : Harness) (tool_name : String) (d : PolicyDecision) where
  succeed-IsQuiet : (v : Value) → IsQuiet (succeed h tool_name d v)
  unfolding succeed
  succeed-IsQuiet v = quiet (λ s. nothing)

  issue_receipt-IsQuiet : (v : Value) → IsQuiet (issue_receipt h tool_name d v)
  unfolding issue_receipt
  issue_receipt-IsQuiet v =
      if-IsQuiet d.receipt_required
        (>>=-IsQuiet (write_receipt-IsQuiet h d tool_name) (λ receipt_ref.
          option-IsQuiet receipt_ref (event-IsQuiet h _ _ (fail_with-IsQuiet _ _))
            (λ ref. >>=-IsQuiet (add_receipts-IsQuiet _) (λ _. succeed-IsQuiet v))))
        (succeed-IsQuiet v)

  report_result-IsQuiet : (v : Value) → IsQuiet (report_result h tool_name d v)
  unfolding report_result
  report_result-IsQuiet v = option-IsQuiet h.srs_bridge (pure-IsQuiet _) (λ bridge.
      >>=-IsQuiet context-IsQuiet (λ c.
        option-IsQuiet c.admission_receipt_ref (pure-IsQuiet _) (λ ref.
          >>=-IsQuiet (try-IsQuiet (emit_outcome-IsQuiet bridge _)) (λ answer.
            option-IsQuiet answer (pure-IsQuiet _) (λ outcome. add_receipts-IsQuiet _)))))

  finish_result-IsQuiet : (v : Value) → IsQuiet (finish_result h tool_name d v)
  unfolding finish_result
  finish_result-IsQuiet v =
      >>=-IsQuiet
        (>>=-IsQuiet
          (>>=-IsQuiet
            (>>=-IsQuiet (lift-IsQuiet _)
              (λ hash. >>=-IsQuiet context-IsQuiet (λ c. set_context-IsQuiet _)))
            (λ _. report_result-IsQuiet v))
          (λ _. >>=-IsQuiet context-IsQuiet (λ c. append_event_if_available-IsQuiet h _ _)))
        (λ _. issue_receipt-IsQuiet v)

  report_exception-IsQuiet : (class : String) → IsQuiet (report_exception h tool_name d class)
  unfolding report_exception
  report_exception-IsQuiet class = option-IsQuiet h.srs_bridge (pure-IsQuiet _) (λ bridge.
      >>=-IsQuiet context-IsQuiet (λ c.
        option-IsQuiet c.admission_receipt_ref (pure-IsQuiet _)
          (λ ref. >>=-IsQuiet (try-IsQuiet (emit_outcome-IsQuiet bridge _)) (λ _. pure-IsQuiet _))))

  finish_exception-IsQuiet : (class : String) → IsQuiet (finish_exception h tool_name d class)
  unfolding finish_exception
  finish_exception-IsQuiet class =
      >>=-IsQuiet
        (>>=-IsQuiet (report_exception-IsQuiet class)
          (λ _. >>=-IsQuiet context-IsQuiet (λ c. append_event_if_available-IsQuiet h _ _)))
        (λ _. fail_with-IsQuiet _ _)

  pub finish-IsQuiet : (answer : Result Raise Value) → IsQuiet (finish h tool_name d answer)
  unfolding finish
  finish-IsQuiet (ok v) = finish_result-IsQuiet v
  finish-IsQuiet (raised e) = finish_exception-IsQuiet (class_name e)

  pub reject-IsQuiet : (reason failure : String) → IsQuiet (reject h tool_name d reason failure)
  unfolding reject
  reject-IsQuiet reason failure =
      >>=-IsQuiet (>>=-IsQuiet context-IsQuiet (λ c. append_event_if_available-IsQuiet h _ _))
        (λ _. fail_with-IsQuiet _ _)

  pub refuse-IsQuiet : IsQuiet (refuse h tool_name d)
  unfolding refuse
  refuse-IsQuiet = option-IsQuiet h.srs_bridge (reject-IsQuiet _ _) (λ bridge.
      >>=-IsQuiet (emit_refusal-IsQuiet bridge tool_name _)
        (λ emitted. if-IsQuiet emitted (reject-IsQuiet _ _) (fail_with-IsQuiet _ _)))

  pub gate-IsQuiet : (arguments : Value) → IsQuiet (gate h tool_name d arguments)
  unfolding gate
  gate-IsQuiet (mapping fields) =
      gate_call-IsQuiet h tool_name fields d (find_policy h.policies tool_name)
  gate-IsQuiet _ = fail_with-IsQuiet _ _
