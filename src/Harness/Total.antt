-- ===== src/Harness/Total.antt =====
-- That `wrapped` of dagr_mcp/enforcement_harness.py returns a result.
use dagr_mcp.Prelude.{
  String, true, ◌≡◌, refl, Option, none, some, Result, ok, raised, is_ok, str_eq,
}
use dagr_mcp.Python.{Value, mapping, Fields}
use dagr_mcp.Harness.{
  PolicyDecision, HarnessContext, SrsBridge, OutcomeCall, Raise, History, Harness,
}
use dagr_mcp.Harness.Acts.{◌>>=◌, context, append_event_if_available, stable_payload_hash}
use dagr_mcp.Harness.Sinks.{effective_required_sinks}
use dagr_mcp.Harness.Policy.{find_policy}
use dagr_mcp.Harness.Run.{
  failure_behavior, is_refusal, class_name, emit_outcome, succeed, issue_receipt, report_result,
  finish_result, report_exception, finish_exception, finish, execute, admit_answer, admit, reject,
  refuse, gate, dispatch, enforce_answer, enforce, proceed, request_answer, request, start_answer,
  hashed, wrapped, policy_decision,
}
use dagr_mcp.Harness.Returns.{
  Caught, caught_at, ask-Caught, Returns, returns, Returns-ok, pure-Returns, context-Returns,
  set_context-Returns, fail_with-Returns, >>=-Returns, try-Returns, attempt_then-Returns,
  lift-Returns, option-Returns, if-Returns,
}
use dagr_mcp.Harness.Orderly.{
  IsOrderly, check_required_sink-Returns, check_effective_required_sinks-Returns, event-Returns,
  append_event_if_available-Returns, set_admission-Returns, add_receipts-Returns,
  write_receipt-Returns, emit_admission-Caught, emit_refusal-Returns, try_refusal-Returns,
  gate_call-Returns,
}

module _ (h : Harness) (o : IsOrderly h) (tool_name : String) where
  outcome-Caught :
      (bridge : SrsBridge) (call : OutcomeCall)
      → h.srs_bridge ≡ some bridge
      → Caught (emit_outcome bridge call)
  unfolding emit_outcome
  outcome-Caught bridge call e = ask-Caught _ _ (λ past. o.outcomes bridge past call e)

  event_then :
      (event_type : String) (detail : HarnessContext → Fields)
      → Returns (context >>= λ c. append_event_if_available h event_type (detail c))
  event_then event_type detail =
      >>=-Returns context-Returns (λ c. append_event_if_available-Returns h o event_type (detail c))

  module _ (d : PolicyDecision) where
    succeed-Returns : (v : Value) → Returns (succeed h tool_name d v)
    unfolding succeed
    succeed-Returns v = returns (λ s. refl)

    issue_receipt-Returns : (v : Value) → Returns (issue_receipt h tool_name d v)
    unfolding issue_receipt
    issue_receipt-Returns v =
        if-Returns d.receipt_required
          (>>=-Returns (write_receipt-Returns h o d tool_name) (λ receipt_ref.
            option-Returns receipt_ref (event-Returns h o _ _ (fail_with-Returns _ _))
              (λ ref k. >>=-Returns (add_receipts-Returns h o _) (λ _. succeed-Returns v))))
          (succeed-Returns v)

    report_result-Returns : (v : Value) → Returns (report_result h tool_name d v)
    unfolding report_result
    report_result-Returns v = option-Returns h.srs_bridge (pure-Returns _) (λ bridge e.
        >>=-Returns context-Returns (λ c.
          option-Returns c.admission_receipt_ref (pure-Returns _) (λ ref k.
            >>=-Returns (try-Returns (outcome-Caught bridge _ e)) (λ answer.
              option-Returns answer (pure-Returns _) (λ outcome j. add_receipts-Returns h o _)))))

    finish_result-Returns :
        (v : Value)
        → is_ok (stable_payload_hash h.host v) ≡ true
        → Returns (finish_result h tool_name d v)
    unfolding finish_result
    finish_result-Returns v hashed =
        >>=-Returns
          (>>=-Returns
            (>>=-Returns
              (>>=-Returns (lift-Returns _ hashed)
                (λ hash. >>=-Returns context-Returns (λ c. set_context-Returns _)))
              (λ _. report_result-Returns v))
            (λ _. event_then _ _))
          (λ _. issue_receipt-Returns v)

    report_exception-Returns : (class : String) → Returns (report_exception h tool_name d class)
    unfolding report_exception
    report_exception-Returns class = option-Returns h.srs_bridge (pure-Returns _) (λ bridge e.
        >>=-Returns context-Returns (λ c.
          option-Returns c.admission_receipt_ref (pure-Returns _)
            (λ ref k. >>=-Returns (try-Returns (outcome-Caught bridge _ e)) (λ _. pure-Returns _))))

    finish_exception-Returns : (class : String) → Returns (finish_exception h tool_name d class)
    unfolding finish_exception
    finish_exception-Returns class =
        >>=-Returns (>>=-Returns (report_exception-Returns class) (λ _. event_then _ _))
          (λ _. fail_with-Returns _ _)

    execute-Returns : (arguments caller : Value) → Returns (execute h tool_name d arguments caller)
    unfolding execute finish
    execute-Returns arguments caller =
        attempt_then-Returns (finish h tool_name d) (caught_at (o.calls tool_name arguments caller))
          (λ s v e. finish_result-Returns v (o.results tool_name arguments caller v s e))
          (λ e. finish_exception-Returns (class_name e))

    admit_answer-Returns :
        (arguments caller : Value) (answer : Option String)
        → Returns (admit_answer h tool_name d arguments caller answer)
    unfolding admit_answer
    admit_answer-Returns arguments caller none = fail_with-Returns _ _
    admit_answer-Returns arguments caller (some ref) =
        >>=-Returns (set_admission-Returns h o ref) (λ _. execute-Returns arguments caller)

    admit-Returns : (arguments caller : Value) → Returns (admit h tool_name d arguments caller)
    unfolding admit
    admit-Returns arguments caller =
        option-Returns h.srs_bridge (execute-Returns arguments caller) (λ bridge e.
          >>=-Returns (try-Returns (emit_admission-Caught h o bridge tool_name _ _ _ _ e))
            (admit_answer-Returns arguments caller))

    reject-Returns : (reason failure : String) → Returns (reject h tool_name d reason failure)
    unfolding reject
    reject-Returns reason failure = >>=-Returns (event_then _ _) (λ _. fail_with-Returns _ _)

    refuse-Returns : Returns (refuse h tool_name d)
    unfolding refuse
    refuse-Returns = option-Returns h.srs_bridge (reject-Returns _ _) (λ bridge e.
        >>=-Returns (emit_refusal-Returns h o bridge tool_name _ e)
          (λ emitted. if-Returns emitted (reject-Returns _ _) (fail_with-Returns _ _)))

    gate-Returns :
        (arguments : Value)
        → is_ok (stable_payload_hash h.host arguments) ≡ true
        → Returns (gate h tool_name d arguments)
    unfolding gate
    gate-Returns (mapping fields) hashed =
        gate_call-Returns h o tool_name fields d (find_policy h.policies tool_name) hashed
    gate-Returns _ hashed = fail_with-Returns _ _

    dispatch-Returns :
        (arguments caller : Value)
        → is_ok (stable_payload_hash h.host arguments) ≡ true
        → Returns (dispatch h tool_name d arguments caller)
    unfolding dispatch
    dispatch-Returns arguments caller hashed = if-Returns (is_refusal d.decision) refuse-Returns (
        if-Returns (str_eq d.decision "gate") (gate-Returns arguments hashed)
          (admit-Returns arguments caller))

    enforce_answer-Returns :
        (arguments caller : Value) (failure : Option String)
        → is_ok (stable_payload_hash h.host arguments) ≡ true
        → Returns (enforce_answer h tool_name d arguments caller failure)
    unfolding enforce_answer
    enforce_answer-Returns arguments caller none hashed = dispatch-Returns arguments caller hashed
    enforce_answer-Returns arguments caller (some reason) hashed =
        >>=-Returns (try_refusal-Returns h o tool_name _) (λ _. reject-Returns _ _)

    enforce-Returns :
        (arguments caller : Value)
        → is_ok (stable_payload_hash h.host arguments) ≡ true
        → Returns (enforce h tool_name d arguments caller)
    unfolding enforce
    enforce-Returns arguments caller hashed =
        >>=-Returns
          (>>=-Returns (>>=-Returns context-Returns (λ c. set_context-Returns _)) (λ _.
            check_effective_required_sinks-Returns h o (failure_behavior h)
              (effective_required_sinks d h.policy_profile)))
          (λ failure. enforce_answer-Returns arguments caller failure hashed)

  module _ (arguments caller : Value)
      (hashed_arguments : is_ok (stable_payload_hash h.host arguments) ≡ true) where
    request_answer-Returns :
        (answer : Option String) → Returns (request_answer h tool_name arguments caller answer)
    unfolding request_answer proceed
    request_answer-Returns none = fail_with-Returns _ _
    request_answer-Returns (some ref) =
        enforce-Returns (policy_decision h tool_name arguments caller) arguments caller
          hashed_arguments

    start_answer-Returns :
        (failure : Option String) → Returns (start_answer h tool_name arguments caller failure)
    unfolding start_answer request
    start_answer-Returns none = >>=-Returns (event_then _ _) request_answer-Returns
    start_answer-Returns (some reason) = fail_with-Returns _ _

    hashed-Returns :
        (past : History) (r : Result Raise String)
        → is_ok r ≡ true
        → is_ok (hashed h tool_name arguments caller past r).0 ≡ true
    unfolding hashed
    hashed-Returns past (ok hash) k =
        Returns-ok
          (>>=-Returns (check_required_sink-Returns h o (failure_behavior h) "event")
            start_answer-Returns)
          _
    hashed-Returns past (raised e) k = absurd cc

    -- A call of the handler returns a result and raises nothing, whatever the policies and whichever
    -- sinks are there, where the event sink and the receipt sink raise nothing but
    -- `SinkUnavailableError` on a write, no collaborator raises a `BaseException` that is no
    -- `Exception`, and the arguments and every value that the inner handler returns have a payload
    -- hash: the inner handler, the bridge and the review sink may raise any `Exception`, and so may a
    -- sink that is asked for its health.
    pub wrapped-is_ok :
        (past : History) → is_ok (wrapped h tool_name arguments caller past).0 ≡ true
    unfolding wrapped
    wrapped-is_ok past = hashed-Returns past _ hashed_arguments
