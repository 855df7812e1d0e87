-- ===== src/Harness/Run.antt =====
-- The function `wrapped` that `wrap_handler` of dagr_mcp/enforcement_harness.py returns.
use dagr_mcp.Prelude.{
  String, Bool, true, Option, none, some, [], ◌∷◌, Result, ok, raised, str_eq, if◌then◌else◌,
}
use dagr_mcp.Python.{Value, null, str, mapping, Fields, end, field}
use dagr_mcp.Python.Dict.{mem_text}
use dagr_mcp.Harness.{
  PolicyDecision, HarnessContext, GovernedResult, SrsBridge, OutcomeCall, raised_exception,
  result_returned, outcome_emitted, Raise, sink_unavailable, exception, base, History, Harness,
  State,
}
use dagr_mcp.Harness.Sinks.{effective_required_sinks}
use dagr_mcp.Harness.Acts.{
  Act, pure, ◌>>=◌, ◌>>◌, context, set_context, try, ask, lift, stable_payload_hash,
  check_required_sink, check_effective_required_sinks, append_event_if_available, call_inner,
}
use dagr_mcp.Harness.Policy.{
  find_policy, evaluate_policy, build_context, fail_with, failure_reason_for_decision,
}
use dagr_mcp.Harness.Receipt.{write_receipt}
use dagr_mcp.Harness.Gate.{
  argument_fields, set_admission, add_receipts, emit_admission, emit_refusal, try_refusal,
  gate_call,
}

-- `required_sink_failure_behavior` of the profile.
abbrev pub failure_behavior : Harness → String
failure_behavior h = elim h.policy_profile [
  | none ↦ "fail_closed"
  | some sr ↦ sr.required_sink_failure_behavior
]

abbrev pub is_refusal : String → Bool
is_refusal decision = mem_text decision ("deny" ∷ "defer" ∷ "fail_closed" ∷ [])

-- `type(exc).__name__`
abbrev pub class_name : Raise → String
class_name sink_unavailable = "SinkUnavailableError"
class_name (exception class) = class
class_name (base class) = class

-- `harness_context.result_hash`, which the event shows.
abbrev pub optional_text : Option String → Value
optional_text none = null
optional_text (some s) = str s

unfoldable pub emit_outcome : SrsBridge → OutcomeCall → Act String
emit_outcome bridge call = ask (λ past. bridge.emit_outcome past call) (outcome_emitted call)

-- The `try` around `_call_inner`: an `Exception` is a value of the handler.
unfoldable pub attempt : Act Value → Act (Result Raise Value)
attempt m s = elim (m s).0 [
  | ok v ↦ (ok (ok v), (m s).1)
  | raised e ↦ elim e [
    | base class ↦ (raised (base class), (m s).1)
    | sink_unavailable ↦ (ok (raised sink_unavailable), (m s).1)
    | exception class ↦ (ok (raised (exception class)), (m s).1)
  ]
]

module _ (h : Harness) (tool_name : String) (d : PolicyDecision) where
  -- The `GovernedResult` at the end.
  unfoldable pub succeed : Value → Act GovernedResult
  succeed v s = (
    ok (record {
      ok = true;
      result = some v;
      failure_reason = none;
      event_refs = s.context.event_chain_refs;
      receipt_refs = s.context.receipt_refs;
      review_object_ref = s.context.review_object_ref;
      policy_decision = some d;
      context = s.context;
    }),
    s,
  )

  -- `if policy_decision.receipt_required: …`
  unfoldable pub issue_receipt : Value → Act GovernedResult
  unfolding succeed
  issue_receipt v =
      if d.receipt_required
      then (write_receipt h d tool_name >>= λ receipt_ref. elim receipt_ref [
        | some ref ↦ add_receipts (ref ∷ []) >> succeed v
        | none ↦ context >>= λ c.
            append_event_if_available h "mcp.tool.call.failed" (
              argument_fields tool_name c (
                field "result_hash" (optional_text c.result_hash) (
                  field "policy_decision" (str d.decision)
                    (field "failure_class" (str "ReceiptWriteFailure") end))))
            >> fail_with "receipt_write_failed" (some d)
      ])
      else succeed v

  -- The outcome receipt of a call that returned.
  unfoldable pub report_result : Value → Act (Unit {0})
  unfolding emit_outcome
  report_result v = elim h.srs_bridge [
    | none ↦ pure tt
    | some bridge ↦ context >>= λ c. elim c.admission_receipt_ref [
      | none ↦ pure tt
      | some admission_receipt_ref ↦
          try (emit_outcome bridge (result_returned c admission_receipt_ref v)) >>= λ answer.
          elim answer [
            | none ↦ pure tt
            | some outcome_ref ↦ add_receipts (admission_receipt_ref ∷ outcome_ref ∷ [])
          ]
    ]
  ]

  -- What follows the return of the inner handler.
  unfoldable pub finish_result : Value → Act GovernedResult
  unfolding report_result issue_receipt lift stable_payload_hash
  finish_result v =
      (lift (stable_payload_hash h.host v) >>= λ hash.
      context >>= λ c. set_context (record c { result_hash = some hash }))
      >> report_result v
      >> (context >>= λ c. append_event_if_available h "mcp.tool.call.executed" (
          argument_fields tool_name c (
            field "result_hash" (optional_text c.result_hash)
              (field "policy_decision" (str d.decision) end))))
      >> issue_receipt v

  -- The outcome receipt of a call that raised.
  unfoldable pub report_exception : String → Act (Unit {0})
  unfolding emit_outcome
  report_exception class = elim h.srs_bridge [
    | none ↦ pure tt
    | some bridge ↦ context >>= λ c. elim c.admission_receipt_ref [
      | none ↦ pure tt
      | some admission_receipt_ref ↦
          try (emit_outcome bridge (raised_exception c admission_receipt_ref class)) >> pure tt
    ]
  ]

  -- The body of `except Exception as exc`.
  unfoldable pub finish_exception : String → Act GovernedResult
  unfolding report_exception
  finish_exception class =
      report_exception class
      >> (context >>= λ c. append_event_if_available h "mcp.tool.call.failed" (
          argument_fields tool_name c
            (field "policy_decision" (str d.decision) (field "failure_class" (str class) end))))
      >> fail_with "inner_exception" (some d)

  unfoldable pub finish : Result Raise Value → Act GovernedResult
  unfolding finish_result finish_exception
  finish (ok v) = finish_result v
  finish (raised e) = finish_exception (class_name e)

  unfoldable pub execute : Value → Value → Act GovernedResult
  unfolding attempt finish
  execute arguments caller = attempt (call_inner h tool_name arguments caller) >>= finish

  -- What follows the emission of the admission.
  unfoldable pub admit_answer : Value → Value → Option String → Act GovernedResult
  unfolding execute
  admit_answer arguments caller none = fail_with "pre_execution_receipt_failure" (some d)
  admit_answer arguments caller (some ref) = set_admission ref >> execute arguments caller

  -- The admission of a call that is executed.
  unfoldable pub admit : Value → Value → Act GovernedResult
  unfolding emit_admission admit_answer
  admit arguments caller = elim h.srs_bridge [
    | none ↦ execute arguments caller
    | some bridge ↦
        try (emit_admission bridge tool_name "admitted" none none none)
        >>= admit_answer arguments caller
  ]

  -- The event of a rejection, and the failure.
  unfoldable pub reject : String → String → Act GovernedResult
  reject reason failure_reason =
      (context >>= λ c. append_event_if_available h "mcp.tool.call.rejected" (
        argument_fields tool_name c
          (field "policy_decision" (str d.decision) (field "reason" (str reason) end))))
      >> fail_with failure_reason (some d)

  -- The branch of a decision that refuses.
  unfoldable pub refuse : Act GovernedResult
  unfolding emit_refusal reject failure_reason_for_decision
  refuse = elim h.srs_bridge [
    | none ↦ reject d.reason (failure_reason_for_decision d)
    | some bridge ↦
        emit_refusal bridge tool_name
          (if str_eq d.reason "unknown_tool" then "unknown_tool_fail_closed" else "policy_refused")
        >>= λ emitted.
            if emitted
            then reject d.reason (failure_reason_for_decision d)
            else fail_with "pre_execution_receipt_failure" (some d)
  ]

  unfoldable pub gate : Value → Act GovernedResult
  unfolding gate_call find_policy
  gate (mapping fields) = gate_call h tool_name fields d (find_policy h.policies tool_name)
  gate _ = fail_with "tool_call_arguments_not_mapping" (some d)

  -- The branches on the decision.
  unfoldable pub dispatch : Value → Value → Act GovernedResult
  unfolding refuse gate admit
  dispatch arguments caller =
      if is_refusal d.decision
      then refuse
      else if str_eq d.decision "gate"
      then gate arguments
      else admit arguments caller

  -- The branch of a failed sink, or the rest.
  unfoldable pub enforce_answer : Value → Value → Option String → Act GovernedResult
  unfolding dispatch try_refusal reject
  enforce_answer arguments caller none = dispatch arguments caller
  enforce_answer arguments caller (some reason) =
      try_refusal h tool_name "required_sink_unavailable" >> reject reason reason

  -- The check of the sinks, and what follows.
  unfoldable pub enforce : Value → Value → Act GovernedResult
  unfolding enforce_answer effective_required_sinks check_effective_required_sinks
  enforce arguments caller =
      (context >>= λ c. set_context (record c { attestation_limits = d.attestation_limits }))
      >> check_effective_required_sinks h.sinks (failure_behavior h)
          (effective_required_sinks d h.policy_profile)
      >>= enforce_answer arguments caller

module _ (h : Harness) (tool_name : String) (arguments caller : Value) where
  abbrev pub policy_decision : PolicyDecision
  policy_decision = evaluate_policy h.config tool_name (find_policy h.policies tool_name)

  -- `harness_context.event_chain_refs.append(requested_ref)`, and what follows.
  unfoldable pub proceed : Act GovernedResult
  unfolding enforce evaluate_policy find_policy
  proceed = enforce h tool_name policy_decision arguments caller

  -- `if requested_ref is None: …`
  unfoldable pub request_answer : Option String → Act GovernedResult
  unfolding proceed
  request_answer none = fail_with "event_sink_unavailable" none
  request_answer (some ref) = proceed

  abbrev pub request_detail : HarnessContext → Fields
  request_detail c = argument_fields tool_name c (
      field "adapter_type" (str h.config.adapter_type)
        (field "module_id" (str h.config.module_id) end))

  -- The event of the request.
  unfoldable pub request : Act GovernedResult
  unfolding request_answer
  request =
      (context >>= λ c. append_event_if_available h "mcp.tool.call.requested" (request_detail c))
      >>= request_answer

  -- `if event_health_failure: …`
  unfoldable pub start_answer : Option String → Act GovernedResult
  unfolding request
  start_answer (some reason) = fail_with reason none
  start_answer none = request

  -- The state of a call before anything is called. No context is built where the arguments have no
  -- hash, and nothing reads it then.
  abbrev pub initial : String → History → State
  initial arguments_hash past = record {
    context = build_context h.host tool_name arguments_hash caller;
    history = past;
  }

  -- What follows the hash of the arguments.
  unfoldable pub hashed : History → Result Raise String → Result Raise GovernedResult × State
  unfolding start_answer build_context check_required_sink
  hashed past (raised e) = (raised e, initial "" past)
  hashed past (ok arguments_hash) =
      (check_required_sink h.sinks (failure_behavior h) "event" >>= start_answer)
        (initial arguments_hash past)

  -- A call, given what was called before.
  unfoldable pub wrapped : History → Result Raise GovernedResult × State
  unfolding hashed stable_payload_hash
  wrapped past = hashed past (stable_payload_hash h.host arguments)
