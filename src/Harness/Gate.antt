-- ===== src/Harness/Gate.antt =====
-- `_gate_call` of dagr_mcp/enforcement_harness.py.
use dagr_mcp.Prelude.{
  String, Bool, Option, none, some, List, [], ◌∷◌, ◌++◌, Result, raised, ok, if◌then◌else◌,
}
use dagr_mcp.Python.{null, str, Fields, end, field}
use dagr_mcp.Harness.{
  ToolPolicy, PolicyDecision, HarnessContext, GovernedResult, ReviewObject, ReviewObjectSink,
  SrsBridge, AdmissionCall, review_created, admission_emitted, Harness,
}
use dagr_mcp.Harness.Acts.{
  Act, pure, ◌>>=◌, ◌>>◌, context, set_context, try, ask, lift, append_event_if_available,
}
use dagr_mcp.Harness.Policy.{fail_with}
use dagr_mcp.Harness.Receipt.{write_receipt}
use dagr_mcp.Harness.Disposition.{
  BuildError, not_built, escaped, ToolCallDispositionInput,
  build_tool_call_disposition_review_object,
}

-- `_event_argument_hash_fields`, after the tool's name.
abbrev pub argument_fields : String → HarnessContext → Fields → Fields
argument_fields tool_name c rest = field "tool_name" (str tool_name) (
    field "argument_hash" (str c.arguments_hash)
      (field "arguments_hash" (str c.arguments_hash) rest))

abbrev pub set_admission : String → Act (Unit {0})
set_admission ref = context >>= λ c. set_context (record c { admission_receipt_ref = some ref })

abbrev pub add_receipts : List String → Act (Unit {0})
add_receipts refs =
    context >>= λ c. set_context (record c { receipt_refs = c.receipt_refs ++ refs })

-- `bridge.emit_admission(…)`
unfoldable pub emit_admission :
    SrsBridge → String → String → Option String → Option String → Option String → Act String
emit_admission bridge tool_name disposition reason_code review_object_ref retry_contract =
    context >>= λ c.
    let call : AdmissionCall = record {
      context = c;
      tool_name = tool_name;
      disposition = disposition;
      reason_code = reason_code;
      review_object_ref = review_object_ref;
      retry_contract = retry_contract;
    } in
    ask (λ past. bridge.emit_admission past call) (admission_emitted call)

-- The admission of a refused call: false where its emission raised.
unfoldable pub emit_refusal : SrsBridge → String → String → Act Bool
unfolding emit_admission
emit_refusal bridge tool_name reason_code =
    try (emit_admission bridge tool_name "refused" (some reason_code) none none) >>= λ answer.
    elim answer [ none ↦ pure Bool.false | some ref ↦ set_admission ref >> pure Bool.true ]

module _ (h : Harness) (tool_name : String) where
  -- A refusal's emission whose failure is passed over.
  unfoldable pub try_refusal : String → Act (Unit {0})
  unfolding emit_refusal
  try_refusal reason_code = elim h.srs_bridge [
    | none ↦ pure tt
    | some bridge ↦ emit_refusal bridge tool_name reason_code >> pure tt
  ]

  abbrev first : List String → Option String
  first [] = none
  first (ref ∷ rest) = some ref

  unfoldable pub disposition_input :
      HarnessContext → Fields → PolicyDecision → Option ToolPolicy → ToolCallDispositionInput
  disposition_input c arguments d tool_policy = record {
    tool_name = tool_name;
    tool_class = elim tool_policy [ none ↦ "unknown" | some policy ↦ policy.tool_class ];
    policy_decision = d.decision;
    arguments = arguments;
    retention_class = d.retention_class;
    required_sinks = d.required_sinks;
    reason = d.reason;
    gate_timeout_seconds = elim tool_policy [
      | none ↦ null
      | some policy ↦ policy.gate_timeout_seconds
    ];
    profile_ref = h.config.profile_ref;
    event_refs = c.event_chain_refs;
    origin_event_id = first c.event_chain_refs;
    allowed_actions = "approve" ∷ "reject" ∷ "defer" ∷ "escalate" ∷ [];
    policy_ref = d.policy_ref;
    harness_version = h.config.harness_version;
    adapter_type = h.config.adapter_type;
  }

  -- The receipt of a gated call, and the end.
  unfoldable pub gate_receipt : PolicyDecision → Act GovernedResult
  gate_receipt d =
      if d.receipt_required
      then (write_receipt h d tool_name >>= λ receipt_ref. elim receipt_ref [
        | none ↦ fail_with "receipt_write_failed" (some d)
        | some ref ↦ add_receipts (ref ∷ []) >> fail_with "gated_pending" (some d)
      ])
      else fail_with "gated_pending" (some d)

  unfoldable pub gate_event : PolicyDecision → String → Act GovernedResult
  unfolding gate_receipt
  gate_event d review_object_ref = context >>= λ c.
      append_event_if_available h "mcp.tool.call.gated" (
        argument_fields tool_name c (
          field "policy_decision" (str d.decision) (
            field "review_object_ref" (str review_object_ref) (field "reason" (str d.reason) end))))
      >> gate_receipt d

  -- What follows the creation of the review object.
  unfoldable pub gate_routed : PolicyDecision → String → Act GovernedResult
  unfolding gate_event emit_admission
  gate_routed d review_object_ref =
      (context >>= λ c. set_context (record c { review_object_ref = some review_object_ref }))
      >> elim h.srs_bridge [
        | none ↦ gate_event d review_object_ref
        | some bridge ↦
            try (
              emit_admission bridge tool_name "deferred_for_review" none (some review_object_ref)
                (some "retry_after_approval"))
            >>= λ answer. elim answer [
              | none ↦ fail_with "pre_execution_receipt_failure" (some d)
              | some ref ↦
                  set_admission ref >> add_receipts (ref ∷ []) >> gate_event d review_object_ref
            ]
      ]

  unfoldable pub gate_create : ReviewObjectSink → PolicyDecision → ReviewObject → Act GovernedResult
  unfolding gate_routed try_refusal
  gate_create sink d review_object =
      try
        (ask (λ past. sink.create_review_object past review_object) (review_created review_object))
      >>= λ answer. elim answer [
        | none ↦
            try_refusal "review_object_creation_failed"
            >> fail_with "review_object_sink_unavailable" (some d)
        | some ref ↦ gate_routed d ref
      ]

  -- The `except` around the building of the review object.
  unfoldable pub gate_built :
      ReviewObjectSink → PolicyDecision → Result BuildError ReviewObject → Act GovernedResult
  unfolding gate_create lift
  gate_built sink d (raised (not_built e)) = fail_with "tool_call_disposition_invalid" (some d)
  gate_built sink d (raised (escaped e)) = lift (raised e)
  gate_built sink d (ok review_object) = gate_create sink d review_object

  unfoldable pub gate_call : Fields → PolicyDecision → Option ToolPolicy → Act GovernedResult
  unfolding gate_built try_refusal disposition_input build_tool_call_disposition_review_object
  gate_call arguments d tool_policy = elim h.sinks.review [
    | none ↦
        try_refusal "review_object_creation_failed"
        >> fail_with "review_object_sink_unavailable" (some d)
    | some sink ↦ λ s.
        gate_built sink d
          (build_tool_call_disposition_review_object h.host (h.host.now s.history)
            (disposition_input s.context arguments d tool_policy))
          s
  ]
