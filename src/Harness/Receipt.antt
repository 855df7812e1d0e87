-- ===== src/Harness/Receipt.antt =====
-- `_write_receipt`, `_covered_artifact_classes` and `_mcp_receipt_extension` of
-- dagr_mcp/enforcement_harness.py.
use Prim.Native.String.{◌++◌ as text_append}
use dagr_mcp.Prelude.{String, Option, none, some, List, [], ◌∷◌}
use dagr_mcp.Python.{str, mapping, Fields, end}
use dagr_mcp.Python.Dict.{put}
use dagr_mcp.Harness.{
  PolicyDecision, ReceiptEnvelope, HarnessContext, receipt_written, Harness, State,
}
use dagr_mcp.Harness.Acts.{Act, pure, or_unavailable, ask, or_else}

abbrev pub raw_artifact_classes_excluded : List String
raw_artifact_classes_excluded =
    "raw_prompt" ∷ "raw_output" ∷ "raw_tool_arguments" ∷ "raw_tool_result" ∷ []

unfoldable pub covered_artifact_classes : Option String → List String
covered_artifact_classes none = "mcp_tool_call_metadata" ∷ "mcp_argument_hash" ∷ []
covered_artifact_classes (some result_hash) =
    "mcp_tool_call_metadata" ∷ "mcp_argument_hash" ∷ "mcp_result_hash" ∷ []

-- `if value is not None: d[key] = value`
abbrev pub put_some : Fields → String → Option String → Fields
put_some d key none = d
put_some d key (some s) = put d key (str s)

unfoldable pub mcp_receipt_extension : String → HarnessContext → PolicyDecision → Fields
unfolding put
mcp_receipt_extension tool_name c d =
    let e₀ = put end "mcp_tool_name" (str tool_name) in
    let e₁ = put e₀ "mcp_arguments_hash" (str c.arguments_hash) in
    let e₂ = put e₁ "mcp_policy_decision_ref" (
      str
        (text_append "policy_decision:" (text_append d.policy_ref (text_append ":" d.decision)))) in
    let e₃ = put_some e₂ "mcp_result_hash" c.result_hash in
    put_some e₃ "mcp_review_object_ref" c.review_object_ref

module _ (h : Harness) where
  unfoldable pub receipt_envelope : State → PolicyDecision → String → ReceiptEnvelope
  unfolding covered_artifact_classes mcp_receipt_extension
  receipt_envelope s d tool_name = record {
    receipt_type = "sdk_enforcement";
    boundary_type = "mcp_tool_call";
    protocol_binding = "mcp";
    issued_at = h.host.now s.history;
    artifact_classes_covered = covered_artifact_classes s.context.result_hash;
    artifact_classes_excluded = raw_artifact_classes_excluded;
    attestation_limits = d.attestation_limits;
    subject_ref = or_else s.context.session_ref s.context.request_ref;
    policy_ref = d.policy_ref;
    policy_hash = d.policy_hash;
    extensions = Fields.field "mcp" (mapping (mcp_receipt_extension tool_name s.context d)) end;
    critical_extensions = "mcp" ∷ [];
  }

  unfoldable pub write_receipt : PolicyDecision → String → Act (Option String)
  unfolding receipt_envelope
  write_receipt d tool_name = elim h.sinks.receipt [
    | none ↦ pure none
    | some sink ↦ λ s.
        let receipt = receipt_envelope s d tool_name in
        or_unavailable (ask (λ past. sink.write_receipt past receipt) (receipt_written receipt)) s
  ]
