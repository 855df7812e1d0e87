-- ===== src/Harness/Policy.antt =====
-- `_evaluate_policy`, `_normalize_policies`, `_build_context`, `_governed_failure` and
-- `_failure_reason_for_decision` of dagr_mcp/enforcement_harness.py.
use Prim.Native.String.{◌++◌ as text_append}
use dagr_mcp.Prelude.{
  String, false, ◌||◌, Option, none, some, List, [], ◌∷◌, str_eq, ok, if◌then◌else◌,
}
use dagr_mcp.Python.{Value, null, mapping}
use dagr_mcp.Python.Dict.{get}
use dagr_mcp.Harness.{
  HarnessConfig, ToolPolicy, PolicyDecision, HarnessContext, GovernedResult, Host,
}
use dagr_mcp.Harness.Sinks.{normalized_required_sinks}
use dagr_mcp.Harness.Acts.{Act}

abbrev pub default_attestation_limits : List String
default_attestation_limits =
    "Receipt attests only to governance conditions at the harness boundary."
    ∷ "Receipt does not attest to MCP server internal retention."
    ∷ "Receipt does not prove model or provider non-retention." ∷ []

-- The dictionary that `_normalize_policies` makes of a sequence keeps the last policy of a name.
unfoldable pub find_policy : List (String × ToolPolicy) → String → Option ToolPolicy
find_policy [] tool_name = none
find_policy (entry ∷ rest) tool_name = elim (find_policy rest tool_name) [
  | some policy ↦ some policy
  | none ↦ if str_eq entry.0 tool_name then some entry.1 else none
]

unfoldable pub normalize_policies : List ToolPolicy → List (String × ToolPolicy)
normalize_policies [] = []
normalize_policies (policy ∷ rest) = (policy.tool_name, policy) ∷ normalize_policies rest

-- The decision on a tool without a policy.
unfoldable pub evaluate_unknown : HarnessConfig → String → PolicyDecision
evaluate_unknown config tool_name =
    if config.fail_closed_on_unknown_tool
    then record {
      decision = "fail_closed";
      reason = "unknown_tool";
      policy_ref = config.policy_ref;
      required_sinks = "event" ∷ [];
      receipt_required = false;
      review_required = false;
      retention_class = "hash_only";
      attestation_limits = default_attestation_limits;
      policy_hash = config.policy_hash;
    }
    else record {
      decision = "allow";
      reason = text_append "unknown_tool_allowed:" tool_name;
      policy_ref = config.policy_ref;
      required_sinks = "event" ∷ (if config.default_receipt_required then "receipt" ∷ [] else []);
      receipt_required = config.default_receipt_required;
      review_required = false;
      retention_class = "hash_only";
      attestation_limits = default_attestation_limits;
      policy_hash = config.policy_hash;
    }

-- `policy.reason or f"policy_{policy.decision}"`
abbrev pub policy_reason : ToolPolicy → String
policy_reason policy = elim policy.reason [
  | none ↦ text_append "policy_" policy.decision
  | some reason ↦ if str_eq reason "" then text_append "policy_" policy.decision else reason
]

unfoldable pub evaluate_known : HarnessConfig → ToolPolicy → PolicyDecision
unfolding normalized_required_sinks
evaluate_known config policy =
    let receipt_required = policy.receipt_required || config.default_receipt_required in
    let review_required = policy.review_required || str_eq policy.decision "gate" in
    record {
      decision = policy.decision;
      reason = policy_reason policy;
      policy_ref = config.policy_ref;
      required_sinks =
          normalized_required_sinks policy.required_sinks receipt_required review_required;
      receipt_required = receipt_required;
      review_required = review_required;
      retention_class = policy.retention_class;
      attestation_limits = default_attestation_limits;
      policy_hash = config.policy_hash;
    }

unfoldable pub evaluate_policy : HarnessConfig → String → Option ToolPolicy → PolicyDecision
unfolding evaluate_unknown evaluate_known
evaluate_policy config tool_name none = evaluate_unknown config tool_name
evaluate_policy config tool_name (some policy) = evaluate_known config policy

-- `None if value is None else str(value)`
abbrev text_or_none : Host → Option Value → Option String
text_or_none host none = none
text_or_none host (some null) = none
text_or_none host (some v) = some (host.text_of v)

unfoldable pub context_value : Host → Value → String → Option String
unfolding get
context_value host (mapping fields) key = text_or_none host (get fields key)
context_value host caller key = text_or_none host (host.attribute caller key)

unfoldable pub build_context : Host → String → String → Value → HarnessContext
unfolding context_value
build_context host tool_name arguments_hash caller = record {
  tool_name = tool_name;
  arguments_hash = arguments_hash;
  actor_ref = context_value host caller "actor_ref";
  session_ref = context_value host caller "session_ref";
  request_ref = context_value host caller "request_ref";
  result_hash = none;
  event_chain_refs = [];
  receipt_refs = [];
  review_object_ref = none;
  admission_receipt_ref = none;
  sink_health_snapshot = [];
  attestation_limits = [];
}

unfoldable pub governed_failure : String → HarnessContext → Option PolicyDecision → GovernedResult
governed_failure failure_reason c policy_decision = record {
  ok = false;
  result = none;
  failure_reason = some failure_reason;
  event_refs = c.event_chain_refs;
  receipt_refs = c.receipt_refs;
  review_object_ref = c.review_object_ref;
  policy_decision = policy_decision;
  context = c;
}

-- `return _governed_failure(…)`
unfoldable pub fail_with : String → Option PolicyDecision → Act GovernedResult
unfolding governed_failure
fail_with failure_reason policy_decision s =
    (ok (governed_failure failure_reason s.context policy_decision), s)

unfoldable pub failure_reason_for_decision : PolicyDecision → String
failure_reason_for_decision d =
    if str_eq d.reason "unknown_tool"
    then "unknown_tool"
    else if str_eq d.decision "deny"
    then "denied"
    else if str_eq d.decision "defer"
    then "deferred"
    else "fail_closed"
