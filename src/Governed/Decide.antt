-- ===== src/Governed/Decide.antt =====
-- `GovernedActionDecision` and `decide_governed_action` of governed_action.py.
use dagr_mcp.Prelude.{
  String, Bool, true, false, not, ◌&&◌, Option, none, some, List, [], ◌∷◌, Result, ok, ◌>>=◌,
  str_eq, if◌then◌else◌,
}
use dagr_mcp.Python.{Value, null, str, mapping, end, field}
use dagr_mcp.Python.Dict.{mem_text}
use dagr_mcp.Governed.{
  DecisionLabel, allow, refuse, defer, ReasonCode, policy_refused, unknown_tool_fail_closed,
  unknown_capability_fail_closed, capability_mismatch, scope_widening_attempt, malformed_principal,
  unknown_policy_fail_closed, malformed_policy, policy_version_mismatch, GovernedError,
  GovernedActionRequest, GovernedActionBoundaryConfig, GovernedActionDecision, Digests,
}
use dagr_mcp.Governed.Freeze.{freeze_correlation_metadata}
use dagr_mcp.Governed.Request.{sha256_digest, validate_non_empty_text}

abbrev pub label_text : DecisionLabel → String
label_text allow = "allow"
label_text refuse = "refuse"
label_text defer = "defer"

abbrev pub reason_text : ReasonCode → String
reason_text policy_refused = "policy_refused"
reason_text unknown_tool_fail_closed = "unknown_tool_fail_closed"
reason_text unknown_capability_fail_closed = "unknown_capability_fail_closed"
reason_text capability_mismatch = "capability_mismatch"
reason_text scope_widening_attempt = "scope_widening_attempt"
reason_text malformed_principal = "malformed_principal"
reason_text unknown_policy_fail_closed = "unknown_policy_fail_closed"
reason_text malformed_policy = "malformed_policy"
reason_text policy_version_mismatch = "policy_version_mismatch"

abbrev pub reason_value : Option ReasonCode → Value
reason_value none = null
reason_value (some reason) = str (reason_text reason)

-- `_decision_payload`
abbrev pub decision_payload :
    GovernedActionRequest → GovernedActionBoundaryConfig → DecisionLabel → Option ReasonCode → Value
decision_payload request config label reason = mapping (
    field "request_identity" (str request.request_identity) (
      field "decision" (str (label_text label)) (
        field "reason_code" (reason_value reason) (
          field "policy_ref" (str config.policy_ref) (
            field "policy_version" (str config.policy_version) (
              field "considered_capability" (str request.tool_name)
                (field "considered_scope" (str request.requested_scope) end)))))))

-- `GovernedActionDecision(…)` with the arguments that every branch of `decide_governed_action` passes.
unfoldable pub new_decision :
    Digests
    → GovernedActionRequest
    → GovernedActionBoundaryConfig
    → DecisionLabel
    → Option ReasonCode
    → Result GovernedError GovernedActionDecision
new_decision d request config label reason = do
  capability ← validate_non_empty_text "considered_capability" (str request.tool_name)
  scope ← validate_non_empty_text "considered_scope" (str request.requested_scope)
  policy_ref ← validate_non_empty_text "policy_ref" (str config.policy_ref)
  policy_version ← validate_non_empty_text "policy_version" (str config.policy_version)
  metadata ← freeze_correlation_metadata request.correlation_metadata
  decision_identity ← sha256_digest d (decision_payload request config label reason)
  ok (record {
    request_identity = request.request_identity;
    decision = label;
    considered_capability = capability;
    considered_scope = scope;
    policy_ref = policy_ref;
    policy_version = policy_version;
    reason_code = reason;
    correlation_metadata = metadata;
    decision_identity = decision_identity;
  })

abbrev pub is_empty_set : List String → Bool
is_empty_set [] = true
is_empty_set (s ∷ set) = false

-- The ladder of `decide_governed_action`: the label and the reason of each branch.
unfoldable pub classify :
    GovernedActionRequest → GovernedActionBoundaryConfig → DecisionLabel × Option ReasonCode
classify request config =
    if not (str_eq request.policy_ref config.policy_ref)
    then (refuse, some unknown_policy_fail_closed)
    else if not (str_eq request.policy_version config.policy_version)
    then (refuse, some policy_version_mismatch)
    else if not (mem_text request.tool_name config.known_capabilities)
    then (refuse, some unknown_tool_fail_closed)
    else if mem_text request.tool_name config.deferred_capabilities
    then (defer, none)
    else if not (mem_text request.tool_name config.admitted_capabilities)
    then (refuse, some capability_mismatch)
    else if not (is_empty_set config.admitted_scopes)
        && not (mem_text request.requested_scope config.admitted_scopes)
    then (refuse, some scope_widening_attempt)
    else (allow, none)

unfoldable pub decide_governed_action :
    Digests
    → GovernedActionRequest
    → GovernedActionBoundaryConfig
    → Result GovernedError GovernedActionDecision
unfolding classify
decide_governed_action d request config =
    let (label, reason) = classify request config in new_decision d request config label reason
