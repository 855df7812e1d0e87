-- ===== src/Governed/Policy.antt =====
-- What `decide_governed_action` of governed_action.py promises.
use dagr_mcp.Prelude.{
  ◌≡◌, sym, ap, ◌∙◌, ◌↔◌, Bool, true, false, not, ◌&&◌, ◌||◌, is_some, ok, str_eq, arith,
}
use dagr_mcp.Python.Dict.{mem_text}
use dagr_mcp.Governed.{
  DecisionLabel, allow, refuse, defer, GovernedActionRequest, GovernedActionBoundaryConfig,
  GovernedActionDecision, Digests,
}
use dagr_mcp.Governed.Decide.{classify, is_empty_set, new_decision, decide_governed_action}

-- The request names the policy of the config, at its version, and a capability that is known.
abbrev pub is_addressed : GovernedActionRequest → GovernedActionBoundaryConfig → Bool
is_addressed request config =
    str_eq request.policy_ref config.policy_ref
    && str_eq request.policy_version config.policy_version
    && mem_text request.tool_name config.known_capabilities

-- The capability is admitted, and so is the scope, unless the config restricts no scope.
abbrev pub is_in_bounds : GovernedActionRequest → GovernedActionBoundaryConfig → Bool
is_in_bounds request config =
    mem_text request.tool_name config.admitted_capabilities
    && (is_empty_set config.admitted_scopes
        || mem_text request.requested_scope config.admitted_scopes)

abbrev pub is_allow : DecisionLabel → Bool
is_allow allow = true
is_allow _ = false

abbrev is_defer : DecisionLabel → Bool
is_defer defer = true
is_defer _ = false

abbrev is_refuse : DecisionLabel → Bool
is_refuse refuse = true
is_refuse _ = false

classify-label :
    (request : GovernedActionRequest) (config : GovernedActionBoundaryConfig)
    → (is_allow (classify request config).0 ≡ (
        is_addressed request config
        && not (mem_text request.tool_name config.deferred_capabilities)
        && is_in_bounds request config))
      × (is_defer (classify request config).0 ≡ (
          is_addressed request config && mem_text request.tool_name config.deferred_capabilities))
      × (is_some (classify request config).1 ≡ is_refuse (classify request config).0)
unfolding classify
classify-label request config = ground arith

new_decision-label :
    (d : Digests) (request : GovernedActionRequest) (config : GovernedActionBoundaryConfig)
    {decision : GovernedActionDecision}
    → decide_governed_action d request config ≡ ok decision
    → (decision.decision ≡ (classify request config).0)
      × (decision.reason_code ≡ (classify request config).1)
      × (decision.request_identity ≡ request.request_identity)
unfolding decide_governed_action new_decision
new_decision-label d request config h = ground arith

label-tests :
    (l : DecisionLabel) (b c d : Bool)
    → is_allow l ≡ b
    → is_defer l ≡ c
    → d ≡ is_refuse l
    → ((l ≡ allow) ↔ (b ≡ true)) × ((l ≡ defer) ↔ (c ≡ true)) × ((l ≡ refuse) ↔ (d ≡ true))
label-tests l b c d p q r = (
  (λ h. ground arith, λ h. ground arith),
  (λ h. ground arith, λ h. ground arith),
  (λ h. ground arith, λ h. ground arith),
)

-- A decision allows the request exactly when the request names the config's policy and version, its
-- capability is known, not deferred and admitted, and its scope is admitted or no scope is
-- restricted; it defers it exactly when the request names the policy and version and its known
-- capability is deferred; and it carries a reason exactly when it refuses.
pub decide_governed_action-label :
    (d : Digests) (request : GovernedActionRequest) (config : GovernedActionBoundaryConfig)
    {decision : GovernedActionDecision}
    → decide_governed_action d request config ≡ ok decision
    → ((decision.decision ≡ allow) ↔ (
        (is_addressed request config
          && not (mem_text request.tool_name config.deferred_capabilities)
          && is_in_bounds request config)
        ≡ true))
      × ((decision.decision ≡ defer) ↔ (
          (is_addressed request config && mem_text request.tool_name config.deferred_capabilities)
          ≡ true))
      × ((decision.decision ≡ refuse) ↔ (is_some decision.reason_code ≡ true))
decide_governed_action-label d request config {decision} h =
    let (label, reason, identity) = new_decision-label d request config h in
    let (on_allow, on_defer, on_refuse) = classify-label request config in
    label-tests decision.decision _ _ _ (ap is_allow label ∙ on_allow)
      (ap is_defer label ∙ on_defer) (ap is_some reason ∙ on_refuse ∙ sym (ap is_refuse label))
