-- ===== src/Governed/Snapshot.antt =====
-- What `GovernedActionRequest` of governed_action.py keeps of its arguments.
use dagr_mcp.Prelude.{◌≡◌, sym, ap, ◌∙◌, ok, >>=-ok, arith}
use dagr_mcp.Python.{Value, Fields}
use dagr_mcp.Governed.{GovernedActionRequest, Digests}
use dagr_mcp.Governed.Freeze.{freeze, freeze_correlation_metadata, thaw}
use dagr_mcp.Governed.Request.{
  sha256_digest, RequestArguments, Checked, new_request, finish_request, validate_non_empty_text,
  validate_principal_ref, validate_policy_ref, validate_session_ref,
}
use dagr_mcp.Governed.Thaw.{normalize, thaw-freeze}

finish_request-snapshot :
    (d : Digests) (c : Checked) (snapshot : Value) (metadata : Fields) {r : GovernedActionRequest}
    → finish_request d c snapshot metadata ≡ ok r
    → (r.arguments_snapshot ≡ snapshot) × (sha256_digest d (thaw snapshot) ≡ ok r.argument_digest)
unfolding finish_request
finish_request-snapshot d c snapshot metadata h = ground arith

new_request-freeze :
    (d : Digests) (a : RequestArguments) {r : GovernedActionRequest}
    → new_request d a ≡ ok r
    → (freeze a.arguments_snapshot ≡ ok r.arguments_snapshot)
      × (sha256_digest d (thaw r.arguments_snapshot) ≡ ok r.argument_digest)
unfolding new_request
new_request-freeze d a h =
    let (request_ref, e₁, h₁) = >>=-ok (validate_non_empty_text "request_ref" a.request_ref) _ h in
    let (principal, e₂, h₂) =
      >>=-ok (validate_principal_ref "principal_ref" a.principal_ref) _ h₁ in
    let (tool, e₃, h₃) = >>=-ok (validate_non_empty_text "tool_name" a.tool_name) _ h₂ in
    let (action, e₄, h₄) = >>=-ok (validate_non_empty_text "action_name" a.action_name) _ h₃ in
    let (scope, e₅, h₅) =
      >>=-ok (validate_non_empty_text "requested_scope" a.requested_scope) _ h₄ in
    let (policy, e₆, h₆) = >>=-ok (validate_policy_ref "policy_ref" a.policy_ref) _ h₅ in
    let (version, e₇, h₇) =
      >>=-ok (validate_non_empty_text "policy_version" a.policy_version) _ h₆ in
    let (snapshot, e₈, h₈) = >>=-ok (freeze a.arguments_snapshot) _ h₇ in
    let (metadata, e₉, h₉) = >>=-ok (freeze_correlation_metadata a.correlation_metadata) _ h₈ in
    let (session, e₀, h₀) = >>=-ok (validate_session_ref a.session_ref) _ h₉ in
    let (kept, digest) = finish_request-snapshot d _ snapshot metadata h₀ in
    (e₈ ∙ ap ok (sym kept), ap (λ v. sha256_digest d (thaw v)) kept ∙ digest)

-- What a request keeps: the value that the executor is called on is the caller's arguments, with
-- each mapping sorted by its keys and each tuple read as a list, and the argument digest, which the
-- admission receipt carries, is the digest of that value.
pub new_request-normalize :
    (d : Digests) (a : RequestArguments) {r : GovernedActionRequest}
    → new_request d a ≡ ok r
    → (thaw r.arguments_snapshot ≡ normalize a.arguments_snapshot)
      × (sha256_digest d (normalize a.arguments_snapshot) ≡ ok r.argument_digest)
new_request-normalize d a h =
    let (frozen, digest) = new_request-freeze d a h in
    let same = thaw-freeze a.arguments_snapshot frozen in
    (same, ap (sha256_digest d) (sym same) ∙ digest)
