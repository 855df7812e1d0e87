-- ===== src/Review/Approval.antt =====
-- What dagr_mcp/tool_call_disposition.py lets execute.
use dagr_mcp.Prelude.{
  String, ◌≡◌, refl, sym, ap, ◌∙◌, true, false, Option, none, some, ok, >>=-ok, >>-ok, raise_if-ok,
  ok-injective, arith,
}
use dagr_mcp.Python.{Value, str, mapping, Fields}
use dagr_mcp.Python.Dict.{get}
use dagr_mcp.Python.Text.{codes, strip, eq_codes}
use dagr_mcp.Review.{approved, lower, outcome_of_key, normalize_review_decision_outcome}
use dagr_mcp.Review.Decision.{
  ReviewDecision, forbidden_detail_key, review_object_type_mismatch, has_forbidden_key,
  is_type_mismatch, check_decision_text, check_reason, check_detail, check_actor,
  check_detail_actor, validate_tool_call_disposition_decision,
  tool_call_disposition_allows_execution,
}

check_detail-ok :
    (v : Value) {detail : Fields}
    → check_detail v ≡ ok detail
    → (v ≡ mapping detail) × (has_forbidden_key detail ≡ false)
unfolding check_detail
check_detail-ok (mapping fields) h =
    let (allowed, h₁) = raise_if-ok (has_forbidden_key fields) forbidden_detail_key _ h in
    let (typed, h₂) =
      raise_if-ok (is_type_mismatch (get fields "review_object_type")) review_object_type_mismatch _
        h₁ in
    (ap mapping (ok-injective h₂), ap has_forbidden_key (sym (ok-injective h₂)) ∙ allowed)
check_detail-ok v h = absurd cc

check_decision_text-approved :
    (v : Value)
    → check_decision_text v ≡ ok approved
    → (text : String) × (v ≡ str text)
      × (eq_codes (lower (strip (codes text))) (codes "approved") ≡ true)
unfolding check_decision_text normalize_review_decision_outcome outcome_of_key
check_decision_text-approved (str text) h = (text, refl, ground arith)
check_decision_text-approved v h = absurd cc

-- Execution is allowed only by a decision that is given, whose text reads `approved` once it is
-- stripped and put in lower case, and whose detail is a mapping without one of the keys that could
-- carry arguments, results or prompts.
pub tool_call_disposition_allows_execution-ok :
    (o : Option ReviewDecision)
    → tool_call_disposition_allows_execution o ≡ ok true
    → (d : ReviewDecision) × (text : String) × (detail : Fields) × (o ≡ some d)
      × (d.decision ≡ str text)
      × (eq_codes (lower (strip (codes text))) (codes "approved") ≡ true)
      × (d.detail ≡ mapping detail)
      × (has_forbidden_key detail ≡ false)
unfolding tool_call_disposition_allows_execution validate_tool_call_disposition_decision
tool_call_disposition_allows_execution-ok none h = absurd ground arith
tool_call_disposition_allows_execution-ok (some d) h =
    let (outcome, v, is) = >>=-ok (validate_tool_call_disposition_decision d) _ h in
    let (read, t, h₁) = >>=-ok (check_decision_text d.decision) _ v in
    let (u, h₂) = >>-ok (check_reason d.reason) _ h₁ in
    let (detail, c, h₃) = >>=-ok (check_detail d.detail) _ h₂ in
    let (actor, a, h₄) = >>=-ok (check_actor d.actor_ref) _ h₃ in
    let (w, h₅) = >>-ok (check_detail_actor actor (get detail "actor_ref")) _ h₄ in
    let approves : read ≡ approved = ground arith in
    let (text, spelled, key) = check_decision_text-approved d.decision (t ∙ ap ok approves) in
    let (is_mapping, allowed) = check_detail-ok d.detail c in
    (d, text, detail, refl, spelled, key, is_mapping, allowed)
