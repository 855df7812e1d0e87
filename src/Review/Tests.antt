-- ===== src/Review/Tests.antt =====
-- A decision of dagr_mcp/tool_call_disposition.py that allows execution.
use dagr_mcp.Prelude.{String, ◌≡◌, refl, true, false, Option, some, ok}
use dagr_mcp.Python.{null, str, mapping, Fields, end, field}
use dagr_mcp.Python.Dict.{get}
use dagr_mcp.Python.Text.{codes, strip, eq_codes}
use dagr_mcp.Review.{
  lower, outcome_of_key, normalize_review_decision_outcome, before_colon, after_colon,
  is_actor_prefix, is_slug, normalize_raw, normalize_actor_ref,
}
use dagr_mcp.Review.Decision.{
  aware, ReviewDecision, has_forbidden_key, is_type_mismatch, check_decision_text, check_reason,
  check_detail, check_actor, check_detail_actor, validate_tool_call_disposition_decision,
  tool_call_disposition_allows_execution,
}
use dagr_mcp.Review.Approval.{tool_call_disposition_allows_execution-ok}

abbrev approval : Option ReviewDecision
approval = some (record {
  decision = str " Approved ";
  review_object_id = "review:1";
  decided_at = aware 0;
  actor_ref = some "Local_Operator:ann";
  reason = null;
  detail = mapping (field "actor_ref" (str "local_operator:ann") end);
})

approval_allows : tool_call_disposition_allows_execution approval ≡ ok true
unfolding tool_call_disposition_allows_execution validate_tool_call_disposition_decision
    check_decision_text normalize_review_decision_outcome outcome_of_key strip check_reason
    check_detail has_forbidden_key is_type_mismatch get check_actor check_detail_actor
    normalize_actor_ref normalize_raw before_colon after_colon is_actor_prefix is_slug
approval_allows = refl

tool_call_disposition_allows_execution-ok_example :
    (d : ReviewDecision) × (text : String) × (detail : Fields) × (approval ≡ some d)
    × (d.decision ≡ str text)
    × (eq_codes (lower (strip (codes text))) (codes "approved") ≡ true)
    × (d.detail ≡ mapping detail)
    × (has_forbidden_key detail ≡ false)
tool_call_disposition_allows_execution-ok_example =
    tool_call_disposition_allows_execution-ok approval approval_allows
