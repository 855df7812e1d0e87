-- ===== src/Review/Decision.antt =====
-- `ReviewDecision` of dagr_mcp/sdk_spine.py, and `validate_tool_call_disposition_decision`,
-- `tool_call_disposition_allows_execution` and the digests of dagr_mcp/tool_call_disposition.py.
use dagr_mcp.Prelude.{
  ℕ, String, Bool, true, false, not, ◌||◌, Option, none, some, List, [], ◌∷◌, Result, ok, raised,
  ◌>>=◌, ◌>>◌, raise_if, str_eq,
}
use dagr_mcp.Python.{Value, null, str, mapping, Fields, end, field}
use dagr_mcp.Python.Dict.{get, mem_text}
use dagr_mcp.Python.Text.{eq_codes}
use dagr_mcp.Review.{
  ReviewOutcome, approved, SpineError, normalize_review_decision_outcome, normalize_actor_ref,
}

-- What `_parse_iso` makes of a text: an aware time in microseconds, a time with no zone, or a
-- `ValueError`.
pub data Timestamp : Type 0 where
  aware naive : ℕ → Timestamp
  malformed : Timestamp

-- The annotations are not enforced, so what the code checks the type of is a dynamic value.
pub record ReviewDecision : Type 0 where
  pub decision : Value
  pub review_object_id : String
  pub decided_at : Timestamp
  pub actor_ref : Option String
  pub reason : Value
  pub detail : Value

pub data ToolCallDispositionError : Type 0 where
  decision_not_text reason_not_text detail_not_dict : ToolCallDispositionError
  forbidden_detail_key review_object_type_mismatch : ToolCallDispositionError
  detail_actor_null detail_actor_not_text actor_ref_mismatch : ToolCallDispositionError
  invalid : SpineError → ToolCallDispositionError
  arguments_not_mapping empty_tool_name empty_tool_class : ToolCallDispositionError
  empty_policy_decision arguments_not_stable : ToolCallDispositionError
  gate_timeout_not_positive : ToolCallDispositionError

-- `raise ToolCallDispositionError(str(exc)) from exc`
abbrev pub or_invalid : {A : Type 0} → Result SpineError A → Result ToolCallDispositionError A
or_invalid (ok a) = ok a
or_invalid (raised e) = raised (invalid e)

-- _FORBIDDEN_DECISION_DETAIL_KEYS
abbrev pub forbidden_decision_detail_keys : List String
forbidden_decision_detail_keys =
    "arguments" ∷ "raw_arguments" ∷ "tool_arguments" ∷ "result" ∷ "raw_result" ∷ "prompt"
    ∷ "raw_prompt" ∷ "output" ∷ "raw_output" ∷ "private_corpus_text" ∷ "payload" ∷ "metadata" ∷ []

unfoldable pub has_forbidden_key : Fields → Bool
has_forbidden_key end = false
has_forbidden_key (field k v rest) =
    mem_text k forbidden_decision_detail_keys || has_forbidden_key rest

-- The check on `detail.get("review_object_type")`.
unfoldable pub is_type_mismatch : Option Value → Bool
is_type_mismatch none = false
is_type_mismatch (some null) = false
is_type_mismatch (some (str t)) = not (str_eq t "tool_call_disposition")
is_type_mismatch (some v) = true

-- The check on `decision.actor_ref`, with the normalized reference.
unfoldable pub check_actor : Option String → Result ToolCallDispositionError (Option (List ℕ))
check_actor none = ok none
check_actor (some actor) = or_invalid (normalize_actor_ref actor) >>= λ a. ok (some a)

abbrev pub differs : Option (List ℕ) → List ℕ → Bool
differs none detail_actor = false
differs (some actor) detail_actor = not (eq_codes detail_actor actor)

-- The check on `detail["actor_ref"]`.
unfoldable pub check_detail_actor :
    Option (List ℕ) → Option Value → Result ToolCallDispositionError (Unit {0})
check_detail_actor actor none = ok tt
check_detail_actor actor (some null) = raised detail_actor_null
check_detail_actor actor (some (str s)) =
    or_invalid (normalize_actor_ref s) >>= λ a. raise_if (differs actor a) actor_ref_mismatch
check_detail_actor actor (some v) = raised detail_actor_not_text

unfoldable pub check_decision_text : Value → Result ToolCallDispositionError ReviewOutcome
check_decision_text (str d) = or_invalid (normalize_review_decision_outcome (str d))
check_decision_text _ = raised decision_not_text

unfoldable pub check_reason : Value → Result ToolCallDispositionError (Unit {0})
check_reason null = ok tt
check_reason (str s) = ok tt
check_reason _ = raised reason_not_text

unfoldable pub check_detail : Value → Result ToolCallDispositionError Fields
unfolding has_forbidden_key is_type_mismatch get
check_detail (mapping detail) = do
  raise_if (has_forbidden_key detail) forbidden_detail_key
  raise_if (is_type_mismatch (get detail "review_object_type")) review_object_type_mismatch
  ok detail
check_detail _ = raised detail_not_dict

-- The normalized outcome of a decision that the code then normalizes again is returned with it.
unfoldable pub validate_tool_call_disposition_decision :
    ReviewDecision → Result ToolCallDispositionError ReviewOutcome
unfolding check_decision_text check_reason check_detail check_actor check_detail_actor
validate_tool_call_disposition_decision d = do
  outcome ← check_decision_text d.decision
  check_reason d.reason
  detail ← check_detail d.detail
  actor ← check_actor d.actor_ref
  check_detail_actor actor (get detail "actor_ref")
  ok outcome

abbrev pub is_approved : ReviewOutcome → Bool
is_approved approved = true
is_approved _ = false

unfoldable pub tool_call_disposition_allows_execution :
    Option ReviewDecision → Result ToolCallDispositionError Bool
tool_call_disposition_allows_execution none = ok false
tool_call_disposition_allows_execution (some d) =
    validate_tool_call_disposition_decision d >>= λ outcome. ok (is_approved outcome)
