-- ===== src/Spine/State.antt =====
-- `normalize_review_object_state` of dagr_mcp/sdk_spine.py, and what else it says of a state.
use dagr_mcp.Prelude.{
  ℕ, String, ◌≡◌, refl, Bool, true, false, not, Option, none, some, List, Result, ok, raised, ◌>>=◌,
  if◌then◌else◌,
}
use dagr_mcp.Python.{Value, str}
use dagr_mcp.Python.Text.{codes, strip, eq_codes}
use dagr_mcp.Review.{is_empty, lower}
use dagr_mcp.Spine.{
  ReviewState, pending, approved, rejected, deferred, expired, withdrawn, superseded, StateError,
  state_not_text, state_empty, state_unknown,
}

-- The lookup, aliases included. `str.lower` maps no character but an ASCII letter to a letter of
-- these words.
unfoldable pub state_of_key : List ℕ → Result StateError ReviewState
state_of_key key =
    if eq_codes key (codes "in_review")
    then ok pending
    else if eq_codes key (codes "escalated")
    then ok pending
    else if eq_codes key (codes "approved_with_notes")
    then ok approved
    else if eq_codes key (codes "pending")
    then ok pending
    else if eq_codes key (codes "approved")
    then ok approved
    else if eq_codes key (codes "rejected")
    then ok rejected
    else if eq_codes key (codes "deferred")
    then ok deferred
    else if eq_codes key (codes "expired")
    then ok expired
    else if eq_codes key (codes "withdrawn")
    then ok withdrawn
    else if eq_codes key (codes "superseded")
    then ok superseded
    else raised state_unknown

unfoldable pub normalize_review_object_state : Value → Result StateError ReviewState
unfolding state_of_key strip
normalize_review_object_state (str value) =
    let key = lower (strip (codes value)) in
    if is_empty key then raised state_empty else state_of_key key
normalize_review_object_state _ = raised state_not_text

-- The text of a state.
abbrev pub state_text : ReviewState → String
state_text pending = "pending"
state_text approved = "approved"
state_text rejected = "rejected"
state_text deferred = "deferred"
state_text expired = "expired"
state_text withdrawn = "withdrawn"
state_text superseded = "superseded"

unfoldable pub review_object_state_modifier : Value → Option String
unfolding strip
review_object_state_modifier (str value) =
    if eq_codes (lower (strip (codes value))) (codes "approved_with_notes")
    then some "notes_export_conditional"
    else none
review_object_state_modifier _ = none

unfoldable pub normalize_review_object_state_with_modifier :
    Value → Result StateError (ReviewState × Option String)
unfolding normalize_review_object_state review_object_state_modifier
normalize_review_object_state_with_modifier value =
    normalize_review_object_state value >>= λ state. ok (state, review_object_state_modifier value)

-- `state in REVIEW_OBJECT_GRAPH_TERMINAL_STATES`
abbrev pub is_terminal : ReviewState → Bool
is_terminal superseded = true
is_terminal _ = false

unfoldable pub is_review_object_graph_terminal : Value → Result StateError Bool
unfolding normalize_review_object_state
is_review_object_graph_terminal value =
    normalize_review_object_state value >>= λ state. ok (is_terminal state)

unfoldable pub is_review_object_supersedable : Value → Result StateError Bool
unfolding normalize_review_object_state
is_review_object_supersedable value =
    normalize_review_object_state value >>= λ state. ok (not (is_terminal state))

-- A normalized state is normalized to itself.
pub normalize_review_object_state-state_text :
    (s : ReviewState) → normalize_review_object_state (str (state_text s)) ≡ ok s
unfolding normalize_review_object_state state_of_key strip
normalize_review_object_state-state_text pending = refl
normalize_review_object_state-state_text approved = refl
normalize_review_object_state-state_text rejected = refl
normalize_review_object_state-state_text deferred = refl
normalize_review_object_state-state_text expired = refl
normalize_review_object_state-state_text withdrawn = refl
normalize_review_object_state-state_text superseded = refl
