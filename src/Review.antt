-- ===== src/Review.antt =====
-- Review decisions: the vocabularies and actor references of dagr_mcp/sdk_spine.py, and the checks
-- of dagr_mcp/tool_call_disposition.py on a decision.
pub mod Decision
mod Approval
mod Tests
use mathlib.Core.List.{map}
use dagr_mcp.Prelude.{
  ℕ, ◌+◌, String, Bool, true, false, not, ◌&&◌, ◌||◌, List, [], ◌∷◌, ◌++◌, Result, ok, raised,
  ◌>>=◌, ◌>>◌, raise_if, leb, ltb, ◌==◌, if◌then◌else◌, zero, suc,
}
use dagr_mcp.Python.{Value, str}
use dagr_mcp.Python.Text.{codes, has_code, strip, lower_ascii, eq_codes}

-- REVIEW_DECISION_OUTCOMES
pub data ReviewOutcome : Type 0 where
  approved rejected deferred expired : ReviewOutcome

-- The `ValueError`s of the two normalizers, by their messages.
pub data SpineError : Type 0 where
  outcome_not_text outcome_empty outcome_unknown : SpineError
  actor_empty actor_whitespace actor_email actor_form actor_slug_empty : SpineError
  actor_prefix_unknown actor_slug_padded actor_slug_invalid : SpineError

-- `key in REVIEW_DECISION_OUTCOMES`, with the member. `str.lower` maps no character but an ASCII
-- letter to a letter of these words (the Kelvin sign becomes a `k`, which none of them has).
unfoldable pub outcome_of_key : List ℕ → Result SpineError ReviewOutcome
outcome_of_key key =
    if eq_codes key (codes "approved")
    then ok approved
    else if eq_codes key (codes "rejected")
    then ok rejected
    else if eq_codes key (codes "deferred")
    then ok deferred
    else if eq_codes key (codes "expired")
    then ok expired
    else raised outcome_unknown

abbrev pub is_empty {ℓ} : {A : Type ℓ} → List A → Bool
is_empty [] = true
is_empty (x ∷ xs) = false

abbrev pub lower : List ℕ → List ℕ
lower = map lower_ascii

unfoldable pub normalize_review_decision_outcome : Value → Result SpineError ReviewOutcome
unfolding strip
normalize_review_decision_outcome (str value) =
    let key = lower (strip (codes value)) in
    if is_empty key then raised outcome_empty else outcome_of_key key
normalize_review_decision_outcome _ = raised outcome_not_text

-- `raw.partition(":")`, without the separator: the text before the first colon, and after it.
unfoldable pub before_colon : List ℕ → List ℕ
before_colon [] = []
before_colon (c ∷ s) = let rest = before_colon s in if c == b':' then [] else c ∷ rest

unfoldable pub after_colon : List ℕ → List ℕ
after_colon [] = []
after_colon (c ∷ s) = let rest = after_colon s in if c == b':' then s else rest

-- `prefix_key in _ACTOR_REF_PREFIXES`
unfoldable pub is_actor_prefix : List ℕ → Bool
is_actor_prefix key =
    eq_codes key (codes "local_operator")
    || eq_codes key (codes "delegated_agent")
    || eq_codes key (codes "service_account")
    || eq_codes key (codes "external_reviewer")

-- `[a-z0-9._-]`
abbrev pub is_slug_code : ℕ → Bool
is_slug_code c =
    (leb b'a' c && leb c b'z') || (leb b'0' c && leb c b'9') || c == b'.' || c == b'_' || c == b'-'

abbrev pub all_slug : List ℕ → Bool
all_slug [] = true
all_slug (c ∷ s) = is_slug_code c && all_slug s

abbrev pub length {ℓ} : {A : Type ℓ} → List A → ℕ
length [] = 0
length (x ∷ xs) = suc (length xs)

-- `_ACTOR_REF_SLUG_RE.fullmatch(slug)`
unfoldable pub is_slug : List ℕ → Bool
is_slug s = not (is_empty s) && leb (length s) 96 && all_slug s

-- `normalize_actor_ref` on the stripped text.
unfoldable pub normalize_raw : List ℕ → Result SpineError (List ℕ)
unfolding is_actor_prefix is_slug
normalize_raw raw = do
  raise_if (is_empty raw) actor_empty
  raise_if (has_code 32 raw || has_code 9 raw || has_code 10 raw) actor_whitespace
  raise_if (has_code b'@' raw) actor_email
  raise_if (not (has_code b':' raw)) actor_form
  let slug = after_colon raw
  raise_if (is_empty slug) actor_slug_empty
  let prefix_key = lower (strip (before_colon raw))
  raise_if (not (is_actor_prefix prefix_key)) actor_prefix_unknown
  let slug_key = strip slug
  raise_if (not (eq_codes slug_key slug)) actor_slug_padded
  raise_if (not (is_slug slug_key)) actor_slug_invalid
  ok (prefix_key ++ (b':' ∷ slug_key))

-- The normalized reference, as the code points of `f"{prefix_key}:{slug_key}"`.
unfoldable pub normalize_actor_ref : String → Result SpineError (List ℕ)
unfolding normalize_raw
normalize_actor_ref actor_ref = normalize_raw (strip (codes actor_ref))
