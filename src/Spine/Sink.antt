-- ===== src/Spine/Sink.antt =====
-- `InMemoryReviewObjectSink` of dagr_mcp/sdk_spine.py.
use Prim.Native.String.{◌++◌ as text_append}
use dagr_mcp.Prelude.{
  ℕ, suc, String, Bool, true, false, not, ◌&&◌, ◌||◌, Option, none, some, List, [], ◌∷◌, Result, ok,
  raised, str_eq, if◌then◌else◌,
}
use dagr_mcp.Python.{Value, str}
use dagr_mcp.Python.Decimal.{decimal}
use dagr_mcp.Python.Dict.{mem_text}
use dagr_mcp.Review.{
  ReviewOutcome, approved, rejected, deferred, expired, normalize_review_decision_outcome,
}
use dagr_mcp.Review.Decision.{ReviewDecision}
use dagr_mcp.Spine.{
  ReviewState, ReviewObject, SinkError, sink_unavailable, review_object_not_found, target_mismatch,
  bad_state, bad_outcome, ReviewSink,
}
use dagr_mcp.Spine.State.{normalize_review_object_state, state_text}

-- A dict's `get` and its assignment.
unfoldable pub find {ℓ} : {A : Type ℓ} → String → List (String × A) → Option A
find key [] = none
find key ((k, a) ∷ rest) = if str_eq k key then some a else find key rest

unfoldable pub assign {ℓ} : {A : Type ℓ} → String → A → List (String × A) → List (String × A)
assign key a [] = (key, a) ∷ []
assign key a ((k, b) ∷ rest) = if str_eq k key then (k, a) ∷ rest else (k, b) ∷ assign key a rest

unfoldable pub maybe_assign_ref : String → ℕ → String
unfolding decimal
maybe_assign_ref prefix counter = text_append prefix (text_append ":" (decimal counter))

-- `InMemoryReviewObjectSink()`
abbrev pub new : ReviewSink
new = record {
  available = true;
  review_counter = 0;
  decision_counter = 0;
  review_objects = [];
  decisions = [];
  decided = [];
}

unfoldable pub set_available : Bool → ReviewSink → ReviewSink
set_available b sink = record sink { available = b }

-- `review_object.review_object_id or self._next_review_ref()`: the reference, and the counter.
unfoldable pub review_ref : Option String → ℕ → String × ℕ
unfolding maybe_assign_ref
review_ref none n = (maybe_assign_ref "review" (suc n), suc n)
review_ref (some id) n =
    if str_eq id "" then (maybe_assign_ref "review" (suc n), suc n) else (id, n)

-- What is kept: in both branches the object with its reference and its normalized state.
abbrev pub prepared : ReviewObject → String → ReviewState → ReviewObject
prepared o ref state = record o {
  review_object_id = some ref;
  governance_state = str (state_text state);
}

-- The part of `create_review_object` after the state is normalized.
unfoldable pub keep : ReviewObject → ReviewState → ReviewSink → Result SinkError String × ReviewSink
unfolding review_ref assign
keep o state sink =
    let (ref, counter) = review_ref o.review_object_id sink.review_counter in
    (
      ok ref,
      record sink {
        review_counter = counter;
        review_objects = assign ref (prepared o ref state) sink.review_objects;
      },
    )

unfoldable pub create_review_object :
    ReviewObject → ReviewSink → Result SinkError String × ReviewSink
unfolding normalize_review_object_state keep
create_review_object o sink =
    if not sink.available
    then (raised sink_unavailable, sink)
    else elim (normalize_review_object_state o.governance_state) [
      | raised e ↦ (raised (bad_state e), sink)
      | ok state ↦ keep o state sink
    ]

abbrev pub outcome_text : ReviewOutcome → String
outcome_text approved = "approved"
outcome_text rejected = "rejected"
outcome_text deferred = "deferred"
outcome_text expired = "expired"

-- The part of `record_decision` after its checks.
unfoldable pub decide :
    String
    → ReviewDecision
    → ReviewObject
    → ReviewOutcome
    → ReviewSink
    → Result SinkError String × ReviewSink
unfolding maybe_assign_ref assign
decide id decision o outcome sink =
    let ref = maybe_assign_ref "decision" (suc sink.decision_counter) in
    (
      ok ref,
      record sink {
        decision_counter = suc sink.decision_counter;
        decisions =
            assign ref (record decision { decision = str (outcome_text outcome) }) sink.decisions;
        decided = id ∷ sink.decided;
        review_objects =
            assign id (record o { governance_state = str (outcome_text outcome) })
              sink.review_objects;
      },
    )

unfoldable pub record_decision :
    String → ReviewDecision → ReviewSink → Result SinkError String × ReviewSink
unfolding find normalize_review_decision_outcome decide
record_decision id decision sink =
    if not sink.available
    then (raised sink_unavailable, sink)
    else elim (find id sink.review_objects) [
      | none ↦ (raised review_object_not_found, sink)
      | some o ↦
          if not (str_eq decision.review_object_id id)
          then (raised target_mismatch, sink)
          else elim (normalize_review_decision_outcome decision.decision) [
            | raised e ↦ (raised (bad_outcome e), sink)
            | ok outcome ↦ decide id decision o outcome sink
          ]
    ]

-- `governance_state in REVIEW_OBJECT_PENDING_STATES`
abbrev pub is_pending : Value → Bool
is_pending (str s) = str_eq s "pending" || str_eq s "deferred"
is_pending _ = false

abbrev pub is_decided : Option String → List String → Bool
is_decided none ids = false
is_decided (some id) ids = mem_text id ids

abbrev pub has_type : Option String → String → Bool
has_type none type = true
has_type (some wanted) type = str_eq type wanted

-- The condition of the comprehension of `list_pending`.
abbrev pub is_listed : List String → Option String → ReviewObject → Bool
is_listed decided wanted o =
    not (is_decided o.review_object_id decided)
    && is_pending o.governance_state
    && has_type wanted o.review_object_type

unfoldable pub select :
    List String → Option String → List (String × ReviewObject) → List ReviewObject
select decided wanted [] = []
select decided wanted ((k, o) ∷ rest) =
    let more = select decided wanted rest in if is_listed decided wanted o then o ∷ more else more

unfoldable pub list_pending : Option String → ReviewSink → Result SinkError (List ReviewObject)
unfolding select
list_pending wanted sink =
    if sink.available
    then ok (select sink.decided wanted sink.review_objects)
    else raised sink_unavailable
