-- ===== src/Spine/Decided.antt =====
-- Runs of the in-memory review sink of dagr_mcp/sdk_spine.py, and what a decision does.
use dagr_mcp.Prelude.{
  suc, String, ◌≡◌, refl, sym, ap, ◌∙◌, subst, Bool, true, false, ◌||◌, Option, none, some, List,
  [], ◌∷◌, ok, str_eq, eq_iff, if◌then◌else◌, if_true, arith, Bool-cases, Option-cases,
  Result-cases, inl, inr, ok-injective,
}
use dagr_mcp.Python.{str}
use dagr_mcp.Python.Dict.{mem_text}
use dagr_mcp.Review.{ReviewOutcome, normalize_review_decision_outcome}
use dagr_mcp.Review.Decision.{ReviewDecision}
use dagr_mcp.Spine.{ReviewObject, ReviewSink}
use dagr_mcp.Spine.Sink.{
  find, assign, maybe_assign_ref, set_available, keep, create_review_object, outcome_text, decide,
  record_decision, is_decided, is_listed, select, list_pending,
}

-- One call that may change the sink.
pub data Operation : Type 0 where
  create : ReviewObject → Operation
  record_one : String → ReviewDecision → Operation
  switch : Bool → Operation

unfoldable pub after : Operation → ReviewSink → ReviewSink
unfolding create_review_object record_decision set_available
after (create o) sink = (create_review_object o sink).1
after (record_one id d) sink = (record_decision id d sink).1
after (switch b) sink = set_available b sink

-- The calls of a run, from left to right.
unfoldable pub run : List Operation → ReviewSink → ReviewSink
unfolding after
run [] sink = sink
run (op ∷ ops) sink = run ops (after op sink)

-- The ids of the decided objects only grow.
create-decided :
    (o : ReviewObject) (sink : ReviewSink) → (create_review_object o sink).1.decided ≡ sink.decided
unfolding create_review_object keep
create-decided o sink = ground arith

record_decision-decided :
    (id : String) (d : ReviewDecision) (sink : ReviewSink) (key : String)
    → mem_text key sink.decided ≡ true
    → mem_text key (record_decision id d sink).1.decided ≡ true
unfolding record_decision decide
record_decision-decided id d sink key h = ground arith

after-decided :
    (op : Operation) (sink : ReviewSink) (key : String)
    → mem_text key sink.decided ≡ true
    → mem_text key (after op sink).decided ≡ true
unfolding after set_available
after-decided (create o) sink key h = ap (mem_text key) (create-decided o sink) ∙ h
after-decided (record_one id d) sink key h = record_decision-decided id d sink key h
after-decided (switch b) sink key h = h

run-decided :
    (ops : List Operation) (sink : ReviewSink) (key : String)
    → mem_text key sink.decided ≡ true
    → mem_text key (run ops sink).decided ≡ true
unfolding run
run-decided [] sink key h = h
run-decided (op ∷ ops) sink key h =
    run-decided ops (after op sink) key (after-decided op sink key h)

-- Some object of the list has the id.
abbrev pub has_id : String → List ReviewObject → Bool
has_id id [] = false
has_id id (o ∷ rest) = is_decided o.review_object_id (id ∷ []) || has_id id rest

is_decided-one :
    (found : Option String) (id : String) (ids : List String)
    → mem_text id ids ≡ true
    → is_decided found (id ∷ []) ≡ true
    → is_decided found ids ≡ true
is_decided-one none id ids h k = cc
is_decided-one (some j) id ids h k =
    subst (λ x. mem_text x ids ≡ true) ((eq_iff id j).0 (ground arith)) h

has_id-either :
    (b : Bool) (o : ReviewObject) (rest : List ReviewObject) (id : String)
    → is_decided o.review_object_id (id ∷ []) ≡ false
    → has_id id rest ≡ false
    → has_id id (if b then o ∷ rest else rest) ≡ false
has_id-either true o rest id p h = rw p h
has_id-either false o rest id p h = h

select-has_id :
    (ids : List String) (wanted : Option String) (objects : List (String × ReviewObject))
    (id : String)
    → mem_text id ids ≡ true
    → has_id id (select ids wanted objects) ≡ false
unfolding select
select-has_id ids wanted [] id h = refl
select-has_id ids wanted ((k, o) ∷ rest) id h =
    elim (Bool-cases (is_decided o.review_object_id (id ∷ []))) [
      | inl p ↦
          rw (is_decided-one o.review_object_id id ids h p) (select-has_id ids wanted rest id h)
      | inr p ↦ has_id-either (is_listed ids wanted o) o _ id p (select-has_id ids wanted rest id h)
    ]

record_decision-member :
    (id : String) (d : ReviewDecision) (sink : ReviewSink) {ref : String}
    → (record_decision id d sink).0 ≡ ok ref
    → mem_text id (record_decision id d sink).1.decided ≡ true
unfolding record_decision decide
record_decision-member id d sink h = ground (arith, eq_iff id id)

list_pending-has_id :
    (wanted : Option String) (sink : ReviewSink) (id : String) {objects : List ReviewObject}
    → mem_text id sink.decided ≡ true
    → list_pending wanted sink ≡ ok objects
    → has_id id objects ≡ false
unfolding list_pending
list_pending-has_id wanted sink id h k = elim (Bool-cases sink.available) [
  | inl p ↦
      subst (λ os. has_id id os ≡ false) (ok-injective (sym (if_true sink.available _ _ p) ∙ k))
        (select-has_id sink.decided wanted sink.review_objects id h)
  | inr p ↦ absurd (ground arith)
]

-- After a decision on a review object is recorded, no list of pending objects has an object of its
-- id any more, whatever is called in between: not even where the decision is to defer, which leaves
-- the object in a state that is pending, nor where the object is created anew.
pub list_pending-record_decision :
    (id : String) (d : ReviewDecision) (sink : ReviewSink) (ops : List Operation)
    (wanted : Option String) {ref : String} {objects : List ReviewObject}
    → (record_decision id d sink).0 ≡ ok ref
    → list_pending wanted (run ops (record_decision id d sink).1) ≡ ok objects
    → has_id id objects ≡ false
list_pending-record_decision id d sink ops wanted h k =
    list_pending-has_id wanted (run ops (record_decision id d sink).1) id
      (run-decided ops (record_decision id d sink).1 id (record_decision-member id d sink h)) k

find-assign :
    {A : Type 0} (key j : String) (a : A) (d : List (String × A))
    → find j (assign key a d) ≡ (if str_eq key j then some a else find j d)
unfolding find assign
find-assign key j a [] = refl
find-assign key j a ((k, b) ∷ rest) =
    ground (arith, eq_iff k key, eq_iff k j, eq_iff key j, find-assign key j a rest)

-- A decision that is recorded has passed every check.
record_decision-ok :
    (id : String) (d : ReviewDecision) (sink : ReviewSink) {ref : String}
    → (record_decision id d sink).0 ≡ ok ref
    → (o : ReviewObject) × (outcome : ReviewOutcome) × (find id sink.review_objects ≡ some o)
      × (normalize_review_decision_outcome d.decision ≡ ok outcome)
      × (record_decision id d sink ≡ decide id d o outcome sink)
      × (d.review_object_id ≡ id)
unfolding record_decision
record_decision-ok id d sink h = elim (Option-cases (find id sink.review_objects)) [
  | inl e ↦ absurd (ground arith)
  | inr (o, e) ↦ elim (Result-cases (normalize_review_decision_outcome d.decision)) [
    | inr (wrong, f) ↦ absurd (ground arith)
    | inl (outcome, f) ↦
        (o, outcome, e, f, ground arith, ground (arith, eq_iff d.review_object_id id))
  ]
]

decide-kept :
    (id : String) (d : ReviewDecision) (o : ReviewObject) (outcome : ReviewOutcome)
    (sink : ReviewSink) {ref : String}
    → (decide id d o outcome sink).0 ≡ ok ref
    → (find ref (decide id d o outcome sink).1.decisions
        ≡ some (record d { decision = str (outcome_text outcome) }))
      × (find id (decide id d o outcome sink).1.review_objects
          ≡ some (record o { governance_state = str (outcome_text outcome) }))
      × ((key : String)
          → str_eq id key ≡ false
          → find key (decide id d o outcome sink).1.review_objects ≡ find key sink.review_objects)
unfolding decide
decide-kept id d o outcome sink {ref} h =
    let same : maybe_assign_ref "decision" (suc sink.decision_counter) ≡ ref = ok-injective h in
    (
      find-assign _ ref _ sink.decisions ∙ rw (same, (eq_iff ref ref).1 refl) refl,
      find-assign id id _ sink.review_objects ∙ rw ((eq_iff id id).1 refl) refl,
      λ key n. find-assign id key _ sink.review_objects ∙ rw n refl,
    )

-- A decision that is recorded names the object and has a known outcome. It is kept under the
-- reference that is returned, with the outcome's normal text; the object gets that text as its state
-- and is otherwise as it was, and so is every other object.
pub record_decision-kept :
    (id : String) (d : ReviewDecision) (sink : ReviewSink) {ref : String}
    → (record_decision id d sink).0 ≡ ok ref
    → (o : ReviewObject) × (outcome : ReviewOutcome) × (find id sink.review_objects ≡ some o)
      × (d.review_object_id ≡ id)
      × (normalize_review_decision_outcome d.decision ≡ ok outcome)
      × (find ref (record_decision id d sink).1.decisions
          ≡ some (record d { decision = str (outcome_text outcome) }))
      × (find id (record_decision id d sink).1.review_objects
          ≡ some (record o { governance_state = str (outcome_text outcome) }))
      × ((key : String)
          → str_eq id key ≡ false
          → find key (record_decision id d sink).1.review_objects ≡ find key sink.review_objects)
record_decision-kept id d sink {ref} h =
    let (o, outcome, e, f, same, target) = record_decision-ok id d sink h in
    let (stored, object, others) = decide-kept id d o outcome sink (ap (λ x. x.0) (sym same) ∙ h) in
    (
      o,
      outcome,
      e,
      target,
      f,
      ap (λ x. find ref x.1.decisions) same ∙ stored,
      ap (λ x. find id x.1.review_objects) same ∙ object,
      λ key n. ap (λ x. find key x.1.review_objects) same ∙ others key n,
    )
