-- ===== src/Harness/Required.antt =====
-- Which sinks dagr_mcp/enforcement_harness.py checks for a decision.
use dagr_mcp.Prelude.{
  String, Bool, true, false, ◌&&◌, ◌||◌, not, ◌≡◌, refl, arith, Option, none, some, List, [], ◌∷◌,
  ◌++◌, str_eq, eq_iff, ap,
}
use dagr_mcp.Python.Dict.{mem_text}
use dagr_mcp.Harness.{PolicyDecision, SinkRequirements}
use dagr_mcp.Harness.Sinks.{
  append_unique, normalize_sink_name, append_names, append_if, effective_required_sinks,
}

-- The name is one of the texts, once normalized.
abbrev pub names_sink : String → List String → Bool
names_sink k [] = false
names_sink k (name ∷ rest) = str_eq (normalize_sink_name name) k || names_sink k rest

-- The profile asks for the sink.
abbrev pub profile_requires : String → Option SinkRequirements → Bool
profile_requires k none = false
profile_requires k (some sr) =
    (sr.event_sink_required && str_eq "event" k)
    || (sr.receipt_sink_required && str_eq "receipt" k)
    || (sr.artifact_sink_required && str_eq "artifact" k)
    || (sr.review_object_sink_required && str_eq "review" k)
    || (sr.lint_finding_sink_required && str_eq "lint" k)

mem_text-append :
    (k v : String) (vs : List String) → mem_text k (vs ++ (v ∷ [])) ≡ (mem_text k vs || str_eq v k)
mem_text-append k v [] = ground arith
mem_text-append k v (w ∷ vs) = ground (arith, mem_text-append k v vs)

mem_text-eq : (k v : String) (vs : List String) → str_eq v k ≡ true → mem_text v vs ≡ mem_text k vs
mem_text-eq k v vs h = let e : v ≡ k = ground (arith, eq_iff v k) in ap (λ x. mem_text x vs) e

mem_text-append_unique :
    (k v : String) (vs : List String)
    → mem_text k (append_unique vs v) ≡ (mem_text k vs || str_eq v k)
unfolding append_unique
mem_text-append_unique k v vs =
    ground (arith, mem_text-append k v vs, mem_text-eq k v vs, eq_iff v k)

mem_text-append_names :
    (k : String) (vs names : List String)
    → mem_text k (append_names vs names) ≡ (mem_text k vs || names_sink k names)
unfolding append_names
mem_text-append_names k vs [] = ground arith
mem_text-append_names k vs (name ∷ rest) = ground (
  arith,
  mem_text-append_names k (append_unique vs (normalize_sink_name name)) rest,
  mem_text-append_unique k (normalize_sink_name name) vs,
)

mem_text-append_if :
    (k : String) (b : Bool) (v : String) (vs : List String)
    → mem_text k (append_if b v vs) ≡ (mem_text k vs || (b && str_eq v k))
unfolding append_if
mem_text-append_if k b v vs = ground (arith, mem_text-append_unique k v vs)

-- No text stands twice in the list.
abbrev pub has_no_duplicate : List String → Bool
has_no_duplicate [] = true
has_no_duplicate (v ∷ vs) = not (mem_text v vs) && has_no_duplicate vs

has_no_duplicate-append :
    (v : String) (vs : List String)
    → has_no_duplicate vs ≡ true
    → mem_text v vs ≡ false
    → has_no_duplicate (vs ++ (v ∷ [])) ≡ true
has_no_duplicate-append v [] h k = refl
has_no_duplicate-append v (w ∷ vs) h k =
    ground (arith, has_no_duplicate-append v vs, mem_text-append w v vs, eq_iff v w, eq_iff w v)

has_no_duplicate-append_unique :
    (v : String) (vs : List String)
    → has_no_duplicate vs ≡ true
    → has_no_duplicate (append_unique vs v) ≡ true
unfolding append_unique
has_no_duplicate-append_unique v vs h = ground (arith, has_no_duplicate-append v vs)

has_no_duplicate-append_names :
    (names vs : List String)
    → has_no_duplicate vs ≡ true
    → has_no_duplicate (append_names vs names) ≡ true
unfolding append_names
has_no_duplicate-append_names [] vs h = h
has_no_duplicate-append_names (name ∷ rest) vs h =
    has_no_duplicate-append_names rest (append_unique vs (normalize_sink_name name))
      (has_no_duplicate-append_unique (normalize_sink_name name) vs h)

has_no_duplicate-append_if :
    (b : Bool) (v : String) (vs : List String)
    → has_no_duplicate vs ≡ true
    → has_no_duplicate (append_if b v vs) ≡ true
unfolding append_if
has_no_duplicate-append_if true v vs h = has_no_duplicate-append_unique v vs h
has_no_duplicate-append_if false v vs h = h

-- The names whose sinks are checked are those of the decision, each in its normalized spelling, and
-- the names that the profile asks for; and no name stands twice among them. It is about names: the
-- two names of the lint sink, `lint` and `lint_finding`, are two.
pub effective_required_sinks-lem :
    (d : PolicyDecision) (profile : Option SinkRequirements)
    → ((k : String)
        → mem_text k (effective_required_sinks d profile)
          ≡ (names_sink k d.required_sinks || profile_requires k profile))
      × (has_no_duplicate (effective_required_sinks d profile) ≡ true)
unfolding effective_required_sinks
effective_required_sinks-lem d none = (
  (λ k. ground (arith, mem_text-append_names k [] d.required_sinks)),
  has_no_duplicate-append_names d.required_sinks [] refl,
)
effective_required_sinks-lem d (some sr) =
    let l₀ = append_names [] d.required_sinks in
    let l₁ = append_if sr.event_sink_required "event" l₀ in
    let l₂ = append_if sr.receipt_sink_required "receipt" l₁ in
    let l₃ = append_if sr.artifact_sink_required "artifact" l₂ in
    let l₄ = append_if sr.review_object_sink_required "review" l₃ in
    (
      (λ k.
          rw
            (
              mem_text-append_if k sr.lint_finding_sink_required "lint" l₄,
              mem_text-append_if k sr.review_object_sink_required "review" l₃,
              mem_text-append_if k sr.artifact_sink_required "artifact" l₂,
              mem_text-append_if k sr.receipt_sink_required "receipt" l₁,
              mem_text-append_if k sr.event_sink_required "event" l₀,
              mem_text-append_names k [] d.required_sinks,
            )
            (ground arith)),
      has_no_duplicate-append_if sr.lint_finding_sink_required "lint" l₄ (
          has_no_duplicate-append_if sr.review_object_sink_required "review" l₃ (
            has_no_duplicate-append_if sr.artifact_sink_required "artifact" l₂ (
              has_no_duplicate-append_if sr.receipt_sink_required "receipt" l₁ (
                has_no_duplicate-append_if sr.event_sink_required "event" l₀
                  (has_no_duplicate-append_names d.required_sinks [] refl))))),
    )
