-- ===== src/Harness/Sinks.antt =====
-- The names of the sinks that a call needs: `_normalize_sink_name`, `_append_unique`,
-- `_normalized_required_sinks` and `_effective_required_sinks` of enforcement_harness.py.
use Prim.Native.String.{◌++◌ as text_append}
use dagr_mcp.Prelude.{
  String, Bool, ◌||◌, Option, none, some, List, [], ◌∷◌, ◌++◌, str_eq, if◌then◌else◌,
}
use dagr_mcp.Python.Dict.{mem_text}
use dagr_mcp.Harness.{PolicyDecision, SinkRequirements}

-- `values.append(value)` where the value is not in the list.
unfoldable pub append_unique : List String → String → List String
append_unique values value = if mem_text value values then values else values ++ (value ∷ [])

-- `text.endswith(suffix)`
abbrev pub has_suffix : String → String → Bool
has_suffix String.[] suffix = str_eq "" suffix
has_suffix (String.◌∷◌ c s) suffix = str_eq (String.◌∷◌ c s) suffix || has_suffix s suffix

-- `text.removesuffix(suffix)`, which leaves a text without that suffix alone.
abbrev pub remove_suffix : String → String → String
remove_suffix String.[] suffix = ""
remove_suffix (String.◌∷◌ c s) suffix =
    if str_eq (String.◌∷◌ c s) suffix then "" else String.◌∷◌ c (remove_suffix s suffix)

unfoldable pub normalize_sink_name : String → String
normalize_sink_name sink_name =
    if mem_text sink_name ("review_object" ∷ "review_object_sink" ∷ [])
    then "review"
    else if has_suffix sink_name "_sink"
    then remove_suffix sink_name "_sink"
    else sink_name

-- The loops of both functions below.
unfoldable pub append_names : List String → List String → List String
unfolding append_unique normalize_sink_name
append_names values [] = values
append_names values (sink_name ∷ rest) =
    append_names (append_unique values (normalize_sink_name sink_name)) rest

-- `if required: _append_unique(values, value)`
unfoldable pub append_if : Bool → String → List String → List String
unfolding append_unique
append_if required value values = if required then append_unique values value else values

unfoldable pub normalized_required_sinks : List String → Bool → Bool → List String
unfolding append_names append_if
normalized_required_sinks required_sinks receipt_required review_required =
    append_if review_required "review"
      (append_if receipt_required "receipt" (append_names [] ("event" ∷ required_sinks)))

unfoldable pub effective_required_sinks : PolicyDecision → Option SinkRequirements → List String
unfolding append_names append_if
effective_required_sinks policy_decision none = append_names [] policy_decision.required_sinks
effective_required_sinks policy_decision (some sr) =
    append_if sr.lint_finding_sink_required "lint" (
      append_if sr.review_object_sink_required "review" (
        append_if sr.artifact_sink_required "artifact" (
          append_if sr.receipt_sink_required "receipt" (
            append_if sr.event_sink_required "event"
              (append_names [] policy_decision.required_sinks)))))

-- `_sink_failure_reason`
unfoldable pub sink_failure_reason : String → String
sink_failure_reason sink_name =
    if str_eq sink_name "review"
    then "review_object_sink_unavailable"
    else if mem_text sink_name ("lint" ∷ "lint_finding" ∷ [])
    then "lint_finding_sink_unavailable"
    else text_append sink_name "_sink_unavailable"
