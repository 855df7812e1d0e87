-- ===== src/Harness/Disposition.antt =====
-- `build_tool_call_disposition_review_object` of dagr_mcp/tool_call_disposition.py, as
-- `_gate_call` calls it. The checks at its end that are left out pass for every row that it builds:
-- its keys are fixed, the two lists are lists, and the digest is `sha256:` and 64 hex characters.
use dagr_mcp.Prelude.{
  String, ◌&&◌, Option, List, [], ◌∷◌, Result, ok, raised, ◌>>=◌, ◌>>◌, raise_if, str_eq,
  if◌then◌else◌,
}
use Prim.Native.Char.{code}
use dagr_mcp.Python.{Value, null, str, list, mapping, Fields, end, field, Items, nil, cons}
use dagr_mcp.Python.Text.{is_space, is_blank}
use dagr_mcp.Review.Decision.{
  ToolCallDispositionError, empty_tool_name, empty_tool_class, empty_policy_decision,
  arguments_not_stable,
}
use dagr_mcp.Deferred.Defer.{check_gate_timeout}
use dagr_mcp.Harness.{ReviewObject, Host, Raise, sink_unavailable, exception, base}
use dagr_mcp.Harness.Acts.{stable_payload_hash}

-- The fields of `ToolCallDispositionInput` that `_gate_call` gives; it leaves the others out.
pub record ToolCallDispositionInput : Type 0 where
  pub tool_name : String
  pub tool_class : String
  pub policy_decision : String
  pub arguments : Fields
  pub retention_class : String
  pub required_sinks : List String
  pub reason : String
  pub gate_timeout_seconds : Value
  pub profile_ref : String
  pub event_refs : List String
  pub origin_event_id : Option String
  pub allowed_actions : List String
  pub policy_ref : String
  pub harness_version : String
  pub adapter_type : String

abbrev strip_start : String → String
strip_start String.[] = ""
strip_start (String.◌∷◌ c s) =
    let rest = strip_start s in if is_space (code c) then rest else String.◌∷◌ c s

abbrev strip_end : String → String
strip_end String.[] = ""
strip_end (String.◌∷◌ c s) =
    let rest = strip_end s in if is_space (code c) && str_eq rest "" then "" else String.◌∷◌ c rest

-- `text.strip()`
unfoldable pub strip_text : String → String
strip_text s = strip_end (strip_start s)

abbrev texts : List String → Items
texts [] = nil
texts (s ∷ rest) = cons (str s) (texts rest)

-- A `ToolCallDispositionError`, or what else is raised on the way.
pub data BuildError : Type 0 where
  not_built : ToolCallDispositionError → BuildError
  escaped : Raise → BuildError

-- `hash_tool_call_arguments` of a mapping, which raises a `TypeError` as its own error.
unfoldable pub hash_tool_call_arguments : Host → Fields → Result BuildError String
unfolding stable_payload_hash
hash_tool_call_arguments host arguments = elim (stable_payload_hash host (mapping arguments)) [
  | ok hash ↦ ok hash
  | raised e ↦ elim e [
    | exception class ↦ raised (
        if str_eq class "TypeError"
        then not_built arguments_not_stable
        else escaped (exception class))
    | sink_unavailable ↦ raised (escaped sink_unavailable)
    | base class ↦ raised (escaped (base class))
  ]
]

abbrev or_not_built : {A : Type 0} → Result ToolCallDispositionError A → Result BuildError A
or_not_built (ok a) = ok a
or_not_built (raised e) = raised (not_built e)

unfoldable pub disposition_payload : String → ToolCallDispositionInput → Fields
unfolding strip_text
disposition_payload argument_hash inp = field "tool_name" (str (strip_text inp.tool_name)) (
    field "tool_class" (str (strip_text inp.tool_class)) (
      field "policy_decision" (str (strip_text inp.policy_decision)) (
        field "argument_hash" (str argument_hash) (
          field "retention_class" (str inp.retention_class) (
            field "required_sinks" (list (texts inp.required_sinks)) (
              field "reason" (str inp.reason) (
                field "gate_timeout_seconds" inp.gate_timeout_seconds (
                  field "profile_ref" (str inp.profile_ref) (
                    field "policy_profile_ref" null (
                      field "policy_pack_ref" null (
                        field "event_refs" (list (texts inp.event_refs)) (
                          field "policy_ref" (str inp.policy_ref) (
                            field "harness_version" (str inp.harness_version)
                              (field "adapter_type" (str inp.adapter_type) end))))))))))))))

unfoldable pub build_tool_call_disposition_review_object :
    Host → String → ToolCallDispositionInput → Result BuildError ReviewObject
unfolding disposition_payload hash_tool_call_arguments
build_tool_call_disposition_review_object host now inp = do
  raise_if (is_blank inp.tool_name) (not_built empty_tool_name)
  raise_if (is_blank inp.tool_class) (not_built empty_tool_class)
  raise_if (is_blank inp.policy_decision) (not_built empty_policy_decision)
  argument_hash ← hash_tool_call_arguments host inp.arguments
  timeout ← or_not_built (check_gate_timeout inp.gate_timeout_seconds)
  ok (record {
    review_object_type = "tool_call_disposition";
    governance_state = "pending";
    context_payload = disposition_payload argument_hash inp;
    allowed_actions = inp.allowed_actions;
    created_at = now;
    origin_event_id = inp.origin_event_id;
  })
