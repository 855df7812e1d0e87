-- ===== src/Receipts/Envelope.antt =====
-- The envelopes that `SignedReceiptEmitter` of srs_receipts.py builds: `_common`,
-- `_append_attestation_limits` and `_apply_binding_owned_fields`.
use dagr_mcp.Prelude.{
  String, Bool, false, not, ◌||◌, Option, none, some, Result, ok, raised, ◌>>◌, raise_if, str_eq,
  if◌then◌else◌,
}
use dagr_mcp.Python.{Value, boolean, str, list, mapping, Items, nil, cons, Fields, end, field}
use dagr_mcp.Python.Dict.{put, put_text, mem_text}
use dagr_mcp.Python.Text.{is_blank}
use dagr_mcp.Receipts.{
  ReceiptError, unregistered_binding_version, origin_outside_vocabulary, limits_not_sequence,
  empty_limit, cancellation_not_permitted, core_field_collision, unknown_binding_field,
  binding_field_not_boolean, all_registered_binding_versions, subject_ref_origins,
  cancellation_field_names, core_receipt_fields, base_limit, ReceiptContext, SigningIdentity,
}

-- What the two factories of the emitter give.
pub record Stamp : Type 0 where
  pub receipt_id : String
  pub issued_at : String

-- `{"mcp": {"binding_version": …}}`, with the exception class that `emit_outcome` may add.
abbrev pub extensions : String → Option String → Value
extensions binding_version exception_class = mapping (
    field "mcp"
      (mapping (
        put_text (field "binding_version" (str binding_version) end) "exception_class"
          exception_class))
      end)

-- `origin is not None and origin not in SUBJECT_REF_ORIGINS`
abbrev pub is_foreign_origin : Option String → Bool
is_foreign_origin none = false
is_foreign_origin (some origin) = not (mem_text origin subject_ref_origins)

-- `if origin is not None: envelope["subject_ref_origin"] = origin`
abbrev pub put_origin : Fields → Option String → Fields
put_origin envelope none = envelope
put_origin envelope (some origin) = put envelope "subject_ref_origin" (str origin)

-- The dict literal of `_common`.
unfoldable pub common_fields : SigningIdentity → ReceiptContext → Stamp → String → String → Fields
common_fields identity context stamp receipt_kind artifact_class =
    field "receipt_version" (str "srs.core.v5.1") (
      field "profile_id" (str "srs.mcp.sdk_enforcement") (
        field "profile_version" (str "v0.1") (
          field "receipt_id" (str stamp.receipt_id) (
            field "receipt_type" (str "sdk_enforcement") (
              field "receipt_kind" (str receipt_kind) (
                field "boundary_type" (str "mcp_tool_call") (
                  field "protocol_binding" (str "mcp") (
                    field "subject_ref" (str context.subject_ref) (
                      field "issuer_id" (str identity.issuer_id) (
                        field "runtime_instance_id" (str context.runtime_instance_id) (
                          field "boundary_id" (str context.boundary_id) (
                            field "logical_call_id" (str context.logical_call_id) (
                              field "issued_at" (str stamp.issued_at) (
                                field "artifact_classes_covered"
                                  (list (cons (str artifact_class) nil))
                                  (field "artifact_classes_excluded"
                                    (list (
                                      cons (str "raw_prompt") (
                                        cons (str "raw_output") (
                                          cons (str "raw_tool_arguments")
                                            (cons (str "raw_tool_result") nil)))))
                                    (field "attestation_limits" (list (cons (str base_limit) nil)) (
                                      field "retention_class_applied" (str "hash_only") (
                                        field "extensions" (extensions context.binding_version none)
                                          end))))))))))))))))))

unfoldable pub common :
    SigningIdentity → ReceiptContext → Stamp → String → String → Result ReceiptError Fields
unfolding common_fields
common identity context stamp receipt_kind artifact_class = do
  raise_if (not (mem_text context.binding_version all_registered_binding_versions))
      unregistered_binding_version
  raise_if (is_foreign_origin context.subject_ref_origin) origin_outside_vocabulary
  let e₀ = common_fields identity context stamp receipt_kind artifact_class
  let e₁ = put_origin e₀ context.subject_ref_origin
  let e₂ = put_text e₁ "actor_ref" context.actor_ref
  let e₃ = put_text e₂ "tenant_id" context.tenant_id
  let e₄ = put_text e₃ "workspace_id" context.workspace_id
  ok (put_text e₄ "parent_receipt_ref" context.parent_receipt_ref)

-- The argument of `_append_attestation_limits`: a text (or bytes), or a sequence.
pub data Additions : Type 0 where
  single_text : Additions
  sequence : Items → Additions

-- `limit in limits`
abbrev pub mem_limit : String → Items → Bool
mem_limit limit nil = false
mem_limit limit (cons (str s) rest) = str_eq s limit || mem_limit limit rest
mem_limit limit (cons v rest) = mem_limit limit rest

abbrev pub append_limit : Items → String → Items
append_limit nil limit = cons (str limit) nil
append_limit (cons v rest) limit = cons v (append_limit rest limit)

unfoldable pub append_limits : Items → Items → Result ReceiptError Items
append_limits limits nil = ok limits
append_limits limits (cons (str limit) rest) =
    let more =
      append_limits (if mem_limit limit limits then limits else append_limit limits limit) rest in
    if is_blank limit then raised empty_limit else more
append_limits limits (cons v rest) = raised empty_limit

unfoldable pub append_attestation_limits : Items → Additions → Result ReceiptError Items
unfolding append_limits
append_attestation_limits limits single_text = raised limits_not_sequence
append_attestation_limits limits (sequence additions) = append_limits limits additions

-- The loop of `_apply_binding_owned_fields`.
unfoldable pub apply_fields : Fields → Fields → Result ReceiptError Fields
apply_fields envelope end = ok envelope
apply_fields envelope (field key (boolean b) rest) =
    raise_if (mem_text key core_receipt_fields) core_field_collision
    >> (raise_if (not (mem_text key cancellation_field_names)) unknown_binding_field
        >> apply_fields (put envelope key (boolean b)) rest)
apply_fields envelope (field key v rest) =
    raise_if (mem_text key core_receipt_fields) core_field_collision
    >> (raise_if (not (mem_text key cancellation_field_names)) unknown_binding_field
        >> raised binding_field_not_boolean)

-- `None` and an empty mapping both stand by `end`.
unfoldable pub apply_binding_owned_fields : Fields → String → Fields → Result ReceiptError Fields
unfolding apply_fields
apply_binding_owned_fields envelope outcome end = ok envelope
apply_binding_owned_fields envelope outcome (field key v rest) =
    raise_if (not (str_eq outcome "indeterminate")) cancellation_not_permitted
    >> apply_fields envelope (field key v rest)
