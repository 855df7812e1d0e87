-- ===== src/Receipts/Emitter.antt =====
-- `SignedReceiptEmitter.emit_admission` and `emit_outcome` of srs_receipts.py.
use dagr_mcp.Prelude.{String, ◌||◌, Option, Result, ok, raised, ◌>>=◌, ◌>>◌, str_eq, if◌then◌else◌}
use dagr_mcp.Python.{str, list, mapping, Items, nil, cons, Fields}
use dagr_mcp.Python.Dict.{put, put_text}
use dagr_mcp.Receipts.{
  ReceiptError, base_limit, result_limit, task_limit, ReceiptContext, SigningIdentity,
}
use dagr_mcp.Receipts.Content.{enforce}
use dagr_mcp.Receipts.Sink.{Files, Disk, write}
use dagr_mcp.Receipts.Signing.{sign_envelope}
use dagr_mcp.Receipts.Envelope.{
  Stamp, extensions, common, Additions, append_attestation_limits, apply_binding_owned_fields,
}

pub record Emitter : Type 0 where
  pub identity : SigningIdentity
  pub disk : Disk

-- The end of both emissions: the content is checked, the envelope signed, and written.
unfoldable pub seal :
    Emitter → Result ReceiptError Fields → Files → Result ReceiptError String × Files
unfolding sign_envelope write
seal emitter built files =
    elim (built >>= λ envelope.
    enforce (mapping envelope) >> sign_envelope emitter.identity envelope) [
      | raised e ↦ (raised e, files)
      | ok signed ↦ write emitter.disk signed files
    ]

pub record AdmissionArguments : Type 0 where
  pub context : ReceiptContext
  pub requested_tool_name : String
  pub argument_digest : String
  pub disposition : String
  pub review_object_ref : Option String
  pub retry_contract : Option String
  pub reason_code : Option String
  pub additional_attestation_limits : Additions

unfoldable pub admission_envelope :
    SigningIdentity → Stamp → AdmissionArguments → Result ReceiptError Fields
unfolding common append_attestation_limits
admission_envelope identity stamp a = do
  e₀ ← common identity a.context stamp "admission" "tool_call_admission"
  let e₁ = put e₀ "requested_tool_name" (str a.requested_tool_name)
  let e₂ = put e₁ "tool_resolution_status" (str "not_observed")
  let e₃ = put e₂ "argument_digest" (str a.argument_digest)
  let e₄ = put e₃ "policy_pack_id" (str a.context.policy_pack_id)
  let e₅ = put e₄ "policy_pack_version" (str a.context.policy_pack_version)
  let e₆ = put e₅ "disposition" (str a.disposition)
  let e₇ = put_text e₆ "review_object_ref" a.review_object_ref
  let e₈ = put_text e₇ "retry_contract" a.retry_contract
  let e₉ = put_text e₈ "reason_code" a.reason_code
  limits ← append_attestation_limits (cons (str base_limit) nil) a.additional_attestation_limits
  ok (put e₉ "attestation_limits" (list limits))

unfoldable pub emit_admission :
    Emitter → Stamp → AdmissionArguments → Files → Result ReceiptError String × Files
unfolding admission_envelope seal
emit_admission emitter stamp a files =
    seal emitter (admission_envelope emitter.identity stamp a) files

pub record OutcomeArguments : Type 0 where
  pub context : ReceiptContext
  pub admission_receipt_ref : String
  pub outcome : String
  pub result_digest : Option String
  pub exception_class : Option String
  pub additional_attestation_limits : Additions
  pub binding_owned_fields : Fields

-- The limits before the additions.
unfoldable pub outcome_limits : String → Items
outcome_limits outcome =
    let task : Items = if str_eq outcome "task_submitted" then cons (str task_limit) nil else nil in
    cons (str base_limit) (
      if str_eq outcome "result_returned" || str_eq outcome "error_returned"
      then cons (str result_limit) task
      else task)

unfoldable pub outcome_envelope :
    SigningIdentity → Stamp → OutcomeArguments → Result ReceiptError Fields
unfolding common append_attestation_limits apply_binding_owned_fields outcome_limits
outcome_envelope identity stamp o = do
  e₀ ← common identity o.context stamp "outcome" "tool_call_outcome"
  let e₁ = put e₀ "admission_receipt_ref" (str o.admission_receipt_ref)
  let e₂ = put e₁ "outcome" (str o.outcome)
  let e₃ = put_text e₂ "result_digest" o.result_digest
  let e₄ = put e₃ "extensions" (extensions o.context.binding_version o.exception_class)
  limits ← append_attestation_limits (outcome_limits o.outcome) o.additional_attestation_limits
  apply_binding_owned_fields (put e₄ "attestation_limits" (list limits)) o.outcome
      o.binding_owned_fields

unfoldable pub emit_outcome :
    Emitter → Stamp → OutcomeArguments → Files → Result ReceiptError String × Files
unfolding outcome_envelope seal
emit_outcome emitter stamp o files = seal emitter (outcome_envelope emitter.identity stamp o) files
