-- ===== src/Receipts/Profile.antt =====
-- What the envelopes of srs_receipts.py hold: the facts of an admission, and what the fields that a
-- binding owns can change.
use dagr_mcp.Prelude.{
  String, ◌≡◌, refl, sym, ap, ◌∙◌, Bool, true, false, not, Option, none, some, ok, >>=-ok,
  raise_if-ok, ok-injective, str_eq, eq_iff, Bool-cases, inl, inr, false≢true,
}
use dagr_mcp.Python.{Value, boolean, str, nil, cons, Fields, end, field}
use dagr_mcp.Python.Dict.{get, put, get-put, put_text, mem_text}
use dagr_mcp.Receipts.{
  ReceiptContext, unregistered_binding_version, origin_outside_vocabulary,
  cancellation_not_permitted, core_field_collision, unknown_binding_field, cancellation_field_names,
  core_receipt_fields, SigningIdentity, base_limit, all_registered_binding_versions,
}
use dagr_mcp.Receipts.Envelope.{
  Stamp, common, common_fields, is_foreign_origin, put_origin, append_attestation_limits,
  apply_fields, apply_binding_owned_fields,
}
use dagr_mcp.Receipts.Emitter.{AdmissionArguments, admission_envelope}

not-false : (b : Bool) → not b ≡ false → b ≡ true
not-false true h = refl
not-false false h = cc

get-put_fact :
    (e : Fields) (k key : String) (v : Value)
    → mem_text k cancellation_field_names ≡ true
    → mem_text key cancellation_field_names ≡ false
    → get (put e k v) key ≡ get e key
get-put_fact e k key v h n = elim (Bool-cases (str_eq k key)) [
  | inl p ↦ absurd (
      false≢true
        (sym n ∙ ap (λ j. mem_text j cancellation_field_names) (sym ((eq_iff k key).0 p)) ∙ h))
  | inr p ↦ get-put e k key v ∙ rw p
]

apply_fields-get :
    (fields e : Fields) (key : String) {e' : Fields}
    → apply_fields e fields ≡ ok e'
    → mem_text key cancellation_field_names ≡ false
    → get e' key ≡ get e key
unfolding apply_fields
apply_fields-get end e key h n = ap (λ f. get f key) (sym (ok-injective h))
apply_fields-get (field k (boolean b) rest) e key h n =
    let (p, h₁) = raise_if-ok (mem_text k core_receipt_fields) core_field_collision _ h in
    let (q, h₂) =
      raise_if-ok (not (mem_text k cancellation_field_names)) unknown_binding_field _ h₁ in
    apply_fields-get rest (put e k (boolean b)) key h₂ n
    ∙ get-put_fact e k key (boolean b) (not-false _ q) n
apply_fields-get (field k v rest) e key h n =
    let (p, h₁) = raise_if-ok (mem_text k core_receipt_fields) core_field_collision _ h in
    let (q, h₂) =
      raise_if-ok (not (mem_text k cancellation_field_names)) unknown_binding_field _ h₁ in
    absurd cc

-- The fields that a binding owns: they change no field but the three cancellation facts, and nothing
-- at all on an outcome that is not indeterminate.
pub apply_binding_owned_fields-get :
    (fields e : Fields) (outcome key : String) {e' : Fields}
    → apply_binding_owned_fields e outcome fields ≡ ok e'
    → (mem_text key cancellation_field_names ≡ false → get e' key ≡ get e key)
      × (str_eq outcome "indeterminate" ≡ false → e' ≡ e)
unfolding apply_binding_owned_fields
apply_binding_owned_fields-get end e outcome key h =
    (λ n. ap (λ f. get f key) (sym (ok-injective h)), λ n. sym (ok-injective h))
apply_binding_owned_fields-get (field k v rest) e outcome key h =
    let (p, h₁) =
      raise_if-ok (not (str_eq outcome "indeterminate")) cancellation_not_permitted _ h in
    (
      λ n. apply_fields-get (field k v rest) e key h₁ n,
      λ n. absurd (false≢true (sym n ∙ not-false _ p)),
    )

pub get-put_text :
    (d : Fields) (k j : String) (o : Option String)
    → str_eq k j ≡ false
    → get (put_text d k o) j ≡ get d j
get-put_text d k j none h = refl
get-put_text d k j (some s) h = elim (Bool-cases (str_eq s "")) [
  | inl p ↦ rw p
  | inr p ↦ rw (p, get-put, h)
]

get-put_origin :
    (d : Fields) (j : String) (o : Option String)
    → str_eq "subject_ref_origin" j ≡ false
    → get (put_origin d o) j ≡ get d j
get-put_origin d j none h = refl
get-put_origin d j (some s) h = rw (get-put, h)

-- A field of the dict literal that no optional field of the context is written over.
pub common-get :
    (identity : SigningIdentity) (context : ReceiptContext) (stamp : Stamp)
    (kind class key : String) {e : Fields}
    → common identity context stamp kind class ≡ ok e
    → str_eq "subject_ref_origin" key ≡ false
    → str_eq "actor_ref" key ≡ false
    → str_eq "tenant_id" key ≡ false
    → str_eq "workspace_id" key ≡ false
    → str_eq "parent_receipt_ref" key ≡ false
    → get e key ≡ get (common_fields identity context stamp kind class) key
unfolding common
common-get identity context stamp kind class key h n₀ n₁ n₂ n₃ n₄ =
    let (registered, h₁) = raise_if-ok _ unregistered_binding_version _ h in
    let (known, h₂) = raise_if-ok _ origin_outside_vocabulary _ h₁ in
    ap (λ f. get f key) (sym (ok-injective h₂))
    ∙ get-put_text _ "parent_receipt_ref" key context.parent_receipt_ref n₄
    ∙ get-put_text _ "workspace_id" key context.workspace_id n₃
    ∙ get-put_text _ "tenant_id" key context.tenant_id n₂
    ∙ get-put_text _ "actor_ref" key context.actor_ref n₁
    ∙ get-put_origin _ key context.subject_ref_origin n₀

common-registered :
    (identity : SigningIdentity) (context : ReceiptContext) (stamp : Stamp) (kind class : String)
    {e : Fields}
    → common identity context stamp kind class ≡ ok e
    → (mem_text context.binding_version all_registered_binding_versions ≡ true)
      × (is_foreign_origin context.subject_ref_origin ≡ false)
unfolding common
common-registered identity context stamp kind class h =
    let (registered, h₁) = raise_if-ok _ unregistered_binding_version _ h in
    let (known, h₂) = raise_if-ok _ origin_outside_vocabulary _ h₁ in
    (not-false _ registered, known)

-- The facts of an admission envelope: its id and its call, the tool, the digest of the arguments and
-- the disposition are those that were passed; its binding version is registered, and the origin of
-- its subject is in the vocabulary, if it has one.
pub admission_envelope-get :
    (identity : SigningIdentity) (stamp : Stamp) (a : AdmissionArguments) {e : Fields}
    → admission_envelope identity stamp a ≡ ok e
    → (get e "receipt_id" ≡ some (str stamp.receipt_id))
      × (get e "receipt_kind" ≡ some (str "admission"))
      × (get e "logical_call_id" ≡ some (str a.context.logical_call_id))
      × (get e "requested_tool_name" ≡ some (str a.requested_tool_name))
      × (get e "argument_digest" ≡ some (str a.argument_digest))
      × (get e "disposition" ≡ some (str a.disposition))
      × (mem_text a.context.binding_version all_registered_binding_versions ≡ true)
      × (is_foreign_origin a.context.subject_ref_origin ≡ false)
unfolding admission_envelope common_fields get
admission_envelope-get identity stamp a h =
    let (e₀, q, h₁) =
      >>=-ok (common identity a.context stamp "admission" "tool_call_admission") _ h in
    let (limits, l, h₂) =
      >>=-ok (append_attestation_limits (cons (str base_limit) nil) a.additional_attestation_limits)
        _ h₁ in
    let (registered, known) = common-registered identity a.context stamp _ _ q in
    let same = sym (ok-injective h₂) in
    let kept = λ (key : String) (n₀ : str_eq "subject_ref_origin" key ≡ false).
      common-get identity a.context stamp "admission" "tool_call_admission" key q n₀ in
    (
      rw same (simp (get-put, get-put_text) (kept "receipt_id" refl refl refl refl refl)),
      rw same (simp (get-put, get-put_text) (kept "receipt_kind" refl refl refl refl refl)),
      rw same (simp (get-put, get-put_text) (kept "logical_call_id" refl refl refl refl refl)),
      rw same (simp (get-put, get-put_text)),
      rw same (simp (get-put, get-put_text)),
      rw same (simp (get-put, get-put_text)),
      registered,
      known,
    )
