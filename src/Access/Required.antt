-- ===== src/Access/Required.antt =====
-- That the envelope of `emit_admission` of srs_receipts.py has every field that
-- `_envelope_schema_error` of dagr_mcp_service/access.py wants.
use dagr_mcp.Prelude.{
  String, ◌≡◌, refl, sym, ap, ◌∙◌, subst, raise_if-ok, Bool, true, false, not, ◌&&◌, Option, none,
  some, is_some, List, [], ◌∷◌, ok, >>=-ok, ok-injective, arith, str_eq, Bool-cases, inl, inr,
}
use dagr_mcp.Python.{
  Value, null, boolean, integer, floating, str, list, tuple, mapping, opaque, nil, cons, Fields,
}
use dagr_mcp.Python.Dict.{get, has, put, get-put, put_text}
use dagr_mcp.Receipts.{
  unregistered_binding_version, origin_outside_vocabulary, ReceiptContext, SigningIdentity,
  base_limit,
}
use dagr_mcp.Receipts.Envelope.{Stamp, common, common_fields, put_origin, append_attestation_limits}
use dagr_mcp.Receipts.Emitter.{AdmissionArguments, admission_envelope}
use dagr_mcp.Receipts.Profile.{common-get, get-put_text}
use dagr_mcp.Python.Sort.{reread, reread_fields, reread_found, get-reread_fields, has-reread_fields}
use dagr_mcp.Access.Reread.{and_parts}
use dagr_mcp.Access.Schema.{required_admission_fields, has_all, is_text}

-- Each key of the first is a key of the second.
data Extends (d e : Fields) : Type 0 where
  extends : ((key : String) → has d key ≡ true → has e key ≡ true) → Extends d e

keeps_key :
    (d : Fields) (k : String) (v : Value) (key : String)
    → has d key ≡ true
    → has (put d k v) key ≡ true
keeps_key d k v key h = elim (Bool-cases (str_eq k key)) [
  | inl p ↦ ap is_some (get-put d k key v) ∙ rw p
  | inr p ↦ ap is_some (get-put d k key v) ∙ rw p h
]

put-Extends : {c d : Fields} (k : String) (v : Value) → Extends c d → Extends c (put d k v)
put-Extends {c} {d} k v (extends x) = extends (λ key h. keeps_key d k v key (x key h))

put_text-Extends :
    {c d : Fields} (k : String) (o : Option String) → Extends c d → Extends c (put_text d k o)
put_text-Extends k none x = x
put_text-Extends k (some s) x = elim (Bool-cases (str_eq s "")) [
  | inl p ↦ rw p x
  | inr p ↦ rw p (put-Extends k (str s) x)
]

put_origin-Extends : {c d : Fields} (o : Option String) → Extends c d → Extends c (put_origin d o)
put_origin-Extends none x = x
put_origin-Extends (some s) x = put-Extends "subject_ref_origin" (str s) x

common-Extends :
    (identity : SigningIdentity) (context : ReceiptContext) (stamp : Stamp) (kind class : String)
    {e : Fields}
    → common identity context stamp kind class ≡ ok e
    → Extends (common_fields identity context stamp kind class) e
unfolding common
common-Extends identity context stamp kind class h =
    let (registered, h₁) = raise_if-ok _ unregistered_binding_version _ h in
    let (known, h₂) = raise_if-ok _ origin_outside_vocabulary _ h₁ in
    subst (Extends (common_fields identity context stamp kind class)) (ok-injective h₂) (
      put_text-Extends "parent_receipt_ref" context.parent_receipt_ref (
        put_text-Extends "workspace_id" context.workspace_id (
          put_text-Extends "tenant_id" context.tenant_id (
            put_text-Extends "actor_ref" context.actor_ref
              (put_origin-Extends context.subject_ref_origin (extends (λ key k. k)))))))

has_all-Extends :
    (keys : List String) (d e : Fields)
    → Extends d e
    → has_all keys d ≡ true
    → has_all keys e ≡ true
unfolding has_all
has_all-Extends [] d e x h = refl
has_all-Extends (key ∷ keys) d e (extends x) h =
    let (first, more) = and_parts (has d key) (has_all keys d) h in
    rw (x key first) (has_all-Extends keys d e (extends x) more)

-- The fields of every receipt, but the signature.
abbrev pub base_keys : List String
base_keys =
    "receipt_version" ∷ "profile_id" ∷ "profile_version" ∷ "receipt_id" ∷ "receipt_type"
    ∷ "receipt_kind" ∷ "boundary_type" ∷ "protocol_binding" ∷ "subject_ref" ∷ "issuer_id"
    ∷ "runtime_instance_id" ∷ "boundary_id" ∷ "logical_call_id" ∷ "issued_at"
    ∷ "artifact_classes_covered" ∷ "artifact_classes_excluded" ∷ "attestation_limits"
    ∷ "retention_class_applied" ∷ "extensions" ∷ []

abbrev pub constant_fields : List (String × String)
constant_fields =
    ("receipt_version", "srs.core.v5.1")
    ∷ ("profile_id", "srs.mcp.sdk_enforcement")
    ∷ ("profile_version", "v0.1")
    ∷ ("receipt_type", "sdk_enforcement")
    ∷ ("boundary_type", "mcp_tool_call")
    ∷ ("protocol_binding", "mcp")
    ∷ []

abbrev pub has_texts : List (String × String) → Fields → Bool
has_texts [] e = true
has_texts ((key, text) ∷ rest) e = is_text (get e key) text && has_texts rest e

common_fields-base_keys :
    (identity : SigningIdentity) (context : ReceiptContext) (stamp : Stamp) (kind class : String)
    → has_all base_keys (common_fields identity context stamp kind class) ≡ true
unfolding has_all common_fields get
common_fields-base_keys identity context stamp kind class = refl

has_all-cons :
    (key : String) (keys : List String) (e : Fields) (v : Value)
    → get e key ≡ some v
    → has_all keys e ≡ true
    → has_all (key ∷ keys) e ≡ true
unfolding has_all
has_all-cons key keys e v h k = rw h k

reread-Extends : {c d : Fields} → Extends c d → Extends c (reread_fields d)
reread-Extends {c} {d} (extends x) = extends (λ key h. has-reread_fields d key ∙ x key h)

-- A field that is added, and the reading back, keep the keys that there are.
pub has_all-reread :
    (keys : List String) (e : Fields) (k : String) (v : Value)
    → has_all keys e ≡ true
    → has_all keys (reread_fields (put e k v)) ≡ true
has_all-reread keys e k v h =
    has_all-Extends keys e _ (reread-Extends (put-Extends k v (extends (λ key there. there)))) h

is_text-reread : (o : Option Value) (text : String) → is_text (reread_found o) text ≡ is_text o text
unfolding reread
is_text-reread none text = refl
is_text-reread (some null) text = refl
is_text-reread (some (boolean b)) text = refl
is_text-reread (some (integer n)) text = refl
is_text-reread (some (floating bits)) text = refl
is_text-reread (some (str s)) text = refl
is_text-reread (some (list items)) text = refl
is_text-reread (some (tuple items)) text = refl
is_text-reread (some (mapping fields)) text = refl
is_text-reread (some (opaque name)) text = refl

abbrev pub is_apart : String → List (String × String) → Bool
is_apart k [] = true
is_apart k ((key, text) ∷ rest) = not (str_eq k key) && is_apart k rest

-- And they keep the texts of the other keys.
pub has_texts-reread :
    (texts : List (String × String)) (e : Fields) (k : String) (v : Value)
    → is_apart k texts ≡ true
    → has_texts texts e ≡ true
    → has_texts texts (reread_fields (put e k v)) ≡ true
has_texts-reread [] e k v n h = refl
has_texts-reread ((key, text) ∷ rest) e k v n h =
    let (other, others) = and_parts (not (str_eq k key)) (is_apart k rest) n in
    let (first, more) = and_parts (is_text (get e key) text) (has_texts rest e) h in
    let apart : str_eq k key ≡ false = ground arith in
    let there : get (put e k v) key ≡ get e key = get-put e k key v ∙ rw apart in
    rw (get-reread_fields (put e k v) key, there, is_text-reread (get e key) text, first)
      (has_texts-reread rest e k v others more)

has_nothing : (e : Fields) → has_all [] e ≡ true
unfolding has_all
has_nothing e = refl

module _ (identity : SigningIdentity) (stamp : Stamp) (a : AdmissionArguments) where
  -- The envelope of an admission: it has the fields that are asked for, and the profile's constants;
  -- and the issuer and the time are the identity's and the stamp's.
  pub admission_envelope-required :
      {e : Fields}
      → admission_envelope identity stamp a ≡ ok e
      → (has_all base_keys e ≡ true)
        × (has_all required_admission_fields e ≡ true)
        × (has_texts constant_fields e ≡ true)
        × (get e "issuer_id" ≡ some (str identity.issuer_id))
        × (get e "issued_at" ≡ some (str stamp.issued_at))
  unfolding admission_envelope common_fields get
  admission_envelope-required {e} h =
      let (e₀, q, h₁) =
        >>=-ok (common identity a.context stamp "admission" "tool_call_admission") _ h in
      let (limits, l, h₂) =
        >>=-ok
          (append_attestation_limits (cons (str base_limit) nil) a.additional_attestation_limits) _
          h₁ in
      let same = sym (ok-injective h₂) in
      let kept = λ (key : String) (n₀ : str_eq "subject_ref_origin" key ≡ false).
        common-get identity a.context stamp "admission" "tool_call_admission" key q n₀ in
      let c0 : get e "receipt_version" ≡ some (str "srs.core.v5.1") =
        rw same (simp (get-put, get-put_text) (kept "receipt_version" refl refl refl refl refl)) in
      let c1 : get e "profile_id" ≡ some (str "srs.mcp.sdk_enforcement") =
        rw same (simp (get-put, get-put_text) (kept "profile_id" refl refl refl refl refl)) in
      let c2 : get e "profile_version" ≡ some (str "v0.1") =
        rw same (simp (get-put, get-put_text) (kept "profile_version" refl refl refl refl refl)) in
      let c3 : get e "receipt_type" ≡ some (str "sdk_enforcement") =
        rw same (simp (get-put, get-put_text) (kept "receipt_type" refl refl refl refl refl)) in
      let c4 : get e "boundary_type" ≡ some (str "mcp_tool_call") =
        rw same (simp (get-put, get-put_text) (kept "boundary_type" refl refl refl refl refl)) in
      let c5 : get e "protocol_binding" ≡ some (str "mcp") =
        rw same (simp (get-put, get-put_text) (kept "protocol_binding" refl refl refl refl refl)) in
      (
        has_all-Extends base_keys _ e
            (subst
              (Extends (common_fields identity a.context stamp "admission" "tool_call_admission"))
              (ok-injective h₂)
              (put-Extends "attestation_limits" (list limits) (
                put_text-Extends "reason_code" a.reason_code (
                  put_text-Extends "retry_contract" a.retry_contract (
                    put_text-Extends "review_object_ref" a.review_object_ref (
                      put-Extends "disposition" (str a.disposition) (
                        put-Extends "policy_pack_version" (str a.context.policy_pack_version) (
                          put-Extends "policy_pack_id" (str a.context.policy_pack_id) (
                            put-Extends "argument_digest" (str a.argument_digest) (
                              put-Extends "tool_resolution_status" (str "not_observed") (
                                put-Extends "requested_tool_name" (str a.requested_tool_name)
                                  (common-Extends identity a.context stamp _ _ q))))))))))))
            (common_fields-base_keys identity a.context stamp _ _),
        has_all-cons "requested_tool_name" _ e (str a.requested_tool_name)
            (rw same (simp (get-put, get-put_text)))
            (has_all-cons "tool_resolution_status" _ e (str "not_observed")
              (rw same (simp (get-put, get-put_text)))
              (has_all-cons "argument_digest" _ e (str a.argument_digest)
                (rw same (simp (get-put, get-put_text)))
                (has_all-cons "policy_pack_id" _ e (str a.context.policy_pack_id)
                  (rw same (simp (get-put, get-put_text)))
                  (has_all-cons "policy_pack_version" _ e (str a.context.policy_pack_version)
                    (rw same (simp (get-put, get-put_text)))
                    (has_all-cons "disposition" _ e (str a.disposition)
                      (rw same (simp (get-put, get-put_text))) (has_nothing e)))))),
        rw (c0, c1, c2, c3, c4, c5) refl,
        rw same (simp (get-put, get-put_text) (kept "issuer_id" refl refl refl refl refl)),
        rw same (simp (get-put, get-put_text) (kept "issued_at" refl refl refl refl refl)),
      )
