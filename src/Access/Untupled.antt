-- ===== src/Access/Untupled.antt =====
-- That the envelope of `emit_admission` of srs_receipts.py holds no tuple.
use dagr_mcp.Prelude.{
  String, ◌≡◌, refl, sym, ap, ◌∙◌, subst, Bool, true, false, Option, none, some, Result, ok, raised,
  >>=-ok, raise_if-ok, ok-injective, arith, str_eq, Bool-cases, inl, inr, if◌then◌else◌,
}
use dagr_mcp.Python.{Value, str, list, Items, nil, cons, Fields, end, field}
use dagr_mcp.Python.Dict.{put, put_text}
use dagr_mcp.Python.Text.{is_blank}
use dagr_mcp.Receipts.{
  ReceiptError, empty_limit, unregistered_binding_version, origin_outside_vocabulary,
  ReceiptContext, SigningIdentity, base_limit,
}
use dagr_mcp.Receipts.Envelope.{
  Stamp, common, common_fields, put_origin, Additions, single_text, sequence, mem_limit,
  append_limit, append_limits, append_attestation_limits,
}
use dagr_mcp.Receipts.Emitter.{AdmissionArguments, admission_envelope}
use dagr_mcp.Access.Reread.{has_no_tuple, has_no_tuple_field, has_no_tuple_item, and_parts}

abbrev pub Untupled : Fields → Type 0
Untupled d = has_no_tuple_field d ≡ true

pub put-Untupled :
    (d : Fields) (k : String) (v : Value)
    → has_no_tuple v ≡ true
    → Untupled d
    → Untupled (put d k v)
unfolding put
put-Untupled end k v n h = rw n
put-Untupled (field j w rest) k v n h =
    let (a, b) = and_parts (has_no_tuple w) (has_no_tuple_field rest) h in
    elim (Bool-cases (str_eq j k)) [
      | inl p ↦ rw (p, n) b
      | inr p ↦ rw (p, a) (put-Untupled rest k v n b)
    ]

put_text-Untupled :
    (d : Fields) (k : String) (o : Option String) → Untupled d → Untupled (put_text d k o)
put_text-Untupled d k none h = h
put_text-Untupled d k (some s) h = elim (Bool-cases (str_eq s "")) [
  | inl p ↦ rw p h
  | inr p ↦ rw p (put-Untupled d k (str s) refl h)
]

put_origin-Untupled : (d : Fields) (o : Option String) → Untupled d → Untupled (put_origin d o)
put_origin-Untupled d none h = h
put_origin-Untupled d (some s) h = put-Untupled d "subject_ref_origin" (str s) refl h

append_limit-Untupled :
    (limits : Items) (s : String)
    → has_no_tuple_item limits ≡ true
    → has_no_tuple_item (append_limit limits s) ≡ true
append_limit-Untupled nil s h = refl
append_limit-Untupled (cons v rest) s h = ground (arith, append_limit-Untupled rest s)

branch-Untupled :
    (b : Bool) (limits : Items) (s : String)
    → has_no_tuple_item limits ≡ true
    → has_no_tuple_item (if b then limits else append_limit limits s) ≡ true
branch-Untupled true limits s h = h
branch-Untupled false limits s h = append_limit-Untupled limits s h

not_raised :
    {A : Type 0} (b : Bool) (e : ReceiptError) (m : Result ReceiptError A) {r : A}
    → (if b then raised e else m) ≡ ok r
    → m ≡ ok r
not_raised true e m h = cc
not_raised false e m h = h

append_limits-Untupled :
    (additions limits : Items) {r : Items}
    → append_limits limits additions ≡ ok r
    → has_no_tuple_item limits ≡ true
    → has_no_tuple_item r ≡ true
unfolding append_limits
append_limits-Untupled nil limits h n = ap has_no_tuple_item (sym (ok-injective h)) ∙ n
append_limits-Untupled (cons (str s) rest) limits h n =
    append_limits-Untupled rest (if mem_limit s limits then limits else append_limit limits s)
      (not_raised (is_blank s) empty_limit _ h) (branch-Untupled (mem_limit s limits) limits s n)
append_limits-Untupled (cons v rest) limits h n = absurd cc

append_attestation_limits-Untupled :
    (limits : Items) (additions : Additions) {r : Items}
    → append_attestation_limits limits additions ≡ ok r
    → has_no_tuple_item limits ≡ true
    → has_no_tuple_item r ≡ true
unfolding append_attestation_limits
append_attestation_limits-Untupled limits single_text h n = absurd cc
append_attestation_limits-Untupled limits (sequence additions) h n =
    append_limits-Untupled additions limits h n

common_fields-Untupled :
    (identity : SigningIdentity) (context : ReceiptContext) (stamp : Stamp) (kind class : String)
    → Untupled (common_fields identity context stamp kind class)
unfolding common_fields
common_fields-Untupled identity context stamp kind class = refl

common-Untupled :
    (identity : SigningIdentity) (context : ReceiptContext) (stamp : Stamp) (kind class : String)
    {e : Fields}
    → common identity context stamp kind class ≡ ok e
    → Untupled e
unfolding common
common-Untupled identity context stamp kind class h =
    let (registered, h₁) = raise_if-ok _ unregistered_binding_version _ h in
    let (known, h₂) = raise_if-ok _ origin_outside_vocabulary _ h₁ in
    subst Untupled (ok-injective h₂) (
      put_text-Untupled _ _ context.parent_receipt_ref (
        put_text-Untupled _ _ context.workspace_id (
          put_text-Untupled _ _ context.tenant_id (
            put_text-Untupled _ _ context.actor_ref (
              put_origin-Untupled _ context.subject_ref_origin
                (common_fields-Untupled identity context stamp kind class))))))

pub admission_envelope-Untupled :
    (identity : SigningIdentity) (stamp : Stamp) (a : AdmissionArguments) {e : Fields}
    → admission_envelope identity stamp a ≡ ok e
    → Untupled e
unfolding admission_envelope
admission_envelope-Untupled identity stamp a h =
    let (e₀, q, h₁) =
      >>=-ok (common identity a.context stamp "admission" "tool_call_admission") _ h in
    let (limits, l, h₂) =
      >>=-ok (append_attestation_limits (cons (str base_limit) nil) a.additional_attestation_limits)
        _ h₁ in
    subst Untupled (ok-injective h₂) (
      put-Untupled _ "attestation_limits" (list limits)
        (append_attestation_limits-Untupled _ a.additional_attestation_limits l refl)
        (put_text-Untupled _ _ a.reason_code (
          put_text-Untupled _ _ a.retry_contract (
            put_text-Untupled _ _ a.review_object_ref (
              put-Untupled _ _ (str a.disposition) refl (
                put-Untupled _ _ (str a.context.policy_pack_version) refl (
                  put-Untupled _ _ (str a.context.policy_pack_id) refl (
                    put-Untupled _ _ (str a.argument_digest) refl (
                      put-Untupled _ _ (str "not_observed") refl (
                        put-Untupled _ _ (str a.requested_tool_name) refl
                          (common-Untupled identity a.context stamp _ _ q)))))))))))
