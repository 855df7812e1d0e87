-- ===== src/Access/Sound.antt =====
-- What a receipt that `resolve_receipt` of dagr_mcp_service/access.py verified has passed.
use dagr_mcp.Prelude.{
  ℕ, Bool, true, false, not, ◌||◌, ◌≡◌, refl, sym, ap, ◌∙◌, subst, arith, Option, none, some, List,
  Result, ok, raised, ◌>>=◌, >>=-ok, ok-injective, is_ok, Result-cases, Option-cases, Bool-cases,
  inl, inr,
}
use dagr_mcp.Python.{Value, mapping, Fields}
use dagr_mcp.Python.Dict.{get}
use dagr_mcp.Receipts.Content.{enforce}
use dagr_mcp.Access.{
  ReceiptHandle, DiagnosticCode, AccessError, ReceiptAccessContext, ReceiptAccessConfig, Libraries,
  VerifiedReceipt, ReceiptAccessResult, FetchError,
}
use dagr_mcp.Access.{signature_failure, schema_failure, access_unauthorized}
use dagr_mcp.Prelude.{if◌then◌else◌, ◌≢◌}
use dagr_mcp.Access.Schema.{is_text, envelope_schema_error}
use dagr_mcp.Access.Signature.{signature_valid}
use dagr_mcp.Access.Resolve.{
  kind_text, Verdict, accepted, refused, match_handle, parsed_mapping, verify_envelope,
  verify_and_parse_envelope, associated, conclude, fetch_failed, lacks, refuse, resolve_receipt,
}

match_handle-accepted :
    (envelope : Fields) (handle : ReceiptHandle) {found : Fields}
    → match_handle envelope handle ≡ accepted found
    → (envelope ≡ found)
      × (is_text (get envelope "receipt_id") handle.receipt_id ≡ true)
      × (is_text (get envelope "receipt_kind") (kind_text handle.receipt_kind) ≡ true)
unfolding match_handle
match_handle-accepted envelope handle h = (ground arith, ground arith, ground arith)

is_ok-tt : {E : Type 0} (r : Result E (Unit {0})) → is_ok r ≡ true → r ≡ ok tt
is_ok-tt (ok tt) h = refl
is_ok-tt (raised e) h = cc

parsed_mapping-some :
    (o : Option Value) {e : Fields} → parsed_mapping o ≡ some e → o ≡ some (mapping e)
parsed_mapping-some o h = ground arith

some-none : {A : Type 0} {a : A} → some a ≢ none
some-none h = cc

both_passed :
    (wrong clean : Bool) (c : DiagnosticCode) (m : Result AccessError Verdict) {found : Fields}
    → (if wrong || not clean then ok (refused c) else m) ≡ ok (accepted found)
    → (wrong ≡ false) × (clean ≡ true) × (m ≡ ok (accepted found))
both_passed true clean c m h = cc
both_passed false true c m h = (refl, refl, h)
both_passed false false c m h = cc

signature_passed :
    (valid : Bool) (v : Verdict) (c : DiagnosticCode) {found : Fields}
    → ◌≡◌ {A = Result AccessError Verdict}
        (ok (if valid then v else refused c))
        (ok (accepted found))
    → (valid ≡ true) × (v ≡ accepted found)
signature_passed true v c h = (refl, ok-injective h)
signature_passed false v c h = cc

-- What an envelope has passed: the schema, the exclusion of raw content, the signature under a
-- trusted key, and the handle's id and kind.
abbrev pub HasPassed : Libraries → Value → ReceiptHandle → Fields → Type 0
HasPassed lib trust_bundle handle envelope =
    (envelope_schema_error envelope ≡ ok false)
    × (enforce (mapping envelope) ≡ ok tt)
    × (signature_valid lib envelope trust_bundle ≡ ok true)
    × (is_text (get envelope "receipt_id") handle.receipt_id ≡ true)
    × (is_text (get envelope "receipt_kind") (kind_text handle.receipt_kind) ≡ true)

module _ (lib : Libraries) where
  verify_envelope-accepted :
      (envelope : Fields) (handle : ReceiptHandle) (trust_bundle : Value) {found : Fields}
      → verify_envelope lib envelope handle trust_bundle ≡ ok (accepted found)
      → (envelope ≡ found) × HasPassed lib trust_bundle handle envelope
  unfolding verify_envelope
  verify_envelope-accepted envelope handle trust_bundle {found} h =
      let (wrong, e, k) = >>=-ok (envelope_schema_error envelope) _ h in
      let (right, clean, rest) =
        both_passed wrong (is_ok (enforce (mapping envelope))) schema_failure _ k in
      let (valid, s, m) = >>=-ok (signature_valid lib envelope trust_bundle) _ rest in
      let (passed, matched) =
        signature_passed valid (match_handle envelope handle) signature_failure m in
      let (same, id, kind) = match_handle-accepted envelope handle matched in
      (same, (e ∙ ap ok right, is_ok-tt _ clean, s ∙ ap ok passed, id, kind))

  verify_and_parse_envelope-accepted :
      (raw : List ℕ) (handle : ReceiptHandle) (trust_bundle : Value) {found : Fields}
      → verify_and_parse_envelope lib raw handle trust_bundle ≡ ok (accepted found)
      → (lib.loads raw ≡ some (mapping found)) × HasPassed lib trust_bundle handle found
  unfolding verify_and_parse_envelope
  verify_and_parse_envelope-accepted raw handle trust_bundle {found} h =
      elim (Option-cases (parsed_mapping (lib.loads raw))) [
        | inl e ↦ absurd (ground arith)
        | inr (envelope, e) ↦
            let k : verify_envelope lib envelope handle trust_bundle ≡ ok (accepted found) =
              ground arith in
            let (same, passed) = verify_envelope-accepted envelope handle trust_bundle k in
            (
              parsed_mapping-some _ e ∙ ap (λ x. some (mapping x)) same,
              subst (HasPassed lib trust_bundle handle) same passed,
            )
      ]

  conclude-verified :
      (handle : ReceiptHandle) (context : ReceiptAccessContext) (verdict : Verdict)
      {v : VerifiedReceipt}
      → (conclude lib handle context verdict).verified ≡ some v
      → (verdict ≡ accepted v.envelope)
        × (v.handle ≡ handle)
        × (associated lib context v.envelope ≡ true)
  unfolding conclude
  conclude-verified handle context (refused code) h = cc
  conclude-verified handle context (accepted envelope) h =
      elim (Bool-cases (associated lib context envelope)) [
        | inl p ↦ (ground arith, ground arith, ground arith)
        | inr p ↦ absurd (ground arith)
      ]

  fetch_failed-verified :
      (handle : ReceiptHandle) (e : FetchError) {r : ReceiptAccessResult}
      → fetch_failed lib handle e ≡ ok r
      → r.verified ≡ none
  unfolding fetch_failed
  fetch_failed-verified handle e h = ground arith

  authorized :
      (barred : Bool) (handle : ReceiptHandle) (m : Result AccessError ReceiptAccessResult)
      {r : ReceiptAccessResult} {v : VerifiedReceipt}
      → (if barred then ok (refuse lib handle access_unauthorized) else m) ≡ ok r
      → r.verified ≡ some v
      → m ≡ ok r
  authorized true handle m h k = absurd (ground arith)
  authorized false handle m h k = h

  module _ (config : ReceiptAccessConfig) (context : ReceiptAccessContext)
      (handle : ReceiptHandle) where
    fetched : Result FetchError (List ℕ) → Result AccessError ReceiptAccessResult
    fetched answer = elim answer [
      | raised e ↦ fetch_failed lib handle e
      | ok raw ↦ verify_and_parse_envelope lib raw handle config.trust_bundle >>= λ verdict.
          ok (conclude lib handle context verdict)
    ]

    resolve_receipt-fetched :
        {r : ReceiptAccessResult} {v : VerifiedReceipt}
        → resolve_receipt lib config context handle ≡ ok r
        → r.verified ≡ some v
        → fetched (config.provider handle context) ≡ ok r
    unfolding resolve_receipt fetched
    resolve_receipt-fetched h k =
        authorized
          (lacks lib config.require_actor_context context.actor_ref
            || lacks lib config.require_tenant_context context.tenant_ref)
          handle _ h k

    -- A receipt that is verified is for the handle that was asked for. Its envelope is the mapping that
    -- the provider's bytes parse to, unchanged; it passes the schema check and the exclusion of raw
    -- content, is signed under the one trusted key of its id, within that key's time; its id and kind
    -- are the handle's; and it names no other actor, tenant or call than the context does.
    pub resolve_receipt-verified :
        {r : ReceiptAccessResult} {v : VerifiedReceipt}
        → resolve_receipt lib config context handle ≡ ok r
        → r.verified ≡ some v
        → (v.handle ≡ handle)
          × ((raw : List ℕ) × (config.provider handle context ≡ ok raw)
              × (lib.loads raw ≡ some (mapping v.envelope)))
          × HasPassed lib config.trust_bundle handle v.envelope
          × (associated lib context v.envelope ≡ true)
    unfolding fetched
    resolve_receipt-verified {r} {v} h k = elim (Result-cases (config.provider handle context)) [
      | inr (e, p) ↦ absurd (
          some-none (
            sym k
            ∙ fetch_failed-verified handle e (sym (ap fetched p) ∙ resolve_receipt-fetched h k)))
      | inl (raw, p) ↦
          let j : (verify_and_parse_envelope lib raw handle config.trust_bundle >>= λ verdict.
          ok (conclude lib handle context verdict))
              ≡ ok r =
            sym (ap fetched p) ∙ resolve_receipt-fetched h k in
          let (verdict, q, concluded) =
            >>=-ok (verify_and_parse_envelope lib raw handle config.trust_bundle) _ j in
          let (accepted_it, same, fits) =
            conclude-verified handle context verdict
              (ap (λ x. x.verified) (ok-injective concluded) ∙ k) in
          let (parsed, passed) =
            verify_and_parse_envelope-accepted raw handle config.trust_bundle
              (q ∙ ap ok accepted_it) in
          (same, (raw, p, parsed), passed, fits)
    ]
