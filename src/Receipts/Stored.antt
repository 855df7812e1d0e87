-- ===== src/Receipts/Stored.antt =====
-- What an emission of srs_receipts.py leaves in the sink's directory.
use dagr_mcp.Prelude.{
  ℕ, String, ◌≡◌, refl, sym, ap, ◌∙◌, true, Option, some, List, [], ◌∷◌, Result, ok, raised, ◌>>=◌,
  ◌>>◌, >>-ok, >>=-ok, ok-injective, Result-cases, arith, Bool-cases, inl, inr,
}
use dagr_mcp.Python.{str, mapping, Fields}
use dagr_mcp.Python.Dict.{get, put, get-put}
use dagr_mcp.Python.Text.{eq_codes}
use dagr_mcp.Receipts.{ReceiptError, SigningIdentity}
use dagr_mcp.Receipts.Content.{enforce}
use dagr_mcp.Receipts.Sink.{file_name, Files, store, load, Disk, receipt_id_of, save, write}
use dagr_mcp.Receipts.Signing.{signed_block, or_not_canonicalizable, preimage, sign_envelope}
use dagr_mcp.Receipts.Emitter.{Emitter, seal}

eq_codes_refl : (s : List ℕ) → eq_codes s s ≡ true
eq_codes_refl [] = refl
eq_codes_refl (c ∷ s) = ground (arith, eq_codes_refl s)

load-store :
    (name : List ℕ) (envelope : Fields) (files : Files)
    → load name (store name envelope files) ≡ some envelope
unfolding load store
load-store name envelope [] = rw (eq_codes_refl name)
load-store name envelope ((n, e) ∷ files) = elim (Bool-cases (eq_codes n name)) [
  | inl p ↦ rw (p, p)
  | inr p ↦ rw (p, p, load-store name envelope files)
]

receipt_id_of-ok :
    (envelope : Fields) {id : String}
    → receipt_id_of envelope ≡ ok id
    → get envelope "receipt_id" ≡ some (str id)
receipt_id_of-ok envelope h = ground arith

save-ok :
    (disk : Disk) (envelope : Fields) (receipt_id : String) (files : Files) {id : String}
    → (save disk envelope receipt_id files).0 ≡ ok id
    → (receipt_id ≡ id)
      × (load (file_name id) (save disk envelope receipt_id files).1 ≡ some envelope)
unfolding save
save-ok disk envelope receipt_id files h = elim (Bool-cases (disk files (file_name receipt_id))) [
  | inl p ↦
      let same : ok receipt_id ≡ ok _ = rw p at h in
      let e : receipt_id ≡ _ = cc in
      (e, rw (p, sym e, load-store (file_name receipt_id) envelope files))
  | inr p ↦ absurd ground arith
]

-- A write that returns has stored the envelope, under the name of its receipt id.
write-ok :
    (disk : Disk) (envelope : Fields) (files : Files) {id : String}
    → (write disk envelope files).0 ≡ ok id
    → (get envelope "receipt_id" ≡ some (str id))
      × (load (file_name id) (write disk envelope files).1 ≡ some envelope)
unfolding write
write-ok disk envelope files {id} h =
    elim (Result-cases (enforce (mapping envelope) >>= λ _. receipt_id_of envelope)) [
      | inl (found, p) ↦
          let stored : (save disk envelope found files).0 ≡ ok id = rw (write, p) at h in
          let (same, loaded) = save-ok disk envelope found files stored in
          let (unit, passed, q) = >>=-ok (enforce (mapping envelope)) _ p in
          (receipt_id_of-ok envelope (q ∙ ap ok same), rw (write, p) loaded)
      | inr (e, p) ↦ absurd ground arith
    ]

write-raised :
    (disk : Disk) (envelope : Fields) (files : Files) {e : ReceiptError}
    → (write disk envelope files).0 ≡ raised e
    → (write disk envelope files).1 ≡ files
unfolding write save
write-raised disk envelope files h = ground arith

or_not_canonicalizable-ok :
    (o : Option (List ℕ)) {bytes : List ℕ} → or_not_canonicalizable o ≡ ok bytes → o ≡ some bytes
or_not_canonicalizable-ok o h = ground arith

sign_envelope-ok :
    (identity : SigningIdentity) (envelope : Fields) {signed : Fields}
    → sign_envelope identity envelope ≡ ok signed
    → (bytes : List ℕ) × (identity.canonicalize (preimage identity envelope) ≡ some bytes)
      × (signed
          ≡ put envelope "receipt_signature" (signed_block identity.key_id (identity.sign bytes)))
      × (enforce (mapping signed) ≡ ok tt)
unfolding sign_envelope
sign_envelope-ok identity envelope h =
    let (first, h₁) = >>-ok (enforce _) _ h in
    let (bytes, e, h₂) =
      >>=-ok (or_not_canonicalizable (identity.canonicalize (preimage identity envelope))) _ h₁ in
    let (second, h₃) = >>-ok (enforce _) _ h₂ in
    let same = ok-injective h₃ in
    (
      bytes,
      or_not_canonicalizable-ok _ e,
      sym same,
      ap (λ f. enforce (mapping f)) (sym same) ∙ second,
    )

module _ (emitter : Emitter) (built : Result ReceiptError Fields) (files : Files) where
  -- An emission that returns a receipt id has stored, under that id's file name, the built envelope
  -- with the signature over its preimage, and neither with raw content.
  pub seal-stored :
      {id : String}
      → (seal emitter built files).0 ≡ ok id
      → (envelope : Fields) × (bytes : List ℕ) × (built ≡ ok envelope)
        × (emitter.identity.canonicalize (preimage emitter.identity envelope) ≡ some bytes)
        × (load (file_name id) (seal emitter built files).1
            ≡ some (
                put envelope "receipt_signature"
                  (signed_block emitter.identity.key_id (emitter.identity.sign bytes))))
        × (get envelope "receipt_id" ≡ some (str id))
        × (enforce (mapping envelope) ≡ ok tt)
        × (enforce (
              mapping (
                put envelope "receipt_signature"
                  (signed_block emitter.identity.key_id (emitter.identity.sign bytes))))
            ≡ ok tt)
  unfolding seal
  seal-stored {id} h =
      elim (Result-cases (
        built >>= λ envelope.
        enforce (mapping envelope) >> sign_envelope emitter.identity envelope)) [
          | inl (signed, p) ↦
              let (envelope, e, q) = >>=-ok built _ p in
              let (passed, r) = >>-ok (enforce (mapping envelope)) _ q in
              let (bytes, canonical, same, clean) = sign_envelope-ok emitter.identity envelope r in
              let written : (write emitter.disk signed files).0 ≡ ok id = rw (seal, p) at h in
              let (found, loaded) = write-ok emitter.disk signed files written in
              (
                envelope,
                bytes,
                e,
                canonical,
                rw (seal, p) (loaded ∙ ap some same),
                sym (get-put envelope "receipt_signature" "receipt_id" _)
                    ∙ ap (λ f. get f "receipt_id") (sym same)
                    ∙ found,
                passed,
                ap (λ f. enforce (mapping f)) (sym same) ∙ clean,
              )
          | inr (e, p) ↦ absurd ground arith
        ]

  -- An emission that raises leaves the sink's directory as it was.
  pub seal-raised :
      {e : ReceiptError}
      → (seal emitter built files).0 ≡ raised e
      → (seal emitter built files).1 ≡ files
  unfolding seal
  seal-raised h =
      elim (Result-cases (
        built >>= λ envelope.
        enforce (mapping envelope) >> sign_envelope emitter.identity envelope)) [
          | inl (signed, p) ↦
              let written : (write emitter.disk signed files).0 ≡ raised _ = rw (seal, p) at h in
              rw (seal, p) (write-raised emitter.disk signed files written)
          | inr (e, p) ↦ rw (seal, p)
        ]
