-- ===== src/Access/Composed.antt =====
-- What a composition of `compose_receipts` of dagr_mcp_service/access.py shows.
use dagr_mcp.Prelude.{
  String, Bool, true, false, ◌||◌, ◌≡◌, refl, sym, ap, ◌∙◌, subst, arith, Option, none, some, List,
  [], ◌∷◌, Result, ok, raised, >>=-ok, ok-injective, Bool-cases, inl, inr, ◌≢◌,
}
use dagr_mcp.Python.Text.{is_blank}
use mathlib.Core.List.{Memᴰ}
use dagr_mcp.Access.Sound.{HasPassed, resolve_receipt-verified}
use dagr_mcp.Access.Chosen.{branch_true, branch_false, kind_of, of_kind-Mem}
use dagr_mcp.Access.Fits.{Fits, belong-Fits}
use dagr_mcp.Access.{ReceiptKind, admission, outcome}
use dagr_mcp.Access.{
  ReceiptHandle, AccessError, ReceiptAccessContext, ReceiptAccessConfig, Libraries, VerifiedReceipt,
  ReceiptAccessResult, ReceiptComposition,
}
use dagr_mcp.Access.Resolve.{resolve_receipt, associated}
use dagr_mcp.Access.Compose.{
  of_kind, is_ambiguous, Part, absent, present, failed, part_of, resolve_part, belong, receipt_of,
  join, is_failed, compose_parts, compose_receipts,
}

some-none : {A : Type 0} {a : A} → some a ≢ none
some-none h = cc

raised-ok :
    {A : Type 0} {e : AccessError} {a : A} → ◌≢◌ {A = Result AccessError A} (raised e) (ok a)
raised-ok h = cc

module _ (lib : Libraries) where
  join-composed :
      (call : String) (parent : Option String) (a o : Part)
      → (join lib call parent a o).diagnostic_code ≡ none
      → ((join lib call parent a o).admission ≡ receipt_of lib a)
        × ((join lib call parent a o).outcome ≡ receipt_of lib o)
        × (belong lib call parent (receipt_of lib a) (receipt_of lib o) ≡ true)
        × (is_failed lib a ≡ false)
  unfolding join
  join-composed call parent (failed code) o h = absurd (ground arith)
  join-composed call parent absent (failed code) h = absurd (ground arith)
  join-composed call parent (present a) (failed code) h = absurd (ground arith)
  join-composed call parent absent absent h = (refl, refl, refl, refl)
  join-composed call parent absent (present o) h = absurd (ground arith)
  join-composed call parent (present a) absent h =
      elim (Bool-cases (belong lib call parent (some a) none)) [
        | inl p ↦ (rw p refl, rw p refl, p, refl)
        | inr p ↦ absurd (ground arith)
      ]
  join-composed call parent (present a) (present o) h =
      elim (Bool-cases (belong lib call parent (some a) (some o))) [
        | inl p ↦ (rw p refl, rw p refl, p, refl)
        | inr p ↦ absurd (ground arith)
      ]

  -- The receipt is one that `resolve_receipt` verified for one of the handles, of the given kind; so
  -- it has passed every check of that handle, and belongs to the context.
  abbrev pub Resolved :
      ReceiptAccessConfig
      → ReceiptAccessContext
      → List ReceiptHandle
      → ReceiptKind
      → Option VerifiedReceipt
      → Type 0
  Resolved config context handles kind none = Unit
  Resolved config context handles kind (some v) =
      Memᴰ v.handle handles
      × (v.handle.receipt_kind ≡ kind)
      × HasPassed lib config.trust_bundle v.handle v.envelope
      × (associated lib context v.envelope ≡ true)

  module _ (config : ReceiptAccessConfig) (context : ReceiptAccessContext) where
    part_of-Resolved :
        (handles : List ReceiptHandle) (kind : ReceiptKind) (handle : ReceiptHandle)
        (r : ReceiptAccessResult)
        → Memᴰ handle handles
        → handle.receipt_kind ≡ kind
        → resolve_receipt lib config context handle ≡ ok r
        → (o : Option VerifiedReceipt) → receipt_of lib (part_of r) ≡ o
        → Resolved config context handles kind o
    part_of-Resolved handles kind handle r m k h none e = tt
    part_of-Resolved handles kind handle r m k h (some v) e =
        let verified : r.verified ≡ some v = ground arith in
        let (same, parsed, passed, fits) =
          resolve_receipt-verified lib config context handle h verified in
        (
          subst (λ x. Memᴰ x handles) (sym same) m,
          ap (λ x. x.receipt_kind) same ∙ k,
          subst (λ x. HasPassed lib config.trust_bundle x v.envelope) (sym same) passed,
          fits,
        )

    resolve_part-Resolved :
        (admitted : Bool) (handles chosen : List ReceiptHandle) (p : Part)
        → of_kind admitted handles ≡ chosen
        → resolve_part lib config context chosen ≡ ok p
        → Resolved config context handles (kind_of admitted) (receipt_of lib p)
    unfolding resolve_part
    resolve_part-Resolved admitted handles [] p e h =
        subst (λ q. Resolved config context handles (kind_of admitted) (receipt_of lib q))
          (ok-injective h) tt
    resolve_part-Resolved admitted handles (handle ∷ rest) p e h =
        let (r, f, k) = >>=-ok (resolve_receipt lib config context handle) _ h in
        let (m, kind) = of_kind-Mem admitted handles e in
        part_of-Resolved handles (kind_of admitted) handle r m kind f _
          (ap (receipt_of lib) (ok-injective k))

    module _ (handles : List ReceiptHandle) where
      Joined : String → Option String → ReceiptComposition → Type 0
      Joined call parent c =
          c.diagnostic_code ≡ none
          → Fits lib call parent c.admission c.outcome
            × Resolved config context handles admission c.admission
            × Resolved config context handles outcome c.outcome

      join-Joined :
          (call : String) (parent : Option String) (a o : Part) (c : ReceiptComposition)
          → Resolved config context handles admission (receipt_of lib a)
          → Resolved config context handles outcome (receipt_of lib o)
          → join lib call parent a o ≡ c
          → Joined call parent c
      unfolding Joined
      join-Joined call parent a o c ra ro h none_wrong =
          let (fst, snd, ok_both, unfailed) =
            join-composed call parent a o (ap (λ x. x.diagnostic_code) h ∙ none_wrong) in
          let ea = sym (ap (λ x. x.admission) h) ∙ fst in
          let eo = sym (ap (λ x. x.outcome) h) ∙ snd in
          (
            belong-Fits lib call parent c.admission c.outcome (
                ap (λ x. belong lib call parent x c.outcome) ea
                ∙ ap (λ x. belong lib call parent (receipt_of lib a) x) eo
                ∙ ok_both),
            subst (Resolved config context handles admission) (sym ea) ra,
            subst (Resolved config context handles outcome) (sym eo) ro,
          )

      compose_parts-Joined :
          (call : String) (parent : Option String) (c : ReceiptComposition)
          → compose_parts lib config context
              (of_kind true handles)
              (of_kind false handles)
              call
              parent
            ≡ ok c
          → Joined call parent c
      unfolding compose_parts
      compose_parts-Joined call parent c h =
          let (a, e, k) = >>=-ok (resolve_part lib config context (of_kind true handles)) _ h in
          let ra = resolve_part-Resolved true handles _ a refl e in
          elim (Bool-cases (is_failed lib a)) [
            | inl p ↦
                join-Joined call parent a absent c ra tt (ok-injective (branch_true _ _ _ p k))
            | inr p ↦
                let (o, f, m) =
                  >>=-ok (resolve_part lib config context (of_kind false handles)) _
                    (branch_false _ _ _ p k) in
                join-Joined call parent a o c ra (resolve_part-Resolved false handles _ o refl f)
                  (ok-injective m)
          ]

      -- A composition without a diagnostic code holds receipts that were verified for handles of the
      -- list: the admission for a handle of an admission, the outcome for one of an outcome, each
      -- having passed every check of its handle. And they belong together: an outcome never stands
      -- without its admission; each is of the expected call; the admission names the expected parent,
      -- where one is expected; and the outcome refers to the admission's id and agrees with it on the
      -- runtime, the boundary, the actor and the tenant.
      pub compose_receipts-composed :
          (call : String) (parent : Option String) {c : ReceiptComposition}
          → compose_receipts lib config context handles call parent ≡ ok c
          → c.diagnostic_code ≡ none
          → Fits lib call parent c.admission c.outcome
            × Resolved config context handles admission c.admission
            × Resolved config context handles outcome c.outcome
      unfolding compose_receipts Joined
      compose_receipts-composed call parent {c} h n = elim (Bool-cases (is_blank call)) [
        | inl p ↦ absurd (raised-ok (branch_true (is_blank call) _ _ p h))
        | inr p ↦
            elim (Bool-cases
              (is_ambiguous (of_kind true handles) || is_ambiguous (of_kind false handles))) [
                | inl q ↦ absurd (
                    some-none (
                      ap (λ x. x.diagnostic_code)
                        (ok-injective (branch_true _ _ _ q (branch_false (is_blank call) _ _ p h)))
                      ∙ n))
                | inr q ↦
                    compose_parts-Joined call parent c
                      (branch_false _ _ _ q (branch_false (is_blank call) _ _ p h)) n
              ]
      ]
