-- ===== src/Deferred/Binding.antt =====
-- Every execution of a run of the boundary of dagr_mcp/deferred_boundary.py is of the tool, and of
-- arguments with the digest, that were bound when the call was deferred.
use dagr_mcp.Prelude.{
  String, ◌≡◌, sym, ◌∙◌, inl, inr, true, Bool-cases, Option-cases, Result-cases, Option, none, some,
  List, [], ◌∷◌, ◌++◌, arith, str_eq, eq_iff, ap, subst,
}
use dagr_mcp.Python.{Value, mapping}
use dagr_mcp.Deferred.{DeferredSlot, Call, Surroundings, Boundary, Effects}
use dagr_mcp.Deferred.Slots.{lookup, insert, lookup-insert}
use dagr_mcp.Deferred.Defer.{DeferCall, defer_call}
use dagr_mcp.Deferred.Resume.{ResumeCall, resume_call, resume_locked}
use dagr_mcp.Deferred.Deferral.{calls-defer_call, slots-defer_call, slots-defer_call_raised}
use dagr_mcp.Deferred.Frame.{SameBinding, resume_locked-SameBinding}
use dagr_mcp.Deferred.Gate.{permits, presents, the_call, resume_locked-calls}
use dagr_mcp.Deferred.Once.{
  AllAgree-Reachable, resume_call-none, resume_call-some, Agrees, completed,
}
use dagr_mcp.Deferred.Run.{Reachable, start, deferral, resumption, after}

-- The slot fits a call: it is of this tool, and of these arguments by their digest.
abbrev pub Fits : Surroundings → Call → Option DeferredSlot → Type 0
Fits env call none = ⊥
Fits env call (some slot) =
    (env.payload_digest call.arguments ≡ slot.argument_digest) × (call.tool_name ≡ slot.tool_name)

abbrev pub AllFit : Surroundings → List (String × DeferredSlot) → List Call → Type 0
AllFit env slots [] = Unit
AllFit env slots (call ∷ calls) =
    Fits env call (lookup call.correlation_ref slots) × AllFit env slots calls

module _ (env : Surroundings) where
  AllFit-append :
      (slots : List (String × DeferredSlot)) (xs ys : List Call)
      → AllFit env slots xs
      → AllFit env slots ys
      → AllFit env slots (xs ++ ys)
  AllFit-append slots [] ys h k = k
  AllFit-append slots (x ∷ xs) ys h k = (h.0, AllFit-append slots xs ys h.1 k)

  -- A store whose slots still fit what they fitted.
  AllFit-mono :
      (slots more : List (String × DeferredSlot)) (calls : List Call)
      → ((call : Call)
          → Fits env call (lookup call.correlation_ref slots)
          → Fits env call (lookup call.correlation_ref more))
      → AllFit env slots calls
      → AllFit env more calls
  AllFit-mono slots more [] keep h = tt
  AllFit-mono slots more (call ∷ calls) keep h =
      (keep call h.0, AllFit-mono slots more calls keep h.1)

  Fits-SameBinding :
      (call : Call) {s t : DeferredSlot}
      → SameBinding s t
      → Fits env call (some s)
      → Fits env call (some t)
  Fits-SameBinding call same h = (h.0 ∙ sym same.argument_digest, h.1 ∙ sym same.tool_name)

module _ (env : Surroundings) (key : String) (slots : List (String × DeferredSlot))
    (t : DeferredSlot) where
  -- What fitted the slot of the key, at a call for that key.
  Fits-at :
      {o : Option DeferredSlot}
      → lookup key slots ≡ o
      → (call : Call) → str_eq key call.correlation_ref ≡ true
      → Fits env call (lookup call.correlation_ref slots)
      → Fits env call o
  Fits-at e call p h =
      subst (Fits env call)
        (ap (λ x. lookup x slots) (sym ((eq_iff key call.correlation_ref).0 p)) ∙ e) h

  -- Replacing a slot by one of the same binding.
  Fits-insert :
      (s : DeferredSlot)
      → lookup key slots ≡ some s
      → SameBinding s t
      → (call : Call) → Fits env call (lookup call.correlation_ref slots)
      → Fits env call (lookup call.correlation_ref (insert key t slots))
  Fits-insert s e same call h =
      rw lookup-insert (elim (Bool-cases (str_eq key call.correlation_ref)) [
        | inl p ↦ rw p (Fits-SameBinding env call same (Fits-at e call p h))
        | inr p ↦ rw p h
      ])

  -- A slot under a key that was not in use.
  Fits-insert_fresh :
      lookup key slots ≡ none
      → (call : Call) → Fits env call (lookup call.correlation_ref slots)
      → Fits env call (lookup call.correlation_ref (insert key t slots))
  Fits-insert_fresh e call h =
      rw lookup-insert (elim (Bool-cases (str_eq key call.correlation_ref)) [
        | inl p ↦ absurd (Fits-at e call p h)
        | inr p ↦ rw p h
      ])

-- The call that a permitted resume makes fits the slot.
AllFit-the_call :
    (env : Surroundings) (c : ResumeCall) (slot t : DeferredSlot) (fx : Effects)
    (slots : List (String × DeferredSlot))
    → permits env c slot ≡ true
    → lookup slot.correlation_ref slots ≡ some t
    → SameBinding slot t
    → AllFit env slots (the_call env slot c.arguments fx)
AllFit-the_call env c slot t fx slots h e same = go c.arguments (ground arith)
  where
    go :
        (v : Value)
        → presents env v slot.argument_digest ≡ true
        → AllFit env slots (the_call env slot v fx)
    go (mapping arguments) p = (rw e (ground arith, sym same.tool_name), tt)
    go _ p = tt

module _ (env : Surroundings) (c : ResumeCall) (key : String) (b : Boundary) where
  AllFit-resumed :
      (slot : DeferredSlot)
      → lookup key b.slots ≡ some slot
      → slot.correlation_ref ≡ key
      → AllFit env b.slots b.effects.calls
      → let s = resume_locked env c slot b.effects in
        AllFit env (insert key s.slot b.slots) s.effects.calls
  AllFit-resumed slot e k all =
      let s = resume_locked env c slot b.effects in
      let same = resume_locked-SameBinding env c slot b.effects in
      let kept =
        AllFit-mono env b.slots (insert key s.slot b.slots) b.effects.calls
          (Fits-insert env key b.slots s.slot slot e same) all in
      let found : lookup slot.correlation_ref (insert key s.slot b.slots) ≡ some s.slot =
        rw (lookup-insert, (eq_iff key slot.correlation_ref).1 (sym k)) in
      rw (resume_locked-calls env c slot b.effects) (elim (Bool-cases (permits env c slot)) [
        | inl p ↦ rw p (
            AllFit-append env (insert key s.slot b.slots) b.effects.calls
              (the_call env slot c.arguments b.effects) kept
              (AllFit-the_call env c slot s.slot b.effects (insert key s.slot b.slots) p found
                same))
        | inr p ↦ rw p kept
      ])

  AllFit-resume_call :
      Agrees key (lookup key b.slots) (completed key b.effects.calls)
      → AllFit env b.slots b.effects.calls
      → AllFit env (resume_call env c key b).0.slots (resume_call env c key b).0.effects.calls
  AllFit-resume_call agrees all = elim (Option-cases (lookup key b.slots)) [
    | inl e ↦ rw (resume_call-none env c key b e) all
    | inr (slot, e) ↦
        let h : Agrees key (some slot) (completed key b.effects.calls) = rw e at agrees in
        rw (resume_call-some env c key b slot e) (AllFit-resumed slot e h.0 all)
  ]

AllFit-defer_call :
    (env : Surroundings) (c : DeferCall) (b : Boundary)
    → lookup c.fresh b.slots ≡ none
    → AllFit env b.slots b.effects.calls
    → AllFit env (defer_call env c b).0.slots (defer_call env c b).0.effects.calls
AllFit-defer_call env c b fresh all = elim (Result-cases (defer_call env c b).1) [
  | inr (e, p) ↦ rw (slots-defer_call_raised env c b p, calls-defer_call env c b) all
  | inl (r, p) ↦
      rw ((slots-defer_call env c b p).0, calls-defer_call env c b)
        (AllFit-mono env b.slots _ b.effects.calls (Fits-insert_fresh env c.fresh b.slots _ fresh)
          all)
]

-- In every run, each call that the inner handler was given is for a slot of the store, is of the
-- tool that the slot was deferred with, and has arguments with the digest that was bound then.
pub AllFit-Reachable :
    {env : Surroundings} {b : Boundary} → Reachable env b → AllFit env b.slots b.effects.calls
unfolding after
AllFit-Reachable start = tt
AllFit-Reachable {env} (deferral {b} c run fresh) =
    AllFit-defer_call env c b fresh (AllFit-Reachable run)
AllFit-Reachable {env} (resumption {b} key c run) =
    AllFit-resume_call env c key b (AllAgree-Reachable run key) (AllFit-Reachable run)
