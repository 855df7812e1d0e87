-- ===== src/Deferred/Once.antt =====
-- A run of the boundary of dagr_mcp/deferred_boundary.py completes at most one execution of each
-- deferred call.
use dagr_mcp.Prelude.{
  ℕ, ◌+◌, ◌≤◌, String, ◌≡◌, refl, ◌≢◌, sym, ◌∙◌, inl, inr, Bool, true, false, ◌&&◌, Option, none,
  some, List, [], ◌∷◌, ◌++◌, raised, arith, if◌then◌else◌, str_eq, eq_iff, Bool-cases, Option-cases,
  Result-cases, subst, false≢true,
}
use dagr_mcp.Python.{Value, mapping}
use dagr_mcp.Deferred.{
  SlotState, pending, is_terminal, DeferredSlot, Ending, broke_off, Call, Effects, Surroundings,
  Boundary, slot_not_found, actor_mismatch,
}
use dagr_mcp.Deferred.Slots.{lookup, insert, lookup-insert}
use dagr_mcp.Deferred.Defer.{DeferCall, defer_call, new_slot}
use dagr_mcp.Deferred.Resume.{
  ResumeCall, resume_call, resume_locked, resume_decision, resume_outcome, resume_approved, execute,
  close, check_time,
}
use dagr_mcp.Deferred.Deferral.{calls-defer_call, slots-defer_call, slots-defer_call_raised}
use dagr_mcp.Deferred.Frame.{
  resume_locked-SameBinding, resume_locked-actor, resume_locked-pending, resume_locked-terminal,
}
use dagr_mcp.Deferred.Gate.{permits, the_call, resume_locked-calls}
use dagr_mcp.Deferred.Run.{Reachable, start, deferral, resumption, after, new}

-- A call of the inner handler that it completed: it returned, or raised an `Exception`.
abbrev pub is_completed : Ending → Bool
is_completed (broke_off class) = false
is_completed _ = true

-- How many executions for the slot `key` were completed.
abbrev pub completed : String → List Call → ℕ
completed key [] = 0
completed key (c ∷ calls) =
    (if str_eq c.correlation_ref key && is_completed c.ending then 1 else 0) + completed key calls

completed-append :
    (key : String) (xs ys : List Call)
    → completed key (xs ++ ys) ≡ completed key xs + completed key ys
completed-append key [] ys = omega arith
completed-append key (c ∷ xs) ys = omega (arith, completed-append key xs ys)

-- The executions agree with what the store says of the slot `key`.
abbrev pub Agrees : String → Option DeferredSlot → ℕ → Type 0
Agrees key none n = n ≡ 0
Agrees key (some slot) n =
    (slot.correlation_ref ≡ key)
    × (n ≤ 1)
    × (slot.state ≡ pending → (n ≡ 0) × (slot.final_decision ≡ none))

completed-the_call :
    (env : Surroundings) (slot : DeferredSlot) (v : Value) (fx : Effects) (key : String)
    → (completed key (the_call env slot v fx) ≤ 1)
      × (slot.correlation_ref ≢ key → completed key (the_call env slot v fx) ≡ 0)
completed-the_call env slot (mapping arguments) fx key =
    (ground arith, λ h. ground (arith, eq_iff slot.correlation_ref key))
completed-the_call env slot _ fx key = (omega arith, λ h. refl)

pending_of : (s : SlotState) → is_terminal s ≡ false → s ≡ pending
pending_of s h = ground arith

module _ (env : Surroundings) (c : ResumeCall) (slot : DeferredSlot) (fx : Effects)
    (key : String) where
  -- A resume completes one execution at most, and none of another slot.
  completed-step :
      (completed key (resume_locked env c slot fx).effects.calls ≤ completed key fx.calls + 1)
      × (slot.correlation_ref ≢ key
          → completed key (resume_locked env c slot fx).effects.calls ≡ completed key fx.calls)
  completed-step =
      let more = completed-append key fx.calls (the_call env slot c.arguments fx) in
      let (bound, other) = completed-the_call env slot c.arguments fx key in
      elim (Bool-cases (permits env c slot)) [
        | inl e ↦ (
          rw (resume_locked-calls env c slot fx, e) (omega (arith, more, bound)),
          λ h. rw (resume_locked-calls env c slot fx, e) (omega (arith, more, other h)),
        )
        | inr e ↦ (
          rw (resume_locked-calls env c slot fx, e) (omega arith),
          λ h. rw (resume_locked-calls env c slot fx, e),
        )
      ]

  -- One that leaves the slot pending completes none.
  completed-pending :
      (resume_locked env c slot fx).slot.state ≡ pending
      → completed key (resume_locked env c slot fx).effects.calls ≡ completed key fx.calls
  unfolding resume_locked resume_decision resume_outcome resume_approved execute close check_time
  completed-pending h =
      ground (arith, completed-append key fx.calls (the_call env slot c.arguments fx))

  -- The slot of the resume still agrees with its executions.
  Agrees-resume_locked :
      Agrees key (some slot) (completed key fx.calls)
      → Agrees key
          (some (resume_locked env c slot fx).slot)
          (completed key (resume_locked env c slot fx).effects.calls)
  Agrees-resume_locked h = elim (Bool-cases (is_terminal slot.state)) [
    | inl t ↦ rw (resume_locked-terminal env c slot fx t) h
    | inr f ↦
        let unused = (h.2 (pending_of slot.state f)).0 in
        (
          (resume_locked-SameBinding env c slot fx).correlation_ref ∙ h.0,
          omega (arith, completed-step.0, unused),
          λ p. (
            completed-pending p ∙ unused,
            (resume_locked-pending env c slot fx p).1 ∙ (h.2 (pending_of slot.state f)).1,
          ),
        )
  ]

abbrev pub AllAgree : Boundary → Type 0
AllAgree b = (key : String) → Agrees key (lookup key b.slots) (completed key b.effects.calls)

module _ (env : Surroundings) (c : ResumeCall) (key : String) (b : Boundary) where
  pub resume_call-none : lookup key b.slots ≡ none → (resume_call env c key b).0 ≡ b
  unfolding resume_call
  resume_call-none e = rw (e, resume_call)

  pub resume_call-some :
      (slot : DeferredSlot)
      → lookup key b.slots ≡ some slot
      → (resume_call env c key b).0 ≡ record {
        slots = insert key (resume_locked env c slot b.effects).slot b.slots;
        effects = (resume_locked env c slot b.effects).effects;
      }
  unfolding resume_call
  resume_call-some slot e = rw (e, resume_call)

  AllAgree-resumed :
      (slot : DeferredSlot)
      → lookup key b.slots ≡ some slot
      → AllAgree b
      → AllAgree (resume_call env c key b).0
  AllAgree-resumed slot e all j =
      let h : Agrees key (some slot) (completed key b.effects.calls) = rw e at (all key) in
      rw (resume_call-some slot e, lookup-insert)
        (elim (Bool-cases (str_eq key j)) [
          | inl t ↦ rw t (
              Agrees-resume_locked env c slot b.effects j (
                subst (λ x. Agrees x (some slot) (completed x b.effects.calls)) ((eq_iff key j).0 t)
                  h))
          | inr f ↦
              rw
                (
                  f,
                  (completed-step env c slot b.effects j).1
                      (λ p. false≢true (sym f ∙ (eq_iff key j).1 (sym h.0 ∙ p))),
                )
                (all j)
        ])

  AllAgree-resume_call : AllAgree b → AllAgree (resume_call env c key b).0
  AllAgree-resume_call all = elim (Option-cases (lookup key b.slots)) [
    | inl e ↦ rw (resume_call-none e) all
    | inr (slot, e) ↦ AllAgree-resumed slot e all
  ]

module _ (env : Surroundings) (c : DeferCall) (b : Boundary) where
  Agrees-new_slot :
      (digest : ℕ) (timeout : Option ℕ) (row : String) (receipt : Option String)
      (refs : List String) {n : ℕ} {j : String}
      → c.fresh ≡ j
      → n ≡ 0
      → Agrees j (some (new_slot env c b digest timeout row receipt refs)) n
  unfolding new_slot
  Agrees-new_slot digest timeout row receipt refs k z = (k, omega arith, λ p. (z, refl))

  AllAgree-defer_call : lookup c.fresh b.slots ≡ none → AllAgree b → AllAgree (defer_call env c b).0
  AllAgree-defer_call fresh all j = elim (Result-cases (defer_call env c b).1) [
    | inr (e, p) ↦ rw (slots-defer_call_raised env c b p, calls-defer_call env c b) (all j)
    | inl (r, p) ↦
        rw ((slots-defer_call env c b p).0, calls-defer_call env c b, lookup-insert)
          (elim (Bool-cases (str_eq c.fresh j)) [
            | inl t ↦
                let k = (eq_iff c.fresh j).0 t in
                rw t (
                  Agrees-new_slot _ _ _ _ _ k
                    (subst (λ x. completed x b.effects.calls ≡ 0) k (rw fresh at (all c.fresh))))
            | inr f ↦ rw f (all j)
          ])
  ]

AllAgree-new : AllAgree new
unfolding lookup
AllAgree-new key = refl

-- In every run, the executions agree with the store.
pub AllAgree-Reachable : {env : Surroundings} {b : Boundary} → Reachable env b → AllAgree b
unfolding after
AllAgree-Reachable start = AllAgree-new
AllAgree-Reachable {env} (deferral {b} c run fresh) =
    AllAgree-defer_call env c b fresh (AllAgree-Reachable run)
AllAgree-Reachable {env} (resumption {b} key c run) =
    AllAgree-resume_call env c key b (AllAgree-Reachable run)

Agrees-bound : (key : String) (o : Option DeferredSlot) {n : ℕ} → Agrees key o n → n ≤ 1
Agrees-bound key none h = omega arith
Agrees-bound key (some slot) h = h.1

-- At most one execution is completed for each correlation reference, in every run of deferrals and
-- resumes, whatever the decisions, the clock, the sinks and the inner handler: once the handler
-- returned or raised an `Exception`, no later resume of that reference completes it again.
pub completed-Reachable :
    {env : Surroundings} {b : Boundary}
    → Reachable env b
    → (key : String) → completed key b.effects.calls ≤ 1
completed-Reachable {b = b} run key =
    Agrees-bound key (lookup key b.slots) (AllAgree-Reachable run key)

module _ (env : Surroundings) (c : ResumeCall) (key : String) (b : Boundary) where
  resume_call-some_answer :
      (slot : DeferredSlot)
      → lookup key b.slots ≡ some slot
      → (resume_call env c key b).1 ≡ (resume_locked env c slot b.effects).answer
  unfolding resume_call
  resume_call-some_answer slot e = rw (e, resume_call)

  resume_call-none_answer :
      lookup key b.slots ≡ none → (resume_call env c key b).1 ≡ raised slot_not_found
  unfolding resume_call
  resume_call-none_answer e = rw (e, resume_call)

  resume_locked-never_actor :
      (slot : DeferredSlot) (n : ℕ)
      → Agrees key (some slot) n
      → (resume_locked env c slot b.effects).answer ≢ raised actor_mismatch
  resume_locked-never_actor slot n h = elim (Bool-cases (is_terminal slot.state)) [
    | inl t ↦ rw (resume_locked-terminal env c slot b.effects t) (λ p. cc)
    | inr f ↦ resume_locked-actor env c slot b.effects (h.2 (pending_of slot.state f)).1
  ]

  -- The wrong-actor error is never raised: in every run, a slot that could still be executed has no
  -- decision on record whose actor could differ.
  pub resume_call-actor : Reachable env b → (resume_call env c key b).1 ≢ raised actor_mismatch
  resume_call-actor run = elim (Option-cases (lookup key b.slots)) [
    | inl e ↦ rw (resume_call-none_answer e) (λ p. cc)
    | inr (slot, e) ↦ rw (resume_call-some_answer slot e) (
        resume_locked-never_actor slot (completed key b.effects.calls)
          (rw e at (AllAgree-Reachable run key)))
  ]
