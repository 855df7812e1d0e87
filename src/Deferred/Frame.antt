-- ===== src/Deferred/Frame.antt =====
-- What `resume_call` of dagr_mcp/deferred_boundary.py changes of a slot and of the objects around,
-- branch by branch.
use dagr_mcp.Prelude.{
  ◌≡◌, ◌≢◌, ◌⊎◌, Bool, true, false, Option, none, some, is_some, ok, raised, arith,
}
use dagr_mcp.Python.{Value, mapping, Fields, end}
use dagr_mcp.Deferred.{
  pending, admitted, is_terminal, DeferredSlot, DeferredError, timeout, argument_mismatch,
  actor_mismatch, execution_failure, interrupted, slot_terminal, Ending, returned, ResumeResult,
  Effects, Surroundings,
}
use dagr_mcp.Deferred.Resume.{
  ResumeCall, refuse, is_wrong_actor, resume_locked, resume_decision, resume_outcome,
  resume_approved, execute, check_time, close,
}

-- What was bound when the call was deferred.
pub record SameBinding (s t : DeferredSlot) : Type 0 where
  pub correlation_ref : t.correlation_ref ≡ s.correlation_ref
  pub tool_name : t.tool_name ≡ s.tool_name
  pub tool_class : t.tool_class ≡ s.tool_class
  pub profile_ref : t.profile_ref ≡ s.profile_ref
  pub argument_digest : t.argument_digest ≡ s.argument_digest
  pub created_at : t.created_at ≡ s.created_at
  pub review_object_ref : t.review_object_ref ≡ s.review_object_ref
  pub gate_timeout_seconds : t.gate_timeout_seconds ≡ s.gate_timeout_seconds

-- The arguments that a mapping presents; a value of another kind presents none.
abbrev pub presented : Value → Fields
presented (mapping arguments) = arguments
presented _ = end

abbrev pub returned_value : Ending → Option Value
returned_value (returned value) = some value
returned_value _ = none

-- No resume changes what was bound at the deferral.
module _ (env : Surroundings) (c : ResumeCall) (slot : DeferredSlot) (fx : Effects) where
  pub resume_locked-SameBinding : SameBinding slot (resume_locked env c slot fx).slot
  unfolding resume_locked resume_decision resume_outcome resume_approved execute close
  resume_locked-SameBinding = ground arith

  -- A slot of which no decision is on record is never refused for its actor.
  pub resume_locked-actor :
      slot.final_decision ≡ none → (resume_locked env c slot fx).answer ≢ raised actor_mismatch
  unfolding resume_locked resume_decision resume_outcome resume_approved execute close
      is_wrong_actor check_time
  resume_locked-actor h = ground arith

-- The errors that a resume raises after it has changed something: the slot, or an event, or a call.
abbrev pub has_effect : DeferredError → Bool
has_effect timeout = true
has_effect argument_mismatch = true
has_effect (execution_failure class) = true
has_effect (interrupted class) = true
has_effect _ = false

module _ (env : Surroundings) (c : ResumeCall) (slot : DeferredSlot) (fx : Effects) where
  -- A resume that raises any other error than a timeout, an argument mismatch, an execution failure
  -- or an interruption leaves the slot as it was and has had no effect outside: the replay of a
  -- terminal slot, an invalid, stale or untimed decision, and a wrong actor are all of this kind.
  pub resume_locked-silent :
      {e : DeferredError}
      → (resume_locked env c slot fx).answer ≡ raised e
      → has_effect e ≡ false
      → ((resume_locked env c slot fx).slot ≡ slot) × ((resume_locked env c slot fx).effects ≡ fx)
  unfolding resume_locked resume_decision resume_outcome resume_approved execute close check_time
  resume_locked-silent h k = ground arith

  -- A slot stays pending only if it was, and then no decision is put on record.
  pub resume_locked-pending :
      (resume_locked env c slot fx).slot.state ≡ pending
      → (slot.state ≡ pending)
        × ((resume_locked env c slot fx).slot.final_decision ≡ slot.final_decision)
  unfolding resume_locked resume_decision resume_outcome resume_approved execute close check_time
  resume_locked-pending h = ground arith

  -- The replay of a terminal slot is refused, with no change and no effect.
  pub resume_locked-terminal :
      is_terminal slot.state ≡ true → resume_locked env c slot fx ≡ refuse slot fx slot_terminal
  unfolding resume_locked
  resume_locked-terminal h = ground arith

  -- A slot becomes admitted only by a call of the inner handler that returned; its value is kept.
  pub resume_locked-admitted :
      slot.state ≡ pending
      → (resume_locked env c slot fx).slot.state ≡ admitted
      → (c.arguments ≡ mapping (presented c.arguments))
        × ((resume_locked env c slot fx).slot.result
            ≡ returned_value (env.call_inner fx.calls slot.tool_name (presented c.arguments)))
        × (is_some (resume_locked env c slot fx).slot.result ≡ true)
  unfolding resume_locked resume_decision resume_outcome resume_approved execute close check_time
  resume_locked-admitted h k = ground arith

  -- A resume emits no receipt, or it is one that takes a pending slot to `admitted`: one that
  -- refuses or expires it emits none, and neither does one that keeps it pending, nor the replay of a
  -- slot that was admitted, refused or expired before.
  pub receipts-resume_locked :
      ((resume_locked env c slot fx).effects.receipts ≡ fx.receipts)
      ⊎ ((slot.state ≡ pending) × ((resume_locked env c slot fx).slot.state ≡ admitted))
  unfolding resume_locked resume_decision resume_outcome resume_approved execute close check_time
  receipts-resume_locked = ground arith

  -- An answer that a resume returns is a view of the slot as it leaves it.
  pub resume_locked-answer :
      {r : ResumeResult}
      → (resume_locked env c slot fx).answer ≡ ok r
      → (r.correlation_ref ≡ slot.correlation_ref)
        × (r.state ≡ (resume_locked env c slot fx).slot.state)
        × (r.event_refs ≡ (resume_locked env c slot fx).slot.event_refs)
        × (r.admission_receipt_ref ≡ (resume_locked env c slot fx).slot.admission_receipt_ref)
  unfolding resume_locked resume_decision resume_outcome resume_approved execute close check_time
  resume_locked-answer h = ground arith
