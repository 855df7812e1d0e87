-- ===== src/Deferred/Gate.antt =====
-- When `resume_call` of dagr_mcp/deferred_boundary.py calls the inner handler, and with what.
use dagr_mcp.Prelude.{
  ℕ, ◌≡◌, refl, Bool, false, not, ◌&&◌, is_some, List, [], ◌∷◌, ◌++◌, Result, ok, raised, arith,
  leb, ◌==◌, if◌then◌else◌,
}
use dagr_mcp.Python.{Value, mapping, Fields}
use dagr_mcp.Review.{ReviewOutcome, approved}
use dagr_mcp.Review.Decision.{
  Timestamp, aware, validate_tool_call_disposition_decision, ToolCallDispositionError, is_approved,
}
use dagr_mcp.Deferred.{is_terminal, DeferredSlot, Call, Effects, Surroundings}
use dagr_mcp.Deferred.Resume.{
  ResumeCall, is_timed_out, is_wrong_actor, resume_locked, resume_decision, resume_outcome,
  resume_approved, execute, check_time, close,
}

abbrev pub approves : Result ToolCallDispositionError ReviewOutcome → Bool
approves (ok outcome) = is_approved outcome
approves (raised e) = false

-- The decision was made at a known time, not before the slot.
abbrev pub is_timely : Timestamp → ℕ → Bool
is_timely (aware decided) created = leb created decided
is_timely _ created = false

abbrev pub presents : Surroundings → Value → ℕ → Bool
presents env (mapping arguments) digest = env.payload_digest arguments == digest
presents env _ digest = false

-- All that has to hold for an execution.
abbrev pub permits : Surroundings → ResumeCall → DeferredSlot → Bool
permits env c slot =
    not (is_terminal slot.state)
    && not (is_timed_out env c slot)
    && approves (validate_tool_call_disposition_decision c.decision)
    && is_timely c.decision.decided_at slot.created_at
    && presents env c.arguments slot.argument_digest
    && not (is_wrong_actor env c slot)

-- The one call that is then made: the tool of the slot, on the presented arguments.
abbrev pub the_call : Surroundings → DeferredSlot → Value → Effects → List Call
the_call env slot (mapping arguments) fx =
    record {
      correlation_ref = slot.correlation_ref;
      tool_name = slot.tool_name;
      arguments = arguments;
      ending = env.call_inner fx.calls slot.tool_name arguments;
    }
    ∷ []
the_call env slot _ fx = []

module _ (env : Surroundings) (c : ResumeCall) (slot : DeferredSlot) (fx : Effects) where
  execute-calls :
      (arguments : Fields)
      → (execute env c slot arguments fx).effects.calls
        ≡ fx.calls ++ the_call env slot (mapping arguments) fx
  unfolding execute
  execute-calls arguments = ground arith

  resume_approved-calls :
      (v : Value)
      → (resume_approved env c slot v fx).effects.calls ≡ (
          if presents env v slot.argument_digest && not (is_wrong_actor env c slot)
          then fx.calls ++ the_call env slot v fx
          else fx.calls)
  unfolding resume_approved
  resume_approved-calls (mapping arguments) = ground (arith, execute-calls arguments)
  resume_approved-calls _ = refl

  resume_outcome-calls :
      (outcome : ReviewOutcome)
      → (resume_outcome env c slot outcome fx).effects.calls ≡ (
          if is_approved outcome
            && presents env c.arguments slot.argument_digest
            && not (is_wrong_actor env c slot)
          then fx.calls ++ the_call env slot c.arguments fx
          else fx.calls)
  unfolding resume_outcome close
  resume_outcome-calls approved = resume_approved-calls c.arguments
  resume_outcome-calls _ = refl

  check_time-is_timely :
      (t : Timestamp)
      → is_some (check_time env c t slot.created_at) ≡ not (is_timely t slot.created_at)
  unfolding check_time
  check_time-is_timely t = ground arith

  resume_decision-calls : (resume_decision env c slot fx).effects.calls ≡ (
      if approves (validate_tool_call_disposition_decision c.decision)
        && is_timely c.decision.decided_at slot.created_at
        && presents env c.arguments slot.argument_digest
        && not (is_wrong_actor env c slot)
      then fx.calls ++ the_call env slot c.arguments fx
      else fx.calls)
  unfolding resume_decision
  resume_decision-calls = ground (
    arith,
    check_time-is_timely c.decision.decided_at,
    resume_outcome-calls approved,
    resume_outcome-calls ReviewOutcome.rejected,
    resume_outcome-calls ReviewOutcome.deferred,
    resume_outcome-calls ReviewOutcome.expired,
  )

  -- The inner handler is called exactly when the slot is pending and not timed out, the decision is
  -- valid, approves, and was made at a known time not before the slot, the presented arguments have
  -- the digest that was bound when the call was deferred, and no other reviewer is on record; it is
  -- then called once, with the tool of the slot and those arguments. In every other case it is not
  -- called.
  pub resume_locked-calls :
      (resume_locked env c slot fx).effects.calls
      ≡ (if permits env c slot then fx.calls ++ the_call env slot c.arguments fx else fx.calls)
  unfolding resume_locked
  resume_locked-calls = ground (arith, resume_decision-calls)
