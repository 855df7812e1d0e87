-- ===== src/Deferred/Resume.antt =====
-- `DeferredBoundary.resume_call` and `_resume_locked` of dagr_mcp/deferred_boundary.py. The lock of
-- the slot is held throughout, so a call is one step of the slot.
use dagr_mcp.Prelude.{
  ℕ, ◌+◌, ◌-◌, ◌*◌, String, Bool, false, not, Option, none, some, [], ◌∷◌, ◌++◌, Result, ok, raised,
  ltb, ◌==◌, str_eq, if◌then◌else◌,
}
use dagr_mcp.Python.{Value, mapping, Fields}
use dagr_mcp.Review.{ReviewOutcome, approved, rejected, deferred}
use dagr_mcp.Review.Decision.{
  Timestamp, aware, naive, malformed, ReviewDecision, arguments_not_mapping,
  validate_tool_call_disposition_decision,
}
use dagr_mcp.Deferred.{
  SlotState, pending, admitted, refused, is_terminal, FailureReason, gate_timeout_elapsed,
  decision_rejected, decision_expired, argument_digest_mismatch, inner_execution_failure,
  still_deferred, DeferredSlot, ResumeResult, DeferredError, slot_not_found, slot_terminal, timeout,
  stale_response, argument_mismatch, actor_mismatch, execution_failure, interrupted, disposition,
  time_malformed, time_naive, Event, call_expired, call_rejected, call_still_deferred,
  call_mismatched, call_failed, call_executed, admitted_admission, result_outcome, returned, failed,
  broke_off, Call, Effects, Surroundings, Boundary,
}
use dagr_mcp.Deferred.Slots.{lookup, insert}
use dagr_mcp.Deferred.Defer.{truthy, noted, emit}

-- The arguments of `resume_call`, with the time of the clock.
pub record ResumeCall : Type 0 where
  pub now : ℕ
  pub decision : ReviewDecision
  pub arguments : Value
  pub harness_context : Option String

-- What a call makes of the slot and of the objects around, and its answer.
pub record Step : Type 0 where
  pub slot : DeferredSlot
  pub effects : Effects
  pub answer : Result DeferredError ResumeResult

-- A step that raises and changes nothing.
abbrev pub refuse : DeferredSlot → Effects → DeferredError → Step
refuse slot fx e = record { slot = slot; effects = fx; answer = raised e }

-- `ResumeResult(…)` over the slot.
abbrev pub report : DeferredSlot → SlotState → Option FailureReason → Option String → ResumeResult
report slot state reason outcome_receipt_ref = record {
  correlation_ref = slot.correlation_ref;
  state = state;
  result = elim state [ admitted ↦ slot.result | _ ↦ none ];
  failure_reason = reason;
  admission_receipt_ref = slot.admission_receipt_ref;
  outcome_receipt_ref = outcome_receipt_ref;
  event_refs = slot.event_refs;
}

module _ (env : Surroundings) (c : ResumeCall) where
  -- `slot.event_refs.append(ref)`, for the reference of the event if there is one.
  abbrev pub referenced : DeferredSlot → Effects → Event → DeferredSlot
  referenced slot fx e = record slot {
    event_refs = slot.event_refs ++ truthy (env.write_event fx.events e);
  }

  -- Receipts of an admitted and executed call: the admission's, and then the outcome's.
  unfoldable pub emit_receipts :
      DeferredSlot → Value → Effects → DeferredSlot × Option String × Effects
  emit_receipts slot value fx =
      let (admission, fx₁) =
        emit env.srs_bridge c.harness_context (admitted_admission slot.tool_name "admitted") fx in
      elim admission [
        | none ↦ (slot, none, fx₁)
        | some ref ↦
            let (outcome, fx₂) =
              emit env.srs_bridge c.harness_context (result_outcome ref "result_returned" value)
                fx₁ in
            (
              record slot {
                admission_receipt_ref = some ref;
                outcome_receipt_ref = elim outcome [
                  | none ↦ slot.outcome_receipt_ref
                  | some o ↦ some o
                ];
              },
              outcome,
              fx₂,
            )
      ]

  -- 6d: the slot is admitted, the receipts are emitted, and the event is written.
  unfoldable pub finish : DeferredSlot → Value → Effects → Step
  unfolding emit_receipts
  finish slot value fx =
      let slot₁ : DeferredSlot = record slot {
        state = admitted;
        result = some value;
        final_decision = some c.decision;
      } in
      let (slot₂, outcome, fx₂) = emit_receipts slot₁ value fx in
      let event = call_executed slot.tool_name slot.argument_digest slot.correlation_ref in
      let slot₃ = referenced slot₂ fx₂ event in
      record {
        slot = slot₃;
        effects = noted fx₂ event;
        answer = ok (report slot₃ admitted none outcome);
      }

  -- 6c: the inner handler is called.
  unfoldable pub execute : DeferredSlot → Fields → Effects → Step
  unfolding finish
  execute slot arguments fx =
      let ending = env.call_inner fx.calls slot.tool_name arguments in
      let call : Call = record {
        correlation_ref = slot.correlation_ref;
        tool_name = slot.tool_name;
        arguments = arguments;
        ending = ending;
      } in
      let fx₁ : Effects = record fx { calls = fx.calls ++ (call ∷ []) } in
      elim ending [
        | returned value ↦ finish slot value fx₁
        | failed class ↦ record {
          slot = record slot {
            state = refused;
            failure_reason = some inner_execution_failure;
            final_decision = some c.decision;
          };
          effects = noted fx₁ (call_failed slot.tool_name slot.correlation_ref class);
          answer = raised (execution_failure class);
        }
        | broke_off class ↦ record {
          slot = slot;
          effects = fx₁;
          answer = raised (interrupted class);
        }
      ]

  -- 6b: both sides name an actor, and the two differ.
  unfoldable pub is_wrong_actor : DeferredSlot → Bool
  is_wrong_actor slot = elim c.decision.actor_ref [
    | none ↦ false
    | some actor ↦ elim slot.final_decision [
      | none ↦ false
      | some final ↦ elim final.actor_ref [
        | none ↦ false
        | some expected ↦ not (str_eq actor expected)
      ]
    ]
  ]

  -- 6a, on the presented arguments.
  unfoldable pub resume_approved : DeferredSlot → Value → Effects → Step
  resume_approved slot (mapping arguments) fx =
      if env.payload_digest arguments == slot.argument_digest
      then (if is_wrong_actor slot
          then refuse slot fx actor_mismatch
          else execute slot arguments fx)
      else record {
        slot = record slot {
          state = refused;
          failure_reason = some argument_digest_mismatch;
          final_decision = some c.decision;
        };
        effects = noted fx (call_mismatched slot.tool_name slot.correlation_ref);
        answer = raised argument_mismatch;
      }
  resume_approved slot _ fx = refuse slot fx (disposition arguments_not_mapping)

  -- 5: a decision that ends the slot without execution.
  unfoldable pub close : DeferredSlot → SlotState → FailureReason → ReviewOutcome → Effects → Step
  close slot state reason outcome fx =
      let slot₁ : DeferredSlot = record slot {
        state = state;
        failure_reason = some reason;
        final_decision = some c.decision;
      } in
      let event = call_rejected slot.tool_name slot.correlation_ref outcome in
      let slot₂ = referenced slot₁ fx event in
      record {
        slot = slot₂;
        effects = noted fx event;
        answer = ok (report slot₂ state (some reason) none);
      }

  -- 4 and 5, on the normalized outcome.
  unfoldable pub resume_outcome : DeferredSlot → ReviewOutcome → Effects → Step
  resume_outcome slot rejected fx = close slot refused decision_rejected rejected fx
  resume_outcome slot ReviewOutcome.expired fx =
      close slot SlotState.expired decision_expired ReviewOutcome.expired fx
  resume_outcome slot deferred fx =
      let event = call_still_deferred slot.tool_name slot.correlation_ref in
      let slot₁ = referenced slot fx event in
      record {
        slot = slot₁;
        effects = noted fx event;
        answer = ok (report slot₁ pending (some still_deferred) none);
      }
  resume_outcome slot approved fx = resume_approved slot c.arguments fx

  -- 3: `_parse_iso` of the decision's time, and the test that it is stale.
  unfoldable pub check_time : Timestamp → ℕ → Option DeferredError
  check_time (aware decided) created = if ltb decided created then some stale_response else none
  check_time (naive decided) created = some time_naive
  check_time malformed created = some time_malformed

  unfoldable pub resume_decision : DeferredSlot → Effects → Step
  resume_decision slot fx = elim (validate_tool_call_disposition_decision c.decision) [
    | raised e ↦ refuse slot fx (disposition e)
    | ok outcome ↦ elim (check_time c.decision.decided_at slot.created_at) [
      | some e ↦ refuse slot fx e
      | none ↦ resume_outcome slot outcome fx
    ]
  ]

  -- `elapsed > slot.gate_timeout_seconds`
  unfoldable pub is_timed_out : DeferredSlot → Bool
  is_timed_out slot = elim slot.gate_timeout_seconds [
    | none ↦ false
    | some seconds ↦ ltb (slot.created_at + seconds * 1000000) c.now
  ]

  unfoldable pub resume_locked : DeferredSlot → Effects → Step
  resume_locked slot fx =
      if is_terminal slot.state
      then refuse slot fx slot_terminal
      else if is_timed_out slot
      then record {
        slot = record slot {
          state = SlotState.expired;
          failure_reason = some gate_timeout_elapsed;
        };
        effects =
            noted fx (call_expired slot.tool_name slot.correlation_ref (c.now - slot.created_at));
        answer = raised timeout;
      }
      else resume_decision slot fx

  unfoldable pub resume_call : String → Boundary → Boundary × Result DeferredError ResumeResult
  resume_call key b = elim (lookup key b.slots) [
    | none ↦ (b, raised slot_not_found)
    | some slot ↦
        let step = resume_locked slot b.effects in
        (record { slots = insert key step.slot b.slots; effects = step.effects }, step.answer)
  ]
