-- ===== src/Deferred/Tests.antt =====
-- Runs of the boundary of dagr_mcp/deferred_boundary.py on concrete calls.
use dagr_mcp.Prelude.{
  ◌⊎◌, ℕ, ◌≤◌, String, ◌≡◌, ◌≢◌, refl, true, false, not, none, some, is_some, List, [], ◌∷◌, ◌++◌,
  ok, raised, arith, if◌then◌else◌, zero,
}
use dagr_mcp.Python.{null, integer, str, mapping, Fields, end, field, pos}
use dagr_mcp.Python.Text.{is_blank}
use dagr_mcp.Review.{normalize_review_decision_outcome, outcome_of_key}
use dagr_mcp.Review.Decision.{aware, validate_tool_call_disposition_decision}
use dagr_mcp.Deferred.{
  pending, admitted, DeferralResult, slot_terminal, stale_response, argument_mismatch,
  actor_mismatch, returned, Call, DeferredSlot, Surroundings, Boundary,
}
use dagr_mcp.Deferred.Slots.{lookup, insert}
use dagr_mcp.Deferred.Defer.{DeferCall, defer_call, new_slot}
use dagr_mcp.Deferred.Resume.{
  ResumeCall, resume_call, resume_locked, resume_decision, resume_outcome, resume_approved, execute,
  check_time, is_timed_out, is_wrong_actor,
}
use dagr_mcp.Deferred.Frame.{
  presented, returned_value, resume_locked-silent, resume_locked-admitted, receipts-resume_locked,
}
use dagr_mcp.Deferred.Gate.{permits, the_call, resume_locked-calls}
use dagr_mcp.Deferred.Run.{Reachable, start, deferral, resumption, after, defer, resume, new}
use dagr_mcp.Deferred.Once.{completed, completed-Reachable, resume_call-actor}
use dagr_mcp.Deferred.Binding.{AllFit, AllFit-Reachable}

-- The digest here is the number of the fields: enough to tell the arguments below apart.
abbrev fields_count : Fields → ℕ
fields_count end = 0
fields_count (field k v rest) = dagr_mcp.Prelude.suc (fields_count rest)

abbrev office : Surroundings
office = record {
  payload_digest = fields_count;
  write_event = λ before event. some "event";
  create_review_object = λ before row. some "review:1";
  call_inner = λ before tool arguments. returned (str tool);
  srs_bridge = none;
  profile_ref = "profile:1";
}

abbrev transfer : DeferCall
transfer = record {
  fresh = "deferred:1";
  now = 5000000;
  tool_name = "transfer";
  arguments = mapping (field "amount" (integer (pos 7)) end);
  tool_class = "destructive";
  gate_timeout_seconds = integer (pos 60);
  harness_context = none;
}

abbrev approval : ResumeCall
approval = record {
  now = 9000000;
  decision = record {
    decision = str " Approved ";
    review_object_id = "review:1";
    decided_at = aware 8000000;
    actor_ref = none;
    reason = null;
    detail = mapping end;
  };
  arguments = mapping (field "amount" (integer (pos 7)) end);
  harness_context = none;
}

abbrev other_arguments : ResumeCall
other_arguments = record approval { arguments = mapping end }

abbrev waiting : Boundary
waiting = (defer_call office transfer new).0

abbrev done : Boundary
done = (resume_call office approval "deferred:1" waiting).0

abbrev transfer_slot : DeferredSlot
transfer_slot = new_slot office transfer new 1 (some 60) "review:1" none ("event" ∷ [])

abbrev transfer_call : Call
transfer_call = record {
  correlation_ref = "deferred:1";
  tool_name = "transfer";
  arguments = field "amount" (integer (pos 7)) end;
  ending = returned (str "transfer");
}

transfer_deferred : lookup "deferred:1" waiting.slots ≡ some transfer_slot
unfolding defer_call lookup insert is_blank
transfer_deferred = refl

transfer_executed : done.effects.calls ≡ transfer_call ∷ []
unfolding defer_call lookup insert is_blank resume_call resume_locked resume_decision resume_outcome
    resume_approved execute is_timed_out check_time is_wrong_actor
    validate_tool_call_disposition_decision normalize_review_decision_outcome outcome_of_key
transfer_executed = refl

transfer_replayed : (resume_call office approval "deferred:1" done).1 ≡ raised slot_terminal
unfolding defer_call lookup insert is_blank resume_call resume_locked resume_decision resume_outcome
    resume_approved execute is_timed_out check_time is_wrong_actor
    validate_tool_call_disposition_decision normalize_review_decision_outcome outcome_of_key
transfer_replayed = refl

other_arguments_refused :
    (resume_call office other_arguments "deferred:1" waiting).1 ≡ raised argument_mismatch
unfolding defer_call lookup insert is_blank resume_call resume_locked resume_decision resume_outcome
    resume_approved execute is_timed_out check_time is_wrong_actor
    validate_tool_call_disposition_decision normalize_review_decision_outcome outcome_of_key
other_arguments_refused = refl

done-Reachable :
    Reachable office
      (after office (resume "deferred:1" approval) (after office (defer transfer) new))
unfolding lookup
done-Reachable = resumption "deferred:1" approval (deferral transfer start refl)

abbrev done_run : Boundary
done_run = after office (resume "deferred:1" approval) (after office (defer transfer) new)

completed-Reachable_example : completed "deferred:1" done_run.effects.calls ≤ 1
completed-Reachable_example = completed-Reachable done-Reachable "deferred:1"

AllFit-Reachable_example : AllFit office done_run.slots done_run.effects.calls
AllFit-Reachable_example = AllFit-Reachable done-Reachable

resume_call-actor_example :
    (resume_call office approval "deferred:1" done_run).1 ≢ raised actor_mismatch
resume_call-actor_example = resume_call-actor office approval "deferred:1" done_run done-Reachable

resume_locked-calls_example :
    (resume_locked office approval transfer_slot waiting.effects).effects.calls ≡ (
      if permits office approval transfer_slot
      then waiting.effects.calls ++ the_call office transfer_slot approval.arguments waiting.effects
      else waiting.effects.calls)
resume_locked-calls_example = resume_locked-calls office approval transfer_slot waiting.effects

abbrev early : ResumeCall
early = record approval {
  decision = record {
    decision = str "approved";
    review_object_id = "review:1";
    decided_at = aware 4000000;
    actor_ref = none;
    reason = null;
    detail = mapping end;
  };
}

early_stale :
    (resume_locked office early transfer_slot waiting.effects).answer ≡ raised stale_response
unfolding resume_locked resume_decision is_timed_out check_time
    validate_tool_call_disposition_decision normalize_review_decision_outcome outcome_of_key
    new_slot
early_stale = refl

resume_locked-silent_example :
    ((resume_locked office early transfer_slot waiting.effects).slot ≡ transfer_slot)
    × ((resume_locked office early transfer_slot waiting.effects).effects ≡ waiting.effects)
resume_locked-silent_example =
    resume_locked-silent office early transfer_slot waiting.effects early_stale refl

early_pending : (resume_locked office early transfer_slot waiting.effects).slot.state ≢ admitted
unfolding resume_locked resume_decision is_timed_out check_time
    validate_tool_call_disposition_decision normalize_review_decision_outcome outcome_of_key
    new_slot
early_pending = ground arith

receipts-resume_locked_example :
    ((resume_locked office early transfer_slot waiting.effects).effects.receipts
      ≡ waiting.effects.receipts)
    ⊎ ((transfer_slot.state ≡ pending)
        × ((resume_locked office early transfer_slot waiting.effects).slot.state ≡ admitted))
receipts-resume_locked_example = receipts-resume_locked office early transfer_slot waiting.effects

transfer_pending : transfer_slot.state ≡ pending
unfolding new_slot
transfer_pending = refl

transfer_admitted :
    (resume_locked office approval transfer_slot waiting.effects).slot.state ≡ admitted
unfolding resume_locked resume_decision resume_outcome resume_approved execute is_timed_out
    check_time is_wrong_actor validate_tool_call_disposition_decision
    normalize_review_decision_outcome outcome_of_key new_slot
transfer_admitted = refl

resume_locked-admitted_example :
    (approval.arguments ≡ mapping (presented approval.arguments))
    × ((resume_locked office approval transfer_slot waiting.effects).slot.result
        ≡ returned_value (
            office.call_inner waiting.effects.calls transfer_slot.tool_name
              (presented approval.arguments)))
    × (is_some (resume_locked office approval transfer_slot waiting.effects).slot.result ≡ true)
resume_locked-admitted_example =
    resume_locked-admitted office approval transfer_slot waiting.effects transfer_pending
      transfer_admitted

abbrev transfer_result : DeferralResult
transfer_result = record {
  correlation_ref = "deferred:1";
  review_object_ref = "review:1";
  argument_digest = 1;
  admission_receipt_ref = none;
  event_refs = "event" ∷ [];
}

transfer_returned : (defer_call office transfer new).1 ≡ ok transfer_result
unfolding defer_call is_blank
transfer_returned = refl
