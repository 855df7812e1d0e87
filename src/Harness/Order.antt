-- ===== src/Harness/Order.antt =====
-- When `wrapped` of dagr_mcp/enforcement_harness.py calls the inner handler, and what it has called
-- before.
use dagr_mcp.Prelude.{
  String, ◌≡◌, refl, sym, subst, arith, Option, none, some, ◌∷◌, Result, ok, raised, inl, inr,
}
use dagr_mcp.Python.{Value}
use dagr_mcp.Harness.{
  SinkHealth, EventEnvelope, Raise, health_checked, event_written, History, Harness, State,
}
use dagr_mcp.Harness.Sinks.{normalize_sink_name, effective_required_sinks}
use dagr_mcp.Harness.Acts.{
  Act, ◌>>=◌, context, or_unavailable, ask, judge_health, check_required_sink,
  append_event_if_available, event_envelope, stable_payload_hash,
}
use dagr_mcp.Harness.Run.{
  failure_behavior, proceed, request, request_answer, request_detail, start_answer, initial, hashed,
  wrapped, policy_decision, enforce,
}
use dagr_mcp.Harness.Quiet.{
  Quiet, nothing, noted, Quiet-trans, IsQuiet, IsQuiet-Quiet, after_first, >>=-IsQuiet,
  context-IsQuiet,
}
use dagr_mcp.Harness.Silent.{
  check_required_sink-IsQuiet, fail_with-IsQuiet, append_event_if_available-IsQuiet,
}
use dagr_mcp.Harness.Protocol.{Checked, Governed, kept_out, let_through, check_required_sink-passed}
use dagr_mcp.Harness.Passage.{EnforcedAfter, enforce-Enforced}

module _ (h : Harness) (tool_name : String) (arguments caller : Value) where
  requested : Act (Option String)
  requested = context >>= λ c.
      append_event_if_available h "mcp.tool.call.requested"
        (request_detail h tool_name arguments caller c)

  requested-IsQuiet : IsQuiet requested
  unfolding requested
  requested-IsQuiet = >>=-IsQuiet context-IsQuiet (λ c. append_event_if_available-IsQuiet h _ _)

  requested-written :
      (s : State) (ref : String)
      → (requested s).0 ≡ ok (some ref)
      → (event : EventEnvelope) × (event.event_type ≡ "mcp.tool.call.requested")
        × ((requested s).1.history ≡ event_written event (ok ref) ∷ s.history)
  unfolding requested append_event_if_available ◌>>=◌ or_unavailable ask
  requested-written s ref e = (
    event_envelope h s "mcp.tool.call.requested"
        (request_detail h tool_name arguments caller s.context),
    refl,
    ground arith,
  )

  abbrev GovernedAfter : History → State → Type 0
  GovernedAfter past t = Governed h tool_name arguments caller past t.history

  module _ {past : History} (s : State) (health : SinkHealth)
      (judged : judge_health (failure_behavior h) "event" health ≡ none)
      (seen : s.history ≡ health_checked "event" (ok health) ∷ past) where
    checked-Quiet : Quiet past s.history
    checked-Quiet = subst (λ z. Quiet past z) (sym seen) (noted _ refl nothing)

    enforced-Governed :
        (event : EventEnvelope) (ref : String) (t u : State)
        → event.event_type ≡ "mcp.tool.call.requested"
        → t.history ≡ event_written event (ok ref) ∷ s.history
        → EnforcedAfter h tool_name arguments caller
            (policy_decision h tool_name arguments caller)
            t.history
            u
        → GovernedAfter past u
    enforced-Governed event ref t u typed written (inl q) = kept_out (
        Quiet-trans checked-Quiet
          (Quiet-trans (noted _ refl nothing) (subst (λ z. Quiet z u.history) written q)))
    enforced-Governed event ref t u typed written (inr (checked, passed, decided)) =
        let from : (z : History) → Type 0 = λ z.
          Checked (failure_behavior h)
            (effective_required_sinks (policy_decision h tool_name arguments caller)
              h.policy_profile)
            z checked in
        let_through health event ref judged typed
          (subst (λ z. from (event_written event (ok ref) ∷ z)) seen (subst from written passed))
          decided

    request_answer-Governed :
        (answer : Option String)
        → (requested s).0 ≡ ok answer
        → GovernedAfter past (request_answer h tool_name arguments caller answer (requested s).1).1
    unfolding request_answer proceed
    request_answer-Governed none e = kept_out (
        Quiet-trans checked-Quiet (
          Quiet-trans (IsQuiet-Quiet requested-IsQuiet s)
            (IsQuiet-Quiet (fail_with-IsQuiet _ _) _)))
    request_answer-Governed (some ref) e =
        let (event, typed, written) = requested-written s ref e in
        enforced-Governed event ref (requested s).1
          (enforce h tool_name (policy_decision h tool_name arguments caller) arguments caller
            (requested s).1).1
          typed written (enforce-Enforced h tool_name arguments caller _ (requested s).1)

    request-Governed : GovernedAfter past (request h tool_name arguments caller s).1
    unfolding request requested
    request-Governed =
        after_first (GovernedAfter past) requested _ s request_answer-Governed
          (λ x k. kept_out (Quiet-trans checked-Quiet (IsQuiet-Quiet requested-IsQuiet s)))

  module _ (hash : String) (past : History) where
    start : State
    start = initial h tool_name arguments caller hash past

    health : Act (Option String)
    health = check_required_sink h.sinks (failure_behavior h) "event"

    health-IsQuiet : IsQuiet health
    unfolding health
    health-IsQuiet = check_required_sink-IsQuiet h.sinks (failure_behavior h) "event"

    start_answer-Governed :
        (failure : Option String)
        → (health start).0 ≡ ok failure
        → GovernedAfter past (start_answer h tool_name arguments caller failure (health start).1).1
    unfolding start_answer health normalize_sink_name start
    start_answer-Governed (some reason) e =
        kept_out (
          Quiet-trans (IsQuiet-Quiet health-IsQuiet start)
            (IsQuiet-Quiet (fail_with-IsQuiet _ _) _))
    start_answer-Governed none e =
        let (found, judged, seen) =
          check_required_sink-passed h.sinks (failure_behavior h) "event" start e in
        request-Governed (health start).1 found judged seen

    answered-Governed :
        GovernedAfter past ((health >>= start_answer h tool_name arguments caller) start).1
    unfolding start
    answered-Governed =
        after_first (GovernedAfter past) health _ start start_answer-Governed
          (λ x k. kept_out (IsQuiet-Quiet health-IsQuiet start))

  hashed-Governed :
      (past : History) (r : Result Raise String)
      → GovernedAfter past (hashed h tool_name arguments caller past r).1
  unfolding hashed health start
  hashed-Governed past (raised e) = kept_out nothing
  hashed-Governed past (ok hash) = answered-Governed hash past

  -- A call of the handler calls the inner handler not at all, or once, with the tool's name, the
  -- arguments and the caller's context that it was given; and then it has called before, in this
  -- order and nothing else: the event sink's health, which passed; the writing of the event of the
  -- request, which was stored; the health of each effective required sink, which passed; and,
  -- where there is a bridge, the emission of an `admitted` receipt, which was stored. The policy's
  -- decision is then none of `deny`, `defer`, `fail_closed` and `gate`. The collaborators may
  -- answer or raise anything at each call.
  pub wrapped-Governed :
      (past : History)
      → Governed h tool_name arguments caller past
          (wrapped h tool_name arguments caller past).1.history
  unfolding wrapped
  wrapped-Governed past = hashed-Governed past (stable_payload_hash h.host arguments)
