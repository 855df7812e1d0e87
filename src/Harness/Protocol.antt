-- ===== src/Harness/Protocol.antt =====
-- What `wrap_handler` of dagr_mcp/enforcement_harness.py promises: in what order the handler calls
-- its collaborators, and when the inner handler is called.
use dagr_mcp.Prelude.{
  String, false, ◌≡◌, refl, subst, arith, Option, none, some, List, [], ◌∷◌, Result, ok, ◌⊎◌, inl,
  inr, str_eq, Option-cases, Result-cases,
}
use dagr_mcp.Python.{Value}
use dagr_mcp.Harness.{
  Inner, handles, callable, unusable, SinkHealth, EventEnvelope, PolicyDecision, HarnessSinks,
  SrsBridge, AdmissionCall, Raise, health_checked, event_written, admission_emitted, called,
  History, Harness, State,
}
use dagr_mcp.Harness.Sinks.{normalize_sink_name, effective_required_sinks}
use dagr_mcp.Harness.Acts.{
  ◌>>=◌, try, ask, judge_health, sink_by_name, check_required_sink, call_inner,
}
use dagr_mcp.Harness.Run.{is_refusal, failure_behavior, attempt, execute, policy_decision}
use dagr_mcp.Harness.Quiet.{Quiet, nothing, noted, Quiet-trans, IsQuiet-Quiet, after_first}
use dagr_mcp.Harness.Ended.{finish-IsQuiet}

-- Each of the named sinks was asked for its health, in order, answered, and passed.
pub data Checked (behavior : String) : List String → History → History → Type 0 where
  all_checked : {past : History} → Checked behavior [] past past
  one_checked :
      {past now : History} {name : String} {rest : List String} (health : SinkHealth)
      → judge_health behavior (normalize_sink_name name) health ≡ none
      → Checked behavior rest (health_checked (normalize_sink_name name) (ok health) ∷ past) now
      → Checked behavior (name ∷ rest) past now

-- The admission: nothing without a bridge, and with one an `admitted` receipt that it stored.
pub data Admitted : Option SrsBridge → History → History → Type 0 where
  without_bridge : {past : History} → Admitted none past past
  by_receipt :
      {bridge : SrsBridge} {past : History} (call : AdmissionCall) (ref : String)
      → call.disposition ≡ "admitted"
      → Admitted (some bridge) past (admission_emitted call (ok ref) ∷ past)

module _ (h : Harness) (tool_name : String) (arguments caller : Value) where
  -- What is called from the decision on: the inner handler not at all, or once, after the admission.
  pub data Decided (d : PolicyDecision) (past : History) : History → Type 0 where
    not_called : {now : History} → Quiet past now → Decided d past now
    executed :
        {admitted now : History} (answer : Result Raise Value)
        → is_refusal d.decision ≡ false
        → str_eq d.decision "gate" ≡ false
        → Admitted h.srs_bridge past admitted
        → Quiet (called tool_name arguments caller answer ∷ admitted) now
        → Decided d past now

  -- What a call of the handler calls.
  pub data Governed (past : History) : History → Type 0 where
    kept_out : {now : History} → Quiet past now → Governed past now
    let_through :
        {checked now : History} (health : SinkHealth) (event : EventEnvelope) (ref : String)
        → judge_health (failure_behavior h) "event" health ≡ none
        → event.event_type ≡ "mcp.tool.call.requested"
        → Checked
            (failure_behavior h)
            (effective_required_sinks
              (policy_decision h tool_name arguments caller)
              h.policy_profile)
            (event_written event (ok ref) ∷ health_checked "event" (ok health) ∷ past)
            checked
        → Decided (policy_decision h tool_name arguments caller) checked now
        → Governed past now

pub check_required_sink-passed :
    (sinks : HarnessSinks) (behavior name : String) (s : State)
    → (check_required_sink sinks behavior name s).0 ≡ ok none
    → (health : SinkHealth) × (judge_health behavior (normalize_sink_name name) health ≡ none)
      × ((check_required_sink sinks behavior name s).1.history
          ≡ health_checked (normalize_sink_name name) (ok health) ∷ s.history)
unfolding check_required_sink ◌>>=◌ try ask
check_required_sink-passed sinks behavior name s h =
    elim (Option-cases (sink_by_name sinks (normalize_sink_name name))) [
      | inl e ↦ absurd (ground arith)
      | inr (health, e) ↦ elim (Result-cases (health s.history)) [
        | inl (found, k) ↦ (found, ground arith, ground arith)
        | inr (x, k) ↦ absurd (ground arith)
      ]
    ]

Inner-cases :
    (i : Inner)
    → ((f : History → String → Value → Value → Result Raise Value) × ((i ≡ handles f)
          ⊎ (i ≡ callable f)))
      ⊎ (i ≡ unusable)
Inner-cases (handles f) = inl (f, inl refl)
Inner-cases (callable f) = inl (f, inr refl)
Inner-cases unusable = inr refl

module _ (h : Harness) (tool_name : String) (arguments caller : Value) where
  attempt-history :
      (s : State)
      → ((attempt (call_inner h tool_name arguments caller) s).1.history ≡ s.history)
        ⊎ ((answer : Result Raise Value) × ((attempt
                (call_inner h tool_name arguments caller)
                s).1.history
              ≡ called tool_name arguments caller answer ∷ s.history))
  unfolding attempt call_inner ask
  attempt-history s = elim (Inner-cases h.inner) [
    | inl (f, e) ↦ inr (f s.history tool_name arguments caller, ground arith)
    | inr e ↦ inl (ground arith)
  ]

  Admitted-Quiet :
      {bridge : Option SrsBridge} {past now : History} → Admitted bridge past now → Quiet past now
  Admitted-Quiet without_bridge = nothing
  Admitted-Quiet (by_receipt call ref e) = noted _ refl nothing

  module _ (d : PolicyDecision) where
    pub execute-Decided :
        {past : History} (s : State)
        → is_refusal d.decision ≡ false
        → str_eq d.decision "gate" ≡ false
        → Admitted h.srs_bridge past s.history
        → Decided h tool_name arguments caller d past
            (execute h tool_name d arguments caller s).1.history
    unfolding execute
    execute-Decided {past} s r g a =
        let t : State = (attempt (call_inner h tool_name arguments caller) s).1 in
        let end : (now : History)
            → Quiet t.history now
            → Decided h tool_name arguments caller d past now =
          λ now q. elim (attempt-history s) [
            | inl e ↦ not_called (Quiet-trans (Admitted-Quiet a) (subst (λ z. Quiet z now) e q))
            | inr (answer, e) ↦ executed answer r g a (subst (λ z. Quiet z now) e q)
          ] in
        after_first (λ u. Decided h tool_name arguments caller d past u.history) _ _ s
          (λ v e. end _ (IsQuiet-Quiet (finish-IsQuiet h tool_name d v) t)) (λ x e. end _ nothing)
