-- ===== src/Harness/Acts.antt =====
-- The calls of the collaborators of dagr_mcp/enforcement_harness.py, in the order they are made:
-- `_sink_by_name`, `_check_required_sink`, `_safe_write_event`, `_append_event_if_available` and
-- `_call_inner`, and `stable_payload_hash` of dagr_mcp/sdk_spine.py.
use Prim.Native.String.{◌++◌ as text_append}
use dagr_mcp.Prelude.{
  ℕ, String, ◌&&◌, Option, none, some, List, [], ◌∷◌, ◌++◌, Result, ok, raised, str_eq,
  if◌then◌else◌,
}
use dagr_mcp.Python.{Value, null, str, Fields}
use dagr_mcp.Python.Dict.{mem_text}
use dagr_mcp.Python.Text.{codes}
use dagr_mcp.Harness.{
  SinkHealth, EventEnvelope, HarnessContext, Raise, sink_unavailable, exception, base, Effect,
  health_checked, event_written, called, History, handles, callable, unusable, Host, Harness,
  HarnessSinks, State,
}
use dagr_mcp.Harness.Sinks.{normalize_sink_name, sink_failure_reason}

-- Code that changes the state, and returns or raises.
abbrev pub Act : Type 0 → Type 0
Act A = State → Result Raise A × State

abbrev pub pure : {A : Type 0} → A → Act A
pure a s = (ok a, s)

infixl 5 ◌>>=◌ ◌>>◌
unfoldable pub ◌>>=◌ : {A B : Type 0} → Act A → (A → Act B) → Act B
(m >>= f) s = elim (m s).0 [ ok a ↦ f a (m s).1 | raised e ↦ (raised e, (m s).1) ]

abbrev pub ◌>>◌ : {A B : Type 0} → Act A → Act B → Act B
m >> k = m >>= λ _. k

-- The state as it is, and a change of the context.
abbrev pub context : Act HarnessContext
context s = (ok s.context, s)

abbrev pub set_context : HarnessContext → Act (Unit {0})
set_context c s = (ok tt, record s { context = c })

-- `try: … except Exception: …`, where a `BaseException` passes.
unfoldable pub try : {A : Type 0} → Act A → Act (Option A)
try m s = elim (m s).0 [
  | ok a ↦ (ok (some a), (m s).1)
  | raised e ↦ elim e [ base class ↦ (raised (base class), (m s).1) | _ ↦ (ok none, (m s).1) ]
]

-- `try: … except SinkUnavailableError: return None`
unfoldable pub or_unavailable : {A : Type 0} → Act A → Act (Option A)
or_unavailable m s = elim (m s).0 [
  | ok a ↦ (ok (some a), (m s).1)
  | raised e ↦ elim e [
    | sink_unavailable ↦ (ok none, (m s).1)
    | exception class ↦ (raised (exception class), (m s).1)
    | base class ↦ (raised (base class), (m s).1)
  ]
]

-- A call of a collaborator: what it answers is noted.
unfoldable pub ask : {A : Type 0} → (History → Result Raise A) → (Result Raise A → Effect) → Act A
ask answer effect s = let a = answer s.history in (a, record s { history = effect a ∷ s.history })

-- What is computed without the state, and may raise.
unfoldable pub lift : {A : Type 0} → Result Raise A → Act A
lift r s = (r, s)

-- `json.dumps(…).encode("utf-8")`
unfoldable pub dumped_bytes : Host → Value → Result Raise (List ℕ)
dumped_bytes host payload = elim (host.dumps payload) [
  | ok text ↦ host.encode text
  | raised e ↦ raised e
]

-- `except TypeError: payload_bytes = str(payload).encode("utf-8")`; any other exception passes.
unfoldable pub or_text : Host → Value → Result Raise (List ℕ) → Result Raise (List ℕ)
or_text host payload (ok bytes) = ok bytes
or_text host payload (raised (exception class)) =
    if str_eq class "TypeError"
    then host.encode (host.text_of payload)
    else raised (exception class)
or_text host payload (raised e) = raised e

-- The bytes of `stable_payload_hash`, of a payload that is no `bytes`.
unfoldable pub payload_bytes : Host → Value → Result Raise (List ℕ)
unfolding dumped_bytes or_text
payload_bytes host (str text) = host.encode text
payload_bytes host null = ok (codes "null")
payload_bytes host payload = or_text host payload (dumped_bytes host payload)

unfoldable pub stable_payload_hash : Host → Value → Result Raise String
unfolding payload_bytes
stable_payload_hash host payload = elim (payload_bytes host payload) [
  | ok bytes ↦ ok (text_append "sha256:" (host.sha256_hex bytes))
  | raised e ↦ raised e
]

-- The tests of `_check_required_sink` on the health that it got.
unfoldable pub judge_health : String → String → SinkHealth → Option String
unfolding sink_failure_reason
judge_health failure_behavior normalized health =
    if str_eq health.status "available" && health.writable
    then none
    else if str_eq health.status "degraded"
    then if mem_text failure_behavior ("degraded" ∷ "advisory" ∷ []) && health.writable
      then none
      else some (text_append normalized "_sink_degraded")
    else some (sink_failure_reason normalized)

-- `snapshot[normalized] = health`
unfoldable pub take_snapshot :
    List (String × SinkHealth) → String → SinkHealth → List (String × SinkHealth)
take_snapshot [] name health = (name, health) ∷ []
take_snapshot (entry ∷ rest) name health =
    if str_eq entry.0 name then (name, health) ∷ rest else entry ∷ take_snapshot rest name health

module _ (sinks : HarnessSinks) where
  -- `_sink_by_name`, and the method `health` of what it finds.
  unfoldable pub sink_by_name : String → Option (History → Result Raise SinkHealth)
  sink_by_name sink_name =
      if str_eq sink_name "event"
      then some sinks.event.health
      else if str_eq sink_name "receipt"
      then elim sinks.receipt [ none ↦ none | some sink ↦ some sink.health ]
      else if str_eq sink_name "review"
      then elim sinks.review [ none ↦ none | some sink ↦ some sink.health ]
      else if str_eq sink_name "artifact"
      then elim sinks.artifact [ none ↦ none | some sink ↦ some sink.health ]
      else if mem_text sink_name ("lint" ∷ "lint_finding" ∷ [])
      then elim sinks.lint [ none ↦ none | some sink ↦ some sink.health ]
      else none

  unfoldable pub check_required_sink : String → String → Act (Option String)
  unfolding sink_by_name normalize_sink_name judge_health sink_failure_reason take_snapshot
  check_required_sink failure_behavior sink_name =
      let normalized = normalize_sink_name sink_name in
      elim (sink_by_name normalized) [
        | none ↦ pure (some (sink_failure_reason normalized))
        | some health ↦ try (ask health (health_checked normalized)) >>= λ answer. elim answer [
          | none ↦ pure (some (sink_failure_reason normalized))
          | some h ↦ context >>= λ c.
              set_context (record c {
                sink_health_snapshot = take_snapshot c.sink_health_snapshot normalized h;
              })
              >> pure (judge_health failure_behavior normalized h)
        ]
      ]

  unfoldable pub check_effective_required_sinks : String → List String → Act (Option String)
  unfolding check_required_sink
  check_effective_required_sinks failure_behavior [] = pure none
  check_effective_required_sinks failure_behavior (sink_name ∷ rest) =
      check_required_sink failure_behavior sink_name >>= λ failure. elim failure [
        | some reason ↦ pure (some reason)
        | none ↦ check_effective_required_sinks failure_behavior rest
      ]

-- `a or b` on optional texts.
abbrev pub or_else : Option String → Option String → Option String
or_else none b = b
or_else (some a) b = if str_eq a "" then b else some a

module _ (h : Harness) where
  -- The envelope of `_safe_write_event`.
  unfoldable pub event_envelope : State → String → Fields → EventEnvelope
  event_envelope s event_type detail = record {
    event_type = event_type;
    occurred_at = h.host.now s.history;
    subject_ref = or_else s.context.session_ref s.context.request_ref;
    actor_ref = s.context.actor_ref;
    policy_ref = h.config.policy_ref;
    detail = detail;
    lineage_refs = s.context.event_chain_refs;
  }

  unfoldable pub safe_write_event : String → Fields → Act (Option String)
  unfolding event_envelope
  safe_write_event event_type detail s =
      let event = event_envelope s event_type detail in
      or_unavailable (ask (λ past. h.sinks.event.write_event past event) (event_written event)) s

  abbrev chain : String → HarnessContext → HarnessContext
  chain ref c = record c { event_chain_refs = c.event_chain_refs ++ (ref ∷ []) }

  unfoldable pub append_event_if_available : String → Fields → Act (Option String)
  unfolding safe_write_event
  append_event_if_available event_type detail = safe_write_event event_type detail >>= λ event_ref.
      elim event_ref [
        | none ↦ pure none
        | some ref ↦ context >>= λ c. set_context (chain ref c) >> pure (some ref)
      ]

  -- `_call_inner`
  unfoldable pub call_inner : String → Value → Value → Act Value
  call_inner tool_name arguments caller = elim h.inner [
    | handles f ↦
        ask (λ past. f past tool_name arguments caller) (called tool_name arguments caller)
    | callable f ↦
        ask (λ past. f past tool_name arguments caller) (called tool_name arguments caller)
    | unusable ↦ λ s. (raised (exception "TypeError"), s)
  ]
