-- ===== src/Harness/Orderly.antt =====
-- When `wrapped` of dagr_mcp/enforcement_harness.py returns a result.
use dagr_mcp.Prelude.{
  String, Bool, true, false, arith, is_ok, ◌≡◌, Option, some, List, [], ◌∷◌, Result, ok, raised,
}
use dagr_mcp.Python.{Value, mapping, Fields}
use dagr_mcp.Harness.Disposition.{
  BuildError, not_built, escaped, ToolCallDispositionInput, hash_tool_call_arguments,
  build_tool_call_disposition_review_object,
}
use dagr_mcp.Harness.{
  ToolPolicy, PolicyDecision, HarnessContext, SinkHealth, EventEnvelope, ReceiptEnvelope,
  ReviewObject, ReviewObjectSink, ReceiptSink, SrsBridge, AdmissionCall, OutcomeCall, Raise,
  History, Host, Harness, State,
}
use dagr_mcp.Harness.Acts.{
  Act, ◌>>=◌, ◌>>◌, context, ask, sink_by_name, check_required_sink, check_effective_required_sinks,
  safe_write_event, append_event_if_available, call_inner, stable_payload_hash,
}
use dagr_mcp.Harness.Sinks.{normalize_sink_name}
use dagr_mcp.Harness.Receipt.{write_receipt}
use dagr_mcp.Harness.Gate.{
  emit_admission, emit_refusal, try_refusal, set_admission, add_receipts, gate_receipt, gate_event,
  gate_routed, gate_create, gate_built, gate_call, disposition_input,
}
use dagr_mcp.Harness.Returns.{
  Caught, caught_at, ask-Caught, ask-Passed, Returns, returns, Returns-ok, is_caught, is_passed,
  pure-Returns, context-Returns, set_context-Returns, fail_with-Returns, >>=-Returns, try-Returns,
  or_unavailable-Returns, option-Returns, if-Returns,
}

-- The event sink and the receipt sink raise nothing but `SinkUnavailableError` where they write,
-- no collaborator raises a `BaseException` that is no `Exception`, and what the inner handler returns
-- has a payload hash.
pub record IsOrderly (h : Harness) : Type 0 where
  pub healths :
      (name : String) (health : History → Result Raise SinkHealth) (past : History)
      → sink_by_name h.sinks name ≡ some health
      → is_caught (health past) ≡ true
  pub events :
      (past : History) (event : EventEnvelope)
      → is_passed (h.sinks.event.write_event past event) ≡ true
  pub receipts :
      (sink : ReceiptSink) (past : History) (receipt : ReceiptEnvelope)
      → h.sinks.receipt ≡ some sink
      → is_passed (sink.write_receipt past receipt) ≡ true
  pub reviews :
      (sink : ReviewObjectSink) (past : History) (row : ReviewObject)
      → h.sinks.review ≡ some sink
      → is_caught (sink.create_review_object past row) ≡ true
  pub admissions :
      (bridge : SrsBridge) (past : History) (call : AdmissionCall)
      → h.srs_bridge ≡ some bridge
      → is_caught (bridge.emit_admission past call) ≡ true
  pub outcomes :
      (bridge : SrsBridge) (past : History) (call : OutcomeCall)
      → h.srs_bridge ≡ some bridge
      → is_caught (bridge.emit_outcome past call) ≡ true
  pub calls :
      (tool_name : String) (arguments caller : Value) (s : State)
      → is_caught (call_inner h tool_name arguments caller s).0 ≡ true
  pub results :
      (tool_name : String) (arguments caller v : Value) (s : State)
      → (call_inner h tool_name arguments caller s).0 ≡ ok v
      → is_ok (stable_payload_hash h.host v) ≡ true

-- The row is built, or refused by a `ToolCallDispositionError`.
abbrev is_contained : Result BuildError ReviewObject → Bool
is_contained (ok row) = true
is_contained (raised (not_built e)) = true
is_contained (raised (escaped e)) = false

hash-contained :
    (host : Host) (arguments : Fields)
    → is_ok (stable_payload_hash host (mapping arguments)) ≡ true
    → is_ok (hash_tool_call_arguments host arguments) ≡ true
unfolding hash_tool_call_arguments
hash-contained host arguments h = ground arith

build-contained :
    (host : Host) (now : String) (inp : ToolCallDispositionInput)
    → is_ok (stable_payload_hash host (mapping inp.arguments)) ≡ true
    → is_contained (build_tool_call_disposition_review_object host now inp) ≡ true
unfolding build_tool_call_disposition_review_object
build-contained host now inp h = let k = hash-contained host inp.arguments h in ground arith

module _ (h : Harness) (o : IsOrderly h) where
  pub check_required_sink-Returns :
      (behavior name : String) → Returns (check_required_sink h.sinks behavior name)
  unfolding check_required_sink
  check_required_sink-Returns behavior name =
      option-Returns (sink_by_name h.sinks (normalize_sink_name name)) (pure-Returns _) (λ health e.
        >>=-Returns
          (try-Returns
            (ask-Caught _ _ (λ past. o.healths (normalize_sink_name name) health past e)))
          (λ answer. option-Returns answer (pure-Returns _) (λ found k.
            >>=-Returns context-Returns
              (λ c. >>=-Returns (set_context-Returns _) (λ _. pure-Returns _)))))

  pub check_effective_required_sinks-Returns :
      (behavior : String) (names : List String)
      → Returns (check_effective_required_sinks h.sinks behavior names)
  unfolding check_effective_required_sinks
  check_effective_required_sinks-Returns behavior [] = pure-Returns _
  check_effective_required_sinks-Returns behavior (name ∷ rest) =
      >>=-Returns (check_required_sink-Returns behavior name) (λ failure.
        option-Returns failure (check_effective_required_sinks-Returns behavior rest)
          (λ _ k. pure-Returns _))

  safe_write_event-Returns :
      (event_type : String) (detail : Fields) → Returns (safe_write_event h event_type detail)
  unfolding safe_write_event
  safe_write_event-Returns event_type detail =
      returns
        (λ s. Returns-ok (or_unavailable-Returns (ask-Passed _ _ (λ past. o.events past _))) s)

  pub append_event_if_available-Returns :
      (event_type : String) (detail : Fields)
      → Returns (append_event_if_available h event_type detail)
  unfolding append_event_if_available
  append_event_if_available-Returns event_type detail =
      >>=-Returns (safe_write_event-Returns event_type detail) (λ event_ref.
        option-Returns event_ref (pure-Returns _) (λ ref k.
          >>=-Returns context-Returns
            (λ c. >>=-Returns (set_context-Returns _) (λ _. pure-Returns _))))

  pub event-Returns :
      {B : Type 0} (event_type : String) (detail : HarnessContext → Fields) {k : Act B}
      → Returns k
      → Returns (context >>= λ c. append_event_if_available h event_type (detail c) >> k)
  event-Returns event_type detail p =
      >>=-Returns context-Returns
        (λ c. >>=-Returns (append_event_if_available-Returns event_type (detail c)) (λ _. p))

  pub set_admission-Returns : (ref : String) → Returns (set_admission ref)
  set_admission-Returns ref = >>=-Returns context-Returns (λ c. set_context-Returns _)

  pub add_receipts-Returns : (refs : List String) → Returns (add_receipts refs)
  add_receipts-Returns refs = >>=-Returns context-Returns (λ c. set_context-Returns _)

  pub write_receipt-Returns :
      (d : PolicyDecision) (tool_name : String) → Returns (write_receipt h d tool_name)
  unfolding write_receipt
  write_receipt-Returns d tool_name = option-Returns h.sinks.receipt (pure-Returns _) (λ sink e.
      returns (λ s.
        Returns-ok (or_unavailable-Returns (ask-Passed _ _ (λ past. o.receipts sink past _ e))) s))

  pub emit_admission-Caught :
      (bridge : SrsBridge) (tool_name disposition : String) (a b c : Option String)
      → h.srs_bridge ≡ some bridge
      → Caught (emit_admission bridge tool_name disposition a b c)
  unfolding emit_admission ◌>>=◌ ask
  emit_admission-Caught bridge tool_name disposition a b c e =
      caught_at (λ s. o.admissions bridge s.history _ e)

  pub emit_refusal-Returns :
      (bridge : SrsBridge) (tool_name reason : String)
      → h.srs_bridge ≡ some bridge
      → Returns (emit_refusal bridge tool_name reason)
  unfolding emit_refusal
  emit_refusal-Returns bridge tool_name reason e =
      >>=-Returns (try-Returns (emit_admission-Caught bridge tool_name "refused" _ _ _ e))
        (λ answer.
          option-Returns answer (pure-Returns _)
            (λ ref k. >>=-Returns (set_admission-Returns ref) (λ _. pure-Returns _)))

  module _ (tool_name : String) where
    pub try_refusal-Returns : (reason : String) → Returns (try_refusal h tool_name reason)
    unfolding try_refusal
    try_refusal-Returns reason = option-Returns h.srs_bridge (pure-Returns _) (λ bridge e.
        >>=-Returns (emit_refusal-Returns bridge tool_name reason e) (λ _. pure-Returns _))

    gate_receipt-Returns : (d : PolicyDecision) → Returns (gate_receipt h tool_name d)
    unfolding gate_receipt
    gate_receipt-Returns d =
        if-Returns d.receipt_required
          (>>=-Returns (write_receipt-Returns d tool_name) (λ receipt_ref.
            option-Returns receipt_ref (fail_with-Returns _ _)
              (λ ref k. >>=-Returns (add_receipts-Returns _) (λ _. fail_with-Returns _ _))))
          (fail_with-Returns _ _)

    gate_event-Returns :
        (d : PolicyDecision) (ref : String) → Returns (gate_event h tool_name d ref)
    unfolding gate_event
    gate_event-Returns d ref = event-Returns _ _ (gate_receipt-Returns d)

    gate_routed-Returns :
        (d : PolicyDecision) (ref : String) → Returns (gate_routed h tool_name d ref)
    unfolding gate_routed
    gate_routed-Returns d ref =
        >>=-Returns (>>=-Returns context-Returns (λ c. set_context-Returns _)) (λ _.
          option-Returns h.srs_bridge (gate_event-Returns d ref) (λ bridge e.
            >>=-Returns (try-Returns (emit_admission-Caught bridge tool_name _ _ _ _ e)) (λ answer.
              option-Returns answer (fail_with-Returns _ _) (λ receipt k.
                >>=-Returns (>>=-Returns (set_admission-Returns _) (λ _. add_receipts-Returns _))
                  (λ _. gate_event-Returns d ref)))))

    gate_create-Returns :
        (sink : ReviewObjectSink) (d : PolicyDecision) (row : ReviewObject)
        → h.sinks.review ≡ some sink
        → Returns (gate_create h tool_name sink d row)
    unfolding gate_create
    gate_create-Returns sink d row e =
        >>=-Returns (try-Returns (ask-Caught _ _ (λ past. o.reviews sink past row e))) (λ answer.
          option-Returns answer (>>=-Returns (try_refusal-Returns _) (λ _. fail_with-Returns _ _))
            (λ ref k. gate_routed-Returns d ref))

    gate_built-Returns :
        (sink : ReviewObjectSink) (d : PolicyDecision) (built : Result BuildError ReviewObject)
        → is_contained built ≡ true
        → h.sinks.review ≡ some sink
        → Returns (gate_built h tool_name sink d built)
    unfolding gate_built
    gate_built-Returns sink d (raised (not_built x)) c e = fail_with-Returns _ _
    gate_built-Returns sink d (raised (escaped x)) c e = absurd cc
    gate_built-Returns sink d (ok row) c e = gate_create-Returns sink d row e

    pub gate_call-Returns :
        (arguments : Fields) (d : PolicyDecision) (policy : Option ToolPolicy)
        → is_ok (stable_payload_hash h.host (mapping arguments)) ≡ true
        → Returns (gate_call h tool_name arguments d policy)
    unfolding gate_call
    gate_call-Returns arguments d policy hashed =
        option-Returns h.sinks.review
          (>>=-Returns (try_refusal-Returns _) (λ _. fail_with-Returns _ _))
          (λ sink e. returns (λ s.
            Returns-ok
              (gate_built-Returns sink d _
                (build-contained h.host (h.host.now s.history)
                  (disposition_input h tool_name s.context arguments d policy) hashed)
                e)
              s))
