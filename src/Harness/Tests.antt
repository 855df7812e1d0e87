-- ===== src/Harness/Tests.antt =====
-- Calls of a handler of dagr_mcp/enforcement_harness.py with concrete collaborators.
use dagr_mcp.Prelude.{String, true, false, ◌≡◌, refl, ◌||◌, none, some, [], ◌∷◌, ok, raised}
use dagr_mcp.Python.{Value, null, str, mapping, end}
use dagr_mcp.Python.Dict.{mem_text}
use dagr_mcp.Python.Text.{codes}
use dagr_mcp.Harness.{
  HarnessConfig, ToolPolicy, PolicyDecision, SinkRequirements, SinkHealth, EventSink, SrsBridge,
  HarnessSinks, handles, Host, Harness, exception, GovernedResult,
}
use dagr_mcp.Harness.Sinks.{effective_required_sinks}
use dagr_mcp.Harness.Policy.{find_policy}
use dagr_mcp.Harness.Run.{wrapped}
use dagr_mcp.Harness.Protocol.{Governed}
use dagr_mcp.Harness.Acts.{
  stable_payload_hash, payload_bytes, dumped_bytes, or_text, sink_by_name, call_inner, ask,
}
use dagr_mcp.Harness.Returns.{is_caught}
use dagr_mcp.Harness.Orderly.{IsOrderly}
use dagr_mcp.Harness.Total.{wrapped-is_ok}
use dagr_mcp.Prelude.{is_ok, arith, subst, Result, Option, Bool}
use dagr_mcp.Harness.{History, Raise, AdmissionCall, OutcomeCall, SinkHealth, SrsBridge}
use dagr_mcp.Harness.Order.{wrapped-Governed}
use dagr_mcp.Harness.Kept.{count_calls, wrapped-unknown}
use dagr_mcp.Harness.Required.{
  names_sink, profile_requires, has_no_duplicate, effective_required_sinks-lem,
}

abbrev reading : ToolPolicy
reading = record {
  tool_name = "read";
  tool_class = "read";
  decision = "allow";
  receipt_required = false;
  review_required = false;
  retention_class = "hash_only";
  required_sinks = "event_sink" ∷ [];
  reason = none;
  gate_timeout_seconds = null;
}

abbrev office : Harness
office = record {
  host = record {
    now = λ past. "2026-01-01T00:00:00Z";
    text_of = λ v. "";
    attribute = λ v name. none;
    dumps = λ v. raised (exception "TypeError");
    encode = λ s. ok (codes s);
    sha256_hex = λ bytes. "00";
  };
  inner = handles (λ past tool_name arguments caller. ok (str tool_name));
  config = record {
    harness_version = "1";
    module_id = "m";
    module_version = "1";
    profile_ref = "profile:1";
    policy_ref = "policy:1";
    adapter_type = "mcp";
    policy_hash = none;
    default_receipt_required = false;
    fail_closed_on_unknown_tool = true;
  };
  sinks = record {
    event = record {
      health = λ past. ok (record { status = "available"; writable = true });
      write_event = λ past event. ok "event:1";
    };
    receipt = none;
    review = none;
    artifact = none;
    lint = none;
  };
  policies = ("read", reading) ∷ [];
  policy_profile = none;
  srs_bridge = some (record {
    emit_admission = λ past call. ok "receipt:1";
    emit_outcome = λ past call. raised (exception "OSError");
  });
}

wrapped-Governed_example :
    Governed office "read"
      (mapping end)
      null
      []
      (wrapped office "read" (mapping end) null []).1.history
wrapped-Governed_example = wrapped-Governed office "read" (mapping end) null []

wrapped-unknown_example :
    count_calls (wrapped office "write" (mapping end) null []).1.history ≡ count_calls []
unfolding find_policy
wrapped-unknown_example = wrapped-unknown office "write" (mapping end) null [] refl refl

-- The call is executed, although its outcome receipt is not stored.
executed : count_calls (wrapped office "read" (mapping end) null []).1.history ≡ 1
unfolding wrapped dagr_mcp.Harness.Acts.◌>>=◌ dagr_mcp.Harness.Acts.try dagr_mcp.Harness.Acts.ask
    dagr_mcp.Harness.Acts.append_event_if_available dagr_mcp.Harness.Acts.or_unavailable
    dagr_mcp.Harness.Acts.call_inner
executed = refl

abbrev strict : SinkRequirements
strict = record {
  event_sink_required = true;
  receipt_sink_required = true;
  artifact_sink_required = false;
  review_object_sink_required = false;
  lint_finding_sink_required = false;
  required_sink_failure_behavior = "fail_closed";
}

abbrev decided : PolicyDecision
decided = record {
  decision = "allow";
  reason = "policy_allow";
  policy_ref = "policy:1";
  required_sinks = "event" ∷ "receipt_sink" ∷ [];
  receipt_required = true;
  review_required = false;
  retention_class = "hash_only";
  attestation_limits = [];
  policy_hash = none;
}

effective_required_sinks-lem_example :
    ((k : String)
      → mem_text k (effective_required_sinks decided (some strict))
        ≡ (names_sink k ("event" ∷ "receipt_sink" ∷ []) || profile_requires k (some strict)))
    × (has_no_duplicate (effective_required_sinks decided (some strict)) ≡ true)
effective_required_sinks-lem_example = effective_required_sinks-lem decided (some strict)

abbrev answers_soundly : Option (History → Result Raise SinkHealth) → History → Bool
answers_soundly none past = true
answers_soundly (some health) past = is_caught (health past)

office_answers :
    (name : String) (past : History) → answers_soundly (sink_by_name office.sinks name) past ≡ true
unfolding sink_by_name
office_answers name past = ground arith

abbrev admits_soundly : AdmissionCall → History → Option SrsBridge → Bool
admits_soundly call past none = true
admits_soundly call past (some bridge) = is_caught (bridge.emit_admission past call)

abbrev reports_soundly : OutcomeCall → History → Option SrsBridge → Bool
reports_soundly call past none = true
reports_soundly call past (some bridge) = is_caught (bridge.emit_outcome past call)

office_hashes : (v : Value) → is_ok (stable_payload_hash office.host v) ≡ true
unfolding stable_payload_hash payload_bytes dumped_bytes or_text
office_hashes v = ground arith

office-IsOrderly : IsOrderly office
unfolding call_inner ask
office-IsOrderly = record {
  healths =
      λ name health past e. subst (λ o. answers_soundly o past ≡ true) e (office_answers name past);
  events = λ past event. refl;
  receipts = λ sink past receipt e. absurd (ground arith);
  reviews = λ sink past row e. absurd (ground arith);
  admissions = λ bridge past call e. subst (λ o. admits_soundly call past o ≡ true) e refl;
  outcomes = λ bridge past call e. subst (λ o. reports_soundly call past o ≡ true) e refl;
  calls = λ tool_name arguments caller s. refl;
  results = λ tool_name arguments caller v s e. office_hashes v;
}

wrapped-is_ok_example : is_ok (wrapped office "read" (mapping end) null []).0 ≡ true
wrapped-is_ok_example =
    wrapped-is_ok office office-IsOrderly "read" (mapping end) null (office_hashes (mapping end)) []
