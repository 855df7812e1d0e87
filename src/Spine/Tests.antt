-- ===== src/Spine/Tests.antt =====
-- The in-memory review sink on a concrete object.
use dagr_mcp.Prelude.{String, ◌≡◌, refl, false, none, some, List, [], ◌∷◌, ok, str_eq}
use dagr_mcp.Python.{null, str, end}
use dagr_mcp.Python.Text.{strip}
use dagr_mcp.Python.Decimal.{decimal}
use dagr_mcp.Review.{normalize_review_decision_outcome, outcome_of_key, ReviewOutcome}
use dagr_mcp.Review.Decision.{ReviewDecision, malformed}
use dagr_mcp.Spine.{ReviewObject, ReviewSink}
use dagr_mcp.Spine.State.{normalize_review_object_state, state_of_key}
use dagr_mcp.Spine.Sink.{
  find, assign, maybe_assign_ref, review_ref, new, keep, create_review_object, outcome_text, decide,
  record_decision, select, list_pending,
}
use dagr_mcp.Spine.Decided.{
  Operation, create, after, run, has_id, list_pending-record_decision, record_decision-kept,
}

abbrev object : ReviewObject
object = record {
  review_object_type = "tool_call_disposition";
  governance_state = str " In_Review ";
  context_payload = end;
  allowed_actions = [];
  created_at = "2026-01-01T00:00:00Z";
  review_object_id = none;
  origin_event_id = none;
}

abbrev decision : ReviewDecision
decision = record {
  decision = str "Deferred";
  review_object_id = "review:1";
  decided_at = malformed;
  actor_ref = none;
  reason = null;
  detail = null;
}

abbrev created : ReviewSink
created = (create_review_object object new).1

decimal_example : decimal 120 ≡ "120"
unfolding decimal
decimal_example = refl

create_runs : (create_review_object object new).0 ≡ ok "review:1"
unfolding create_review_object keep review_ref assign maybe_assign_ref decimal
    normalize_review_object_state state_of_key strip
create_runs = refl

decision_runs : (record_decision "review:1" decision created).0 ≡ ok "decision:1"
unfolding create_review_object keep review_ref assign maybe_assign_ref decimal find record_decision
    decide normalize_review_object_state state_of_key strip normalize_review_decision_outcome
    outcome_of_key
decision_runs = refl

-- The decision was to defer, and the object with its id is created again.
abbrev again : List Operation
again = create (record object { review_object_id = some "review:1" }) ∷ []

abbrev decided : ReviewSink
decided = (record_decision "review:1" decision created).1

lists_nothing : list_pending none (run again decided) ≡ ok []
unfolding create_review_object keep review_ref assign maybe_assign_ref decimal find record_decision
    decide normalize_review_object_state state_of_key strip normalize_review_decision_outcome
    outcome_of_key list_pending select run after
lists_nothing = refl

list_pending-record_decision_example : has_id "review:1" [] ≡ false
list_pending-record_decision_example =
    list_pending-record_decision "review:1" decision created again none decision_runs lists_nothing

record_decision-kept_example :
    (o : ReviewObject) × (outcome : ReviewOutcome) × (find "review:1" created.review_objects
      ≡ some o)
    × (decision.review_object_id ≡ "review:1")
    × (normalize_review_decision_outcome (str "Deferred") ≡ ok outcome)
    × (find "decision:1" decided.decisions
        ≡ some (record decision { decision = str (outcome_text outcome) }))
    × (find "review:1" decided.review_objects
        ≡ some (record o { governance_state = str (outcome_text outcome) }))
    × ((key : String)
        → str_eq "review:1" key ≡ false
        → find key decided.review_objects ≡ find key created.review_objects)
record_decision-kept_example = record_decision-kept "review:1" decision created decision_runs
