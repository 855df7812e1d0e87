-- ===== src/Deferred/Defer.antt =====
-- `DeferredBoundary.defer_call` of dagr_mcp/deferred_boundary.py, with the part of
-- `build_tool_call_disposition_review_object` (dagr_mcp/tool_call_disposition.py) that can fail.
use dagr_mcp.Prelude.{
  ℕ, suc, String, Option, none, some, List, [], ◌∷◌, ◌++◌, Result, ok, raised, ◌>>=◌, ◌>>◌,
  raise_if, str_eq, if◌then◌else◌,
}
use dagr_mcp.Python.{Value, null, integer, mapping, pos}
use dagr_mcp.Python.Text.{codes, is_blank, strip}
use dagr_mcp.Review.Decision.{
  ToolCallDispositionError, empty_tool_name, empty_tool_class, gate_timeout_not_positive,
}
use dagr_mcp.Deferred.{
  pending, DeferredSlot, DeferralResult, DeferredError, arguments_not_mapping, review_object_sink,
  disposition, Event, call_deferred, ReviewObject, ReceiptRequest, deferred_admission, Effects,
  Surroundings, Boundary,
}
use dagr_mcp.Deferred.Slots.{insert}

-- `if ref:` on an optional text.
abbrev pub truthy : Option String → List String
truthy none = []
truthy (some ref) = if str_eq ref "" then [] else ref ∷ []

abbrev pub noted : Effects → Event → Effects
noted fx e = record fx { events = fx.events ++ (e ∷ []) }

-- `now_utc_iso()`: the time of the clock, whose text keeps the microseconds.
unfoldable pub now_utc_iso : ℕ → ℕ
now_utc_iso now = now

-- The check of `gate_timeout_seconds` in `validate_tool_call_disposition_payload`.
unfoldable pub check_gate_timeout : Value → Result ToolCallDispositionError (Option ℕ)
check_gate_timeout null = ok none
check_gate_timeout (integer (pos (suc n))) = ok (some (suc n))
check_gate_timeout _ = raised gate_timeout_not_positive

unfoldable pub build_review_object :
    String → String → ℕ → Value → String → ℕ → Result ToolCallDispositionError ReviewObject
unfolding check_gate_timeout strip
build_review_object tool_name tool_class argument_hash gate_timeout profile_ref created_at = do
  raise_if (is_blank tool_name) empty_tool_name
  raise_if (is_blank tool_class) empty_tool_class
  timeout ← check_gate_timeout gate_timeout
  ok (record {
    tool_name = strip (codes tool_name);
    tool_class = strip (codes tool_class);
    argument_hash = argument_hash;
    gate_timeout_seconds = timeout;
    profile_ref = profile_ref;
    created_at = created_at;
  })

-- An emission in a `try` whose `except` passes: what was asked, and the reference got.
abbrev pub emit :
    Option (List ReceiptRequest → ReceiptRequest → Option String)
    → Option String
    → ReceiptRequest
    → Effects
    → Option String × Effects
emit none context request fx = (none, fx)
emit (some bridge) none request fx = (none, fx)
emit (some bridge) (some context) request fx =
    (bridge fx.receipts request, record fx { receipts = fx.receipts ++ (request ∷ []) })

-- The arguments of `defer_call`. `fresh` is the text after `deferred:` that `uuid4` gives, and
-- `harness_context` stands by a name.
pub record DeferCall : Type 0 where
  pub fresh : String
  pub now : ℕ
  pub tool_name : String
  pub arguments : Value
  pub tool_class : String
  pub gate_timeout_seconds : Value
  pub harness_context : Option String

module _ (env : Surroundings) (c : DeferCall) (b : Boundary) where
  -- `DeferredSlot(…)`, with the receipt and the event references that are set later.
  unfoldable pub new_slot : ℕ → Option ℕ → String → Option String → List String → DeferredSlot
  unfolding now_utc_iso
  new_slot argument_digest timeout review_object_ref receipt event_refs = record {
    correlation_ref = c.fresh;
    tool_name = c.tool_name;
    tool_class = c.tool_class;
    profile_ref = env.profile_ref;
    argument_digest = argument_digest;
    created_at = now_utc_iso c.now;
    state = pending;
    review_object_ref = some review_object_ref;
    gate_timeout_seconds = timeout;
    admission_receipt_ref = receipt;
    outcome_receipt_ref = none;
    result = none;
    failure_reason = none;
    final_decision = none;
    event_refs = event_refs;
  }

  -- The slot, the event, the receipt and the registration, once the sink has taken the row.
  unfoldable pub register :
      ℕ → Option ℕ → String → Effects → Boundary × Result DeferredError DeferralResult
  unfolding new_slot
  register argument_digest timeout review_object_ref fx =
      let event = call_deferred c.tool_name argument_digest c.fresh review_object_ref in
      let event_refs = truthy (env.write_event fx.events event) in
      let (receipt, after) =
        emit env.srs_bridge c.harness_context
          (deferred_admission c.tool_name review_object_ref "retry_after_approval")
          (noted fx event) in
      let slot = new_slot argument_digest timeout review_object_ref receipt event_refs in
      (
        record { slots = insert c.fresh slot b.slots; effects = after },
        ok (record {
          correlation_ref = c.fresh;
          review_object_ref = review_object_ref;
          argument_digest = argument_digest;
          admission_receipt_ref = receipt;
          event_refs = event_refs;
        }),
      )

  -- `self._review_sink.create_review_object(review_object)`
  unfoldable pub create : ReviewObject → Boundary × Result DeferredError DeferralResult
  unfolding register
  create row =
      let fx : Effects = record b.effects {
        review_objects = b.effects.review_objects ++ (row ∷ []);
      } in
      elim (env.create_review_object b.effects.review_objects row) [
        | none ↦ (record b { effects = fx }, raised review_object_sink)
        | some ref ↦ register row.argument_hash row.gate_timeout_seconds ref fx
      ]

  unfoldable pub defer_arguments : Value → Boundary × Result DeferredError DeferralResult
  unfolding build_review_object create now_utc_iso
  defer_arguments (mapping arguments) =
      elim (build_review_object c.tool_name c.tool_class (env.payload_digest arguments)
        c.gate_timeout_seconds env.profile_ref (now_utc_iso c.now)) [
          | raised e ↦ (b, raised (disposition e))
          | ok row ↦ create row
        ]
  defer_arguments _ = (b, raised arguments_not_mapping)

  unfoldable pub defer_call : Boundary × Result DeferredError DeferralResult
  unfolding defer_arguments
  defer_call = defer_arguments c.arguments
