-- ===== src/Deferred/Deferral.antt =====
-- What `defer_call` of dagr_mcp/deferred_boundary.py does, on every branch.
use dagr_mcp.Prelude.{ℕ, ◌≡◌, Bool, true, false, Option, none, some, ok, raised, arith}
use dagr_mcp.Python.{Value, integer, mapping, pos}
use dagr_mcp.Deferred.{DeferralResult, DeferredError, Surroundings, Boundary}
use dagr_mcp.Deferred.Frame.{presented}
use dagr_mcp.Deferred.Slots.{insert}
use dagr_mcp.Deferred.Defer.{DeferCall, defer_call, new_slot}

-- The timeout that an accepted `gate_timeout_seconds` sets.
abbrev pub timeout_of : Value → Option ℕ
timeout_of (integer (pos n)) = some n
timeout_of _ = none

abbrev pub is_mapping : Value → Bool
is_mapping (mapping arguments) = true
is_mapping _ = false

module _ (env : Surroundings) (c : DeferCall) (b : Boundary) where
  -- A deferral calls no inner handler, whatever its outcome.
  pub calls-defer_call : (defer_call env c b).0.effects.calls ≡ b.effects.calls
  unfolding defer_call
  calls-defer_call = ground arith

  -- A deferral that raises registers no slot.
  pub slots-defer_call_raised :
      {e : DeferredError}
      → (defer_call env c b).1 ≡ raised e
      → (defer_call env c b).0.slots ≡ b.slots
  unfolding defer_call
  slots-defer_call_raised h = ground arith

  -- A deferral that returns registers exactly the slot that its result describes, under its fresh
  -- reference: pending, with no decision on record, with the digest of the arguments, the time of
  -- the clock, and the timeout of the call.
  pub slots-defer_call :
      {r : DeferralResult}
      → (defer_call env c b).1 ≡ ok r
      → ((defer_call env c b).0.slots
          ≡ insert c.fresh
              (new_slot env c b r.argument_digest
                (timeout_of c.gate_timeout_seconds)
                r.review_object_ref
                r.admission_receipt_ref
                r.event_refs)
              b.slots)
        × (r.correlation_ref ≡ c.fresh)
        × (c.arguments ≡ mapping (presented c.arguments))
        × (r.argument_digest ≡ env.payload_digest (presented c.arguments))
  unfolding defer_call
  slots-defer_call h = ground arith
