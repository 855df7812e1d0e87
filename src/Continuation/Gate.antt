-- ===== src/Continuation/Gate.antt =====
-- The gates of dagr_mcp_continuation/__init__.py, alone and behind the lifecycle planner.
use dagr_mcp.Prelude.{
  ◌≡◌, refl, ◌≢◌, ◌↔◌, ◌⊎◌, inl, inr, Bool-cases, true, false, ◌&&◌, ◌||◌, String, Option, ok,
  raised, is_ok, arith, eq_iff,
}
use dagr_mcp.Python.{Value, boolean, integer, str, ℤ}
use dagr_mcp.Python.Text.{is_blank}
use dagr_mcp.Lifecycle.{InputRequiredMode, continuable, AdmissionRequest, AdmissionPlan}
use dagr_mcp.Lifecycle.Vocabulary.{admission_before_execution_required}
use dagr_mcp.Lifecycle.Plan.{plan_admission}
use dagr_mcp.Lifecycle.Admission.{is_admitted, plan_admission-execution}
use dagr_mcp.Continuation.{
  ContinuationIdentity, NeutralContinuation, new_identity, build_neutral_continuation, is_below_one,
  require_text, require_round, not_text, round_not_int, round_below_one, is_present,
}

-- What the contract allows of an identity.
pub record IsAllowed (i : ContinuationIdentity) : Type 0 where
  pub interaction_text : is_blank i.interaction_id ≡ false
  pub request_text : is_blank i.request_id ≡ false
  pub parent_text : is_blank i.parent_request_id ≡ false
  pub fresh_interaction : i.interaction_id ≢ i.request_id
  pub fresh_request : i.request_id ≢ i.parent_request_id
  pub round_from_one : is_below_one i.round_number ≡ false

require_text-cases :
    (name : String) (v : Value)
    → (require_text name v ≡ raised (not_text name))
      ⊎ ((s : String) × (v ≡ str s) × (is_blank s ≡ false) × (require_text name v ≡ ok s))
unfolding require_text
require_text-cases name (str s) = elim (Bool-cases (is_blank s)) [
  | inl e ↦ inl (rw e)
  | inr e ↦ inr (s, refl, e, rw e)
]
require_text-cases name _ = inl refl

require_round-cases :
    (v : Value)
    → (require_round v ≡ raised round_not_int)
      ⊎ (require_round v ≡ raised round_below_one)
      ⊎ ((n : ℤ) × (v ≡ integer n) × (is_below_one n ≡ false) × (require_round v ≡ ok n))
unfolding require_round
require_round-cases (integer n) = elim (Bool-cases (is_below_one n)) [
  | inl e ↦ inr (inl (rw e))
  | inr e ↦ inr (inr (n, refl, e, rw e))
]
require_round-cases (boolean b) = inl refl
require_round-cases _ = inl refl

-- The identity that a caller gets is the one it supplied, and it is one the contract allows: three
-- texts that are not blank, a request that is neither its interaction nor its parent, and a round
-- from 1 on.
pub new_identity-IsAllowed :
    (a b c n : Value) {i : ContinuationIdentity}
    → new_identity a b c n ≡ ok i
    → (a ≡ str i.interaction_id)
      × (b ≡ str i.request_id)
      × (c ≡ str i.parent_request_id)
      × (n ≡ integer i.round_number)
      × IsAllowed i
unfolding new_identity
new_identity-IsAllowed a b c n {i} h = ground (
  arith,
  require_text-cases "interaction_id" a,
  require_text-cases "request_id" b,
  require_text-cases "parent_request_id" c,
  require_round-cases n,
  eq_iff i.interaction_id i.request_id,
  eq_iff i.request_id i.parent_request_id,
)

-- The other way round: whatever the contract allows is accepted as it is.
pub new_identity-accepts :
    (i : ContinuationIdentity)
    → IsAllowed i
    → new_identity
        (str i.interaction_id)
        (str i.request_id)
        (str i.parent_request_id)
        (integer i.round_number)
      ≡ ok i
unfolding new_identity require_text require_round
new_identity-accepts i v =
    ground (arith, eq_iff i.interaction_id i.request_id, eq_iff i.request_id i.parent_request_id)

-- A continuation is built exactly when the call proceeds and its admission is recorded, both as
-- the Boolean `True` and no merely truthy value, the admission record is there, and the outcome is
-- `continuable`; it holds the identity and that outcome, and nothing of the admission.
pub build_neutral_continuation-ok :
    {A : Type 0} (o : InputRequiredMode) (i : ContinuationIdentity) (e d : Value) (r : Option A)
    (c : NeutralContinuation)
    → (build_neutral_continuation o i e d r ≡ ok c) ↔ (
        (e ≡ boolean true)
        × (d ≡ boolean true)
        × (is_present r ≡ true)
        × (o ≡ continuable)
        × (c ≡ record { identity = i; outcome = continuable }))
unfolding build_neutral_continuation
build_neutral_continuation-ok o i e d r c = (λ h. ground arith, λ h. ground arith)

-- Behind the lifecycle planner: a continuable call can be continued exactly when its request was
-- admitted and its admission had to be, or was configured to be, recorded before execution. No
-- refused, deferred or unrecorded call can.
pub build_neutral_continuation-plan_admission :
    (r : AdmissionRequest) (i : ContinuationIdentity) {p : AdmissionPlan}
    → plan_admission r ≡ ok p
    → is_ok (
        build_neutral_continuation continuable i
          (boolean p.execution_proceeds)
          (boolean p.admission_recorded)
          p.admission_record)
      ≡ (is_admitted r.disposition
          && (admission_before_execution_required r.tool_class
              || r.emit_read_admission_before_execution))
unfolding build_neutral_continuation
build_neutral_continuation-plan_admission r i h = ground (arith, plan_admission-execution r h)
