-- ===== src/Lifecycle/Admission.antt =====
-- What `plan_admission` of lifecycle/core.py promises.
use dagr_mcp.Prelude.{
  ◌≡◌, ◌⊎◌, Bool, true, false, not, ◌&&◌, ◌||◌, Option, none, some, is_some, ok, is_ok,
  if◌then◌else◌, arith,
}
use dagr_mcp.Lifecycle.{
  NeutralDisposition, admitted, refused, deferred, NeutralRefusalGround,
  review_object_creation_failed, AdmissionRequest, AdmissionRecordIntent, AdmissionPlan,
}
use dagr_mcp.Lifecycle.Vocabulary.{
  admission_before_execution_required, deferral_continuation_contract,
}
use dagr_mcp.Lifecycle.Plan.{plan_admission}

-- `disposition == "refused"` and the like
abbrev pub is_refused : NeutralDisposition → Bool
is_refused refused = true
is_refused _ = false

abbrev pub is_deferred : NeutralDisposition → Bool
is_deferred deferred = true
is_deferred _ = false

abbrev pub is_admitted : NeutralDisposition → Bool
is_admitted admitted = true
is_admitted _ = false

abbrev pub is_known_ground : Option NeutralRefusalGround → Bool
is_known_ground none = false
is_known_ground (some (NeutralRefusalGround.other g)) = false
is_known_ground (some g) = true

-- A request that the contract allows.
abbrev pub is_plannable : AdmissionRequest → Bool
is_plannable r =
    is_admitted r.disposition
    || (is_refused r.disposition && is_known_ground r.refusal_ground)
    || (is_deferred r.disposition && is_some r.review_object_created)

-- The planner raises on exactly the requests that lack what their disposition needs: a known
-- refusal ground for `refused`, a review flag for `deferred`, a known disposition for all.
pub is_ok-plan_admission : (r : AdmissionRequest) → is_ok (plan_admission r) ≡ is_plannable r
unfolding plan_admission
is_ok-plan_admission r = ground arith

-- A planned call proceeds exactly when it was admitted, and its admission is on record exactly
-- when it did not proceed, its tool class demands the record, or the read is configured to be
-- recorded: a write or destructive call never runs unrecorded.
pub plan_admission-execution :
    (r : AdmissionRequest) {p : AdmissionPlan}
    → plan_admission r ≡ ok p
    → (p.requested_disposition ≡ r.disposition)
      × (p.execution_proceeds ≡ is_admitted r.disposition)
      × (p.execution_proceeds ≡ is_admitted p.resolved_disposition)
      × (p.admission_recorded ≡ is_some p.admission_record)
      × (p.admission_recorded ≡ (
          not p.execution_proceeds
          || admission_before_execution_required r.tool_class
          || r.emit_read_admission_before_execution))
unfolding plan_admission
plan_admission-execution r h = ground arith

-- The planned admission record agrees with the resolved disposition: it has a reason exactly on a
-- refusal, a review object and the retry contract exactly on a deferral, always the duty of an
-- argument digest, and the parent reference of the request.
pub plan_admission-record :
    (r : AdmissionRequest) {p : AdmissionPlan} {q : AdmissionRecordIntent}
    → plan_admission r ≡ ok p
    → p.admission_record ≡ some q
    → (q.disposition ≡ p.resolved_disposition)
      × (is_some q.reason_code ≡ is_refused p.resolved_disposition)
      × (q.carries_review_object_ref ≡ is_deferred p.resolved_disposition)
      × (q.retry_contract ≡ (
          if is_deferred p.resolved_disposition then some deferral_continuation_contract else none))
      × (q.carries_argument_digest ≡ true)
      × (q.references_parent ≡ r.has_parent_boundary)
unfolding plan_admission
plan_admission-record r h k = ground arith

-- A plan resolves to a refusal in two ways only: a refusal was requested, and its ground is kept
-- verbatim; or a deferral whose review object was not created, on the ground
-- `review_object_creation_failed`.
pub plan_admission-reason :
    (r : AdmissionRequest) {p : AdmissionPlan} {q : AdmissionRecordIntent}
    → plan_admission r ≡ ok p
    → p.admission_record ≡ some q
    → p.resolved_disposition ≡ refused
    → ((r.disposition ≡ refused) × (q.reason_code ≡ r.refusal_ground))
      ⊎ ((r.disposition ≡ deferred)
          × (r.review_object_created ≡ some false)
          × (q.reason_code ≡ some review_object_creation_failed))
unfolding plan_admission
plan_admission-reason r h k e = ground arith
