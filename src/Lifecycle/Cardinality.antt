-- ===== src/Lifecycle/Cardinality.antt =====
-- What `plan_lifecycle` of lifecycle/core.py promises.
use dagr_mcp.Prelude.{
  ◌≡◌, ◌∙◌, true, Option, some, is_some, ok, arith, if◌then◌else◌, Option-cases, inl, inr,
}
use dagr_mcp.Lifecycle.{
  admitted, AdmissionRequest, ExecutionObservation, AdmissionRecordIntent, OutcomeRecordIntent,
  OutcomePlan, LifecyclePlan, plan, receipt_cardinality,
}
use dagr_mcp.Lifecycle.Plan.{plan_lifecycle}

-- The number of records of a fully observed call is the contract's cardinality of the resolved
-- disposition, unless the admission was not recorded: then it is 0, for the outcome is not
-- recorded either.
pub plan_lifecycle-record_count :
    (r : AdmissionRequest) (o : ExecutionObservation) {p : LifecyclePlan}
    → plan_lifecycle r (some o) ≡ ok (plan p)
    → some p.record_count ≡ (
        if p.admission.admission_recorded
        then receipt_cardinality p.admission.resolved_disposition
        else some 0)
unfolding plan_lifecycle receipt_cardinality
plan_lifecycle-record_count r o h = ground arith

admitted_record :
    (r : AdmissionRequest) (o : Option ExecutionObservation) {p : LifecyclePlan} {q : OutcomePlan}
    {record_intent : OutcomeRecordIntent}
    → plan_lifecycle r o ≡ ok (plan p)
    → p.outcome ≡ some q
    → q.outcome_record ≡ some record_intent
    → (is_some p.admission.admission_record ≡ true)
      × (p.admission.resolved_disposition ≡ admitted)
      × (record_intent.references_admission ≡ true)
unfolding plan_lifecycle
admitted_record r o h e k = ground arith

record-disposition :
    (r : AdmissionRequest) (o : Option ExecutionObservation) {p : LifecyclePlan}
    {intent : AdmissionRecordIntent}
    → plan_lifecycle r o ≡ ok (plan p)
    → p.admission.admission_record ≡ some intent
    → intent.disposition ≡ p.admission.resolved_disposition
unfolding plan_lifecycle
record-disposition r o h k = ground arith

-- An outcome record is never planned without an admission record, which it references: the record is
-- of the disposition `admitted`, and so is the plan's resolved disposition.
pub plan_lifecycle-reference :
    (r : AdmissionRequest) (o : Option ExecutionObservation) {p : LifecyclePlan} {q : OutcomePlan}
    {record_intent : OutcomeRecordIntent}
    → plan_lifecycle r o ≡ ok (plan p)
    → p.outcome ≡ some q
    → q.outcome_record ≡ some record_intent
    → (record_intent.references_admission ≡ true)
      × (p.admission.resolved_disposition ≡ admitted)
      × ((intent : AdmissionRecordIntent) × (p.admission.admission_record ≡ some intent)
          × (intent.disposition ≡ admitted))
plan_lifecycle-reference r o {p} h e k =
    let (there, resolved, references) = admitted_record r o h e k in
    elim (Option-cases p.admission.admission_record) [
      | inl n ↦ absurd (ground arith)
      | inr (intent, m) ↦ (references, resolved, (intent, m, record-disposition r o h m ∙ resolved))
    ]
