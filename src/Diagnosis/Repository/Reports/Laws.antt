-- ===== src/Diagnosis/Repository/Reports/Laws.antt =====
-- What the report operations do to the report table, by the documented behaviour of the session.
use device_ops.Prelude.{
  ℕ, ◌+◌, ◌%◌, ◌^◌, ℤ, ◌≡◌, refl, sym, ap, subst, ◌∙◌, Bool, true, false, Option, none, some, [],
  ◌∷◌, if◌then◌else◌, arith,
}
use device_ops.Str.{Str, lit, is_empty, str_eq}
use device_ops.Odb.{Odb, Column, IsOdb}
use device_ops.Odb.Calls.{insert_row, change_row, nullable_string}
use device_ops.Odb.Calls.Laws.{insert_row-accepted, change_row-accepted}
use device_ops.Odb.Transaction.{accepted}
use device_ops.Diagnosis.{
  DiagnosisReportEntity, DiagnosisReport, FaultRecord, StartDiagnosisRequest,
  ConfirmDiagnosisReportRequest, DiagnosisDraft,
}
use device_ops.Diagnosis.Status.{ReportStatus, confirmed, rejected, report_status_from_string}
use device_ops.Diagnosis.Repository.{Diagnosis}
use device_ops.Diagnosis.Repository.Convert.{
  next_report_id, new_report, report_device, report_event, report_fault, confirmed_entity,
  report_to_proto,
}
use device_ops.Diagnosis.Repository.Reports.{create_diagnosis_report, confirm_report}

abbrev pub report_column : {D : Type 0} → (Str → Str → Bool) → Column (DiagnosisReportEntity D)
report_column same = record {
  key = λ r. r.report_id;
  ident = λ r. r.id;
  with_ident = λ n r. record r { id = n };
  same = same;
}

module _ {D F R : Type 0} (o : Odb (DiagnosisReportEntity D) R) where
  pub create_diagnosis_report-eq-accepted :
      (request : StartDiagnosisRequest) (draft : DiagnosisDraft D) (fault : Option FaultRecord)
      (now : ℤ) (s s' : Diagnosis F R) (r : DiagnosisReport D)
      → create_diagnosis_report o request draft fault now s ≡ (accepted r, s')
      → (is_empty (report_device request fault) ≡ false)
        × (insert_row o report_to_proto
              (new_report request draft fault now (next_report_id now s.report_sequence))
              s.reports
            ≡ (accepted r, s'.reports))
        × (s'.report_sequence ≡ (s.report_sequence + 1) % 2 ^ 64)
        × (s'.faults ≡ s.faults)
        × (s'.fault_sequence ≡ s.fault_sequence)
  unfolding create_diagnosis_report
  create_diagnosis_report-eq-accepted request draft fault now s s' r h = ground arith

module _ {D R : Type 0} (o : Odb (DiagnosisReportEntity D) R) where
  confirm_report-eq-accepted :
      (request : ConfirmDiagnosisReportRequest) (now : ℤ) (db db' : R) (r : DiagnosisReport D)
      → confirm_report o request now db ≡ (accepted r, db')
      → change_row o report_to_proto
          (lit "report not found")
          (confirmed_entity request.confirmed now)
          request.report_id
          db
        ≡ (accepted r, db')
  unfolding confirm_report
  confirm_report-eq-accepted request now db db' r h = ground arith

status_of :
    {D : Type 0} (yes_no : Bool) (now : ℤ) (old : DiagnosisReportEntity D)
    → (report_to_proto (confirmed_entity yes_no now old)).status
      ≡ (if yes_no then confirmed else rejected)
unfolding report_to_proto confirmed_entity report_status_from_string str_eq
status_of true now old = refl
status_of false now old = refl

-- A text of the fault, if there is one.
abbrev pub of_fault : (FaultRecord → Str) → Option FaultRecord → Str
of_fault field none = []
of_fault field (some fault) = field fault

-- The report that a start of a diagnosis makes, as a message.
abbrev pub IsDraftOf :
    {D : Type 0}
    → StartDiagnosisRequest
    → DiagnosisDraft D
    → Option FaultRecord
    → ℤ
    → Str
    → DiagnosisReport D
    → Type 0
IsDraftOf request draft fault now report_id report =
    (report.report_id ≡ report_id)
    × (report.status ≡ ReportStatus.draft)
    × (report.device_id ≡ (
        if is_empty request.device_id
        then of_fault (λ f. f.device_id) fault
        else request.device_id))
    × (report.event_id ≡ (
        if is_empty request.event_id then of_fault (λ f. f.event_id) fault else request.event_id))
    × (report.fault_id ≡ (
        if is_empty request.fault_id then of_fault (λ f. f.fault_id) fault else request.fault_id))
    × (report.created_by ≡ request.requested_by)
    × (report.report_type ≡ lit "ai")
    × (report.summary ≡ (
        if is_empty draft.summary
        then lit "Diagnosis draft generated by RAG service."
        else draft.summary))
    × (report.possible_causes_json ≡ draft.possible_causes_json)
    × (report.recommended_actions_json ≡ draft.recommended_actions_json)
    × (report.evidence_json ≡ draft.evidence_json)
    × (report.ai_model ≡ draft.ai_model)
    × (report.confidence ≡ draft.confidence)
    × (report.created_at ≡ now)
    × (report.updated_at ≡ now)

given_or_null : (s : Str) → nullable_string (if is_empty s then none else some s) ≡ s
given_or_null [] = refl
given_or_null (c ∷ s) = refl

device_or_fault :
    (s : Str) (fault : Option FaultRecord)
    → (if is_empty s then elim fault [ none ↦ lit "" | some f ↦ f.device_id ] else s)
      ≡ (if is_empty s then of_fault (λ f. f.device_id) fault else s)
device_or_fault [] none = refl
device_or_fault [] (some fault) = refl
device_or_fault (c ∷ s) fault = refl

event_or_fault :
    (s : Str) (fault : Option FaultRecord)
    → nullable_string (
        if is_empty s
        then elim fault [
          | none ↦ none
          | some f ↦ if is_empty f.event_id then none else some f.event_id
        ]
        else some s)
      ≡ (if is_empty s then of_fault (λ f. f.event_id) fault else s)
event_or_fault [] none = refl
event_or_fault [] (some fault) = given_or_null fault.event_id
event_or_fault (c ∷ s) fault = refl

fault_or_fault :
    (s : Str) (fault : Option FaultRecord)
    → nullable_string
        (if is_empty s then elim fault [ none ↦ none | some f ↦ some f.fault_id ] else some s)
      ≡ (if is_empty s then of_fault (λ f. f.fault_id) fault else s)
fault_or_fault [] none = refl
fault_or_fault [] (some fault) = refl
fault_or_fault (c ∷ s) fault = refl

new_report-IsDraftOf :
    {D : Type 0} (request : StartDiagnosisRequest) (draft : DiagnosisDraft D)
    (fault : Option FaultRecord) (now : ℤ) (report_id : Str) (id : ℕ)
    → IsDraftOf request draft fault now report_id
        (report_to_proto (record (new_report request draft fault now report_id) { id = id }))
unfolding new_report report_to_proto report_status_from_string str_eq report_device report_event
    report_fault
new_report-IsDraftOf request draft fault now report_id id = (
  refl,
  refl,
  device_or_fault request.device_id fault,
  event_or_fault request.event_id fault,
  fault_or_fault request.fault_id fault,
  refl,
  refl,
  refl,
  given_or_null draft.possible_causes_json,
  given_or_null draft.recommended_actions_json,
  given_or_null draft.evidence_json,
  given_or_null draft.ai_model,
  refl,
  refl,
  refl,
)

module _ {D R : Type 0} (o : Odb (DiagnosisReportEntity D) R) (same : Str → Str → Bool)
    (find : R → Str → Option (DiagnosisReportEntity D))
    (laws : IsOdb o (report_column same) find) where
  -- An accepted report has a device, and replies with a draft of the RAG service's texts under the id
  -- made of the clock and the report sequence; its device, event and fault are the request's, or else
  -- the fault's. The table holds under that id the row that reads so, with the identity that the
  -- database chose; the other keys are as before, the report sequence is one further, and the faults
  -- are as they were.
  pub create_report_stored :
      {F : Type 0} (request : StartDiagnosisRequest) (draft : DiagnosisDraft D)
      (fault : Option FaultRecord) (now : ℤ) (s s' : Diagnosis F R) (r : DiagnosisReport D)
      → create_diagnosis_report o request draft fault now s ≡ (accepted r, s')
      → let report_id = next_report_id now s.report_sequence in
        (is_empty r.device_id ≡ false)
        × IsDraftOf request draft fault now report_id r
        × (s'.report_sequence ≡ (s.report_sequence + 1) % 2 ^ 64)
        × (s'.faults ≡ s.faults)
        × (s'.fault_sequence ≡ s.fault_sequence)
        × ((id : ℕ) × (r
              ≡ report_to_proto (record (new_report request draft fault now report_id) { id = id }))
            × ((k : Str)
                → find s'.reports k ≡ (
                    if same report_id k
                    then some (record (new_report request draft fault now report_id) { id = id })
                    else find s.reports k)))
  unfolding new_report
  create_report_stored request draft fault now s s' r h =
      let (device, stored, counted, faults, sequence) =
        create_diagnosis_report-eq-accepted o request draft fault now s s' r h in
      let report_id = next_report_id now s.report_sequence in
      let (id, reply, table) =
        insert_row-accepted o (report_column same) find laws report_to_proto
          (new_report request draft fault now report_id) s.reports s'.reports r stored in
      let is_draft : IsDraftOf request draft fault now report_id r =
        subst (IsDraftOf request draft fault now report_id) (sym reply)
          (new_report-IsDraftOf request draft fault now report_id id) in
      (
        ap is_empty (ap (λ (x : DiagnosisReport D). x.device_id) reply) ∙ device_kept id device,
        is_draft,
        counted,
        faults,
        sequence,
        (id, reply, table),
      )
    where
      device_kept :
          (id : ℕ)
          → is_empty (report_device request fault) ≡ false
          → is_empty
              (report_to_proto
                (record (new_report request draft fault now
                  (next_report_id now s.report_sequence)) { id = id })).device_id
            ≡ false
      device_kept id h = unfold report_to_proto in h

  -- An accepted confirmation had found the report; the reply is confirmed or rejected as the request
  -- says, whatever it was before, and updated now; the table holds it under the report's id, otherwise
  -- unchanged, and what it held under the other keys.
  pub confirm_report_lem :
      (request : ConfirmDiagnosisReportRequest) (now : ℤ) (db db' : R) (r : DiagnosisReport D)
      → confirm_report o request now db ≡ (accepted r, db')
      → (old : DiagnosisReportEntity D) × (find db request.report_id ≡ some old)
        × (r.status ≡ (if request.confirmed then confirmed else rejected))
        × (r ≡ report_to_proto (confirmed_entity request.confirmed now old))
        × ((k : Str)
            → find db' k ≡ (
                if same request.report_id k
                then some (confirmed_entity request.confirmed now old)
                else find db k))
  unfolding confirmed_entity
  confirm_report_lem request now db db' r h =
      let (old, found, reply, table) =
        change_row-accepted o (report_column same) find laws report_to_proto
          (lit "report not found") request.report_id (confirmed_entity request.confirmed now) db db'
          r (λ row. refl) (λ row. refl) (confirm_report-eq-accepted o request now db db' r h) in
      (
        old,
        found,
        ap (λ (x : DiagnosisReport D). x.status) reply ∙ status_of request.confirmed now old,
        reply,
        table,
      )
