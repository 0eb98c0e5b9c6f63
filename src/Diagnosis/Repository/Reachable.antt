-- ===== src/Diagnosis/Repository/Reachable.antt =====
-- What holds of the reports in every state that a diagnosis repository reaches.
use device_ops.Prelude.{
  ℕ, ℤ, ◌≡◌, refl, sym, subst, ◌∙◌, ◌⊎◌, inl, inr, Bool, true, false, Option, some, if◌then◌else◌,
  arith,
}
use device_ops.Str.{Str, lit, is_empty}
use device_ops.Odb.{Odb, IsOdb}
use device_ops.Odb.Calls.Laws.{insert_row-rejected, change_row-rejected}
use device_ops.Odb.Transaction.{Reply, accepted, rejected}
use device_ops.Diagnosis.{
  FaultRecordEntity, DiagnosisReportEntity, DiagnosisReport, FaultRecord, CreateFaultRecordRequest,
  StartDiagnosisRequest, ConfirmDiagnosisReportRequest, DiagnosisDraft,
}
use device_ops.Diagnosis.Repository.{Diagnosis}
use device_ops.Diagnosis.Repository.Convert.{
  next_report_id, new_report, report_device, confirmed_entity, report_to_proto,
}
use device_ops.Diagnosis.Repository.Faults.{create_fault}
use device_ops.Diagnosis.Repository.Reports.{create_diagnosis_report, confirm_report}
use device_ops.Diagnosis.Repository.Reports.Laws.{
  report_column, create_diagnosis_report-eq-accepted, create_report_stored, confirm_report_lem,
}

module _ {D F R : Type 0} (faults : Odb FaultRecordEntity F)
    (o : Odb (DiagnosisReportEntity D) R) where
  -- The calls that change the tables, in any order, with any arguments and whatever they reply.
  pub data Reaches (start : Diagnosis F R) : Diagnosis F R → Type 0 where
    here : (s : Diagnosis F R) → s ≡ start → Reaches start s
    faulted :
        (s s' : Diagnosis F R) (request : CreateFaultRecordRequest) (now : ℤ)
        (reply : Reply FaultRecord)
        → Reaches start s
        → create_fault faults request now s ≡ (reply, s')
        → Reaches start s'
    reported :
        (s s' : Diagnosis F R) (request : StartDiagnosisRequest) (draft : DiagnosisDraft D)
        (fault : Option FaultRecord) (now : ℤ) (reply : Reply (DiagnosisReport D))
        → Reaches start s
        → create_diagnosis_report o request draft fault now s ≡ (reply, s')
        → Reaches start s'
    judged :
        (s s' : Diagnosis F R) (request : ConfirmDiagnosisReportRequest) (now : ℤ)
        (reply : Reply (DiagnosisReport D))
        → Reaches start s
        → confirm_report o request now s.reports ≡ (reply, s'.reports)
        → Reaches start s'

  create_fault-reports :
      (request : CreateFaultRecordRequest) (now : ℤ) (s s' : Diagnosis F R)
      (reply : Reply FaultRecord)
      → create_fault faults request now s ≡ (reply, s')
      → s'.reports ≡ s.reports
  unfolding create_fault
  create_fault-reports request now s s' reply h = ground arith

  create_report_kept :
      (request : StartDiagnosisRequest) (draft : DiagnosisDraft D) (fault : Option FaultRecord)
      (now : ℤ) (s s' : Diagnosis F R) (e : Str)
      → create_diagnosis_report o request draft fault now s ≡ (rejected e, s')
      → s'.reports ≡ s.reports
  unfolding create_diagnosis_report
  create_report_kept request draft fault now s s' e h = ground (
    arith,
    insert_row-rejected o report_to_proto
        (new_report request draft fault now (next_report_id now s.report_sequence)) s.reports
        s'.reports e,
  )

  confirm_report_kept :
      (request : ConfirmDiagnosisReportRequest) (now : ℤ) (db db' : R) (e : Str)
      → confirm_report o request now db ≡ (rejected e, db')
      → db' ≡ db
  unfolding confirm_report
  confirm_report_kept request now db db' e h = ground (
    arith,
    change_row-rejected o report_to_proto (lit "report not found") request.report_id
        (confirmed_entity request.confirmed now) db db' e,
  )

-- A report has a device and one of the three texts of a status.
pub record IsSound {D : Type 0} (report : DiagnosisReportEntity D) : Type 0 where
  pub has_device : is_empty report.device_id ≡ false
  pub has_status :
      (report.status ≡ lit "draft")
      ⊎ (report.status ≡ lit "confirmed")
      ⊎ (report.status ≡ lit "rejected")

new_report-IsSound :
    {D : Type 0} (request : StartDiagnosisRequest) (draft : DiagnosisDraft D)
    (fault : Option FaultRecord) (now : ℤ) (report_id : Str) (id : ℕ)
    → is_empty (report_device request fault) ≡ false
    → IsSound (record (new_report request draft fault now report_id) { id = id })
unfolding new_report
new_report-IsSound request draft fault now report_id id h = record {
  has_device = h;
  has_status = inl refl;
}

confirmed_entity-IsSound :
    {D : Type 0} (yes_no : Bool) (now : ℤ) (old : DiagnosisReportEntity D)
    → IsSound old
    → IsSound (confirmed_entity yes_no now old)
unfolding confirmed_entity
confirmed_entity-IsSound true now old h = record {
  has_device = h.has_device;
  has_status = inr (inl refl);
}
confirmed_entity-IsSound false now old h = record {
  has_device = h.has_device;
  has_status = inr (inr refl);
}

module _ {D F R : Type 0} (faults : Odb FaultRecordEntity F) (o : Odb (DiagnosisReportEntity D) R)
    (same : Str → Str → Bool) (find : R → Str → Option (DiagnosisReportEntity D))
    (laws : IsOdb o (report_column same) find) where
  abbrev pub AllSound : R → Type 0
  AllSound db =
      (k : Str) (report : DiagnosisReportEntity D) → find db k ≡ some report → IsSound report

  -- A table in which one row was written is sound, if that row is, and the rest was.
  written-AllSound :
      (db db' : R) (key : Str) (row : DiagnosisReportEntity D)
      → IsSound row
      → ((k : Str) → find db' k ≡ (if same key k then some row else find db k))
      → AllSound db
      → AllSound db'
  written-AllSound db db' key row sound table h k report held =
      pick (same key k) (sym (table k) ∙ held)
    where
      some-inj : (x y : DiagnosisReportEntity D) → some x ≡ some y → x ≡ y
      some-inj x y e = cc

      pick : (b : Bool) → (if b then some row else find db k) ≡ some report → IsSound report
      pick true e = subst IsSound (some-inj row report e) sound
      pick false e = h k report e

  created-AllSound :
      (request : StartDiagnosisRequest) (draft : DiagnosisDraft D) (fault : Option FaultRecord)
      (now : ℤ) (s s' : Diagnosis F R) (reply : Reply (DiagnosisReport D))
      → create_diagnosis_report o request draft fault now s ≡ (reply, s')
      → AllSound s.reports
      → AllSound s'.reports
  created-AllSound request draft fault now s s' (rejected e) h sound =
      subst AllSound (sym (create_report_kept faults o request draft fault now s s' e h)) sound
  created-AllSound request draft fault now s s' (accepted r) h sound =
      let (_, is_draft, counted, kept, sequence, (id, reply, table)) =
        create_report_stored o same find laws request draft fault now s s' r h in
      let device = (create_diagnosis_report-eq-accepted o request draft fault now s s' r h).0 in
      let report_id = next_report_id now s.report_sequence in
      written-AllSound s.reports s'.reports report_id
        (record (new_report request draft fault now report_id) { id = id })
        (new_report-IsSound request draft fault now report_id id device) table sound

  confirmed-AllSound :
      (request : ConfirmDiagnosisReportRequest) (now : ℤ) (db db' : R)
      (reply : Reply (DiagnosisReport D))
      → confirm_report o request now db ≡ (reply, db')
      → AllSound db
      → AllSound db'
  confirmed-AllSound request now db db' (rejected e) h sound =
      subst AllSound (sym (confirm_report_kept faults o request now db db' e h)) sound
  confirmed-AllSound request now db db' (accepted r) h sound =
      let (old, found, status, reply, table) =
        confirm_report_lem o same find laws request now db db' r h in
      written-AllSound db db' request.report_id (confirmed_entity request.confirmed now old)
        (confirmed_entity-IsSound request.confirmed now old (sound request.report_id old found))
        table sound

  -- If every report of the table has a device and is a draft, confirmed or rejected, then so it is in
  -- every state that is reached from there by creating faults, creating reports and confirming reports,
  -- in any order and whatever these calls reply.
  pub Reaches-AllSound :
      (start s : Diagnosis F R)
      → Reaches faults o start s
      → AllSound start.reports
      → AllSound s.reports
  Reaches-AllSound start s (Reaches.here _ e) sound =
      subst (λ (t : Diagnosis F R). AllSound t.reports) (sym e) sound
  Reaches-AllSound start s (Reaches.faulted t _ request now reply r h) sound =
      subst AllSound (sym (create_fault-reports faults o request now t s reply h))
        (Reaches-AllSound start t r sound)
  Reaches-AllSound start s (Reaches.reported t _ request draft fault now reply r h) sound =
      created-AllSound request draft fault now t s reply h (Reaches-AllSound start t r sound)
  Reaches-AllSound start s (Reaches.judged t _ request now reply r h) sound =
      confirmed-AllSound request now t.reports s.reports reply h (Reaches-AllSound start t r sound)
