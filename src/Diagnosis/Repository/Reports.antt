-- ===== src/Diagnosis/Repository/Reports.antt =====
-- The report operations of DiagnosisRepository (services/diagnosis_service/src/diagnosis_repository.cc).
pub mod Laws
use device_ops.Prelude.{ℕ, ◌+◌, ◌%◌, ◌^◌, ℤ, Option, List, if◌then◌else◌}
use device_ops.Str.{Str, lit, is_empty}
use device_ops.Sorting.{Sort, later_by}
use device_ops.Sorting.Page.{sorted_page}
use device_ops.Odb.{Odb}
use device_ops.Odb.Calls.{insert_row, get_row, all_rows, change_row}
use device_ops.Odb.Transaction.{Reply, accepted, rejected}
use device_ops.Diagnosis.{
  DiagnosisReportEntity, DiagnosisReport, FaultRecord, StartDiagnosisRequest,
  ConfirmDiagnosisReportRequest, ReportListFilter, DiagnosisDraft,
}
use device_ops.Diagnosis.Repository.{Diagnosis}
use device_ops.Diagnosis.Repository.Convert.{
  next_report_id, new_report, report_device, confirmed_entity, report_to_proto,
  matches_report_filter,
}

module _ {D F R : Type 0} (o : Odb (DiagnosisReportEntity D) R) where
  unfoldable pub create_diagnosis_report :
      StartDiagnosisRequest
      → DiagnosisDraft D
      → Option FaultRecord
      → ℤ
      → Diagnosis F R
      → Reply (DiagnosisReport D) × Diagnosis F R
  create_diagnosis_report request draft fault now s =
      if is_empty (report_device request fault)
      then (rejected (lit "device_id is required"), s)
      else let entity = new_report request draft fault now (next_report_id now s.report_sequence) in
        let (reply, reports') = insert_row o report_to_proto entity s.reports in
        (reply, record s { reports = reports'; report_sequence = (s.report_sequence + 1) % 2 ^ 64 })

module _ {D R : Type 0} (o : Odb (DiagnosisReportEntity D) R) where
  unfoldable pub get_report : Str → R → Option (DiagnosisReport D)
  get_report report_id reports = get_row o report_to_proto report_id reports

  unfoldable pub list_reports :
      Sort (DiagnosisReport D) → ReportListFilter → R → List (DiagnosisReport D) × ℕ
  list_reports sort filter reports =
      sorted_page sort (later_by (λ report. report.created_at)) (matches_report_filter filter)
        (all_rows o report_to_proto reports) filter.page filter.page_size

  unfoldable pub confirm_report :
      ConfirmDiagnosisReportRequest → ℤ → R → Reply (DiagnosisReport D) × R
  confirm_report request now reports =
      if is_empty request.report_id
      then (rejected (lit "report_id is required"), reports)
      else change_row o report_to_proto (lit "report not found")
          (confirmed_entity request.confirmed now) request.report_id reports
