-- ===== src/Diagnosis/Service.antt =====
-- services/diagnosis_service/src/diagnosis_service_impl.cc: the handlers of DiagnosisService on faults,
-- and those that read or confirm reports.
pub mod Start
use device_ops.Prelude.{ℕ, ℤ, pos, Option, none, some, List}
use device_ops.Str.{Str, lit, str_eq}
use device_ops.Paging.{page_or_default, page_size_or_default}
use device_ops.Rpc.{CommonResponse, PageRequest, PageResponse, TimeRange, set_response}
use device_ops.Sorting.{Sort}
use device_ops.Odb.{Odb}
use device_ops.Odb.Transaction.{Reply, accepted, rejected}
use device_ops.Diagnosis.{
  FaultRecordEntity, DiagnosisReportEntity, FaultRecord, DiagnosisReport, CreateFaultRecordRequest,
  ConfirmDiagnosisReportRequest, FaultListFilter, ReportListFilter,
}
use device_ops.Diagnosis.Status.{FaultStatus, ReportStatus}
use device_ops.Diagnosis.Repository.{Diagnosis}
use device_ops.Diagnosis.Repository.Faults.{create_fault, get_fault, list_faults}
use device_ops.Diagnosis.Repository.Reports.{get_report, list_reports, confirm_report}
use device_ops.Prelude.{if◌then◌else◌}

-- CreateFaultRecordResponse and GetFaultRecordResponse have the same fields.
pub record FaultRecordResponse : Type 0 where
  pub response : CommonResponse
  pub fault : Option FaultRecord

-- GetDiagnosisReportResponse and ConfirmDiagnosisReportResponse have the same fields.
pub record DiagnosisReportResponse (D : Type 0) : Type 0 where
  pub response : CommonResponse
  pub report : Option (DiagnosisReport D)

pub record ListFaultRecordsRequest : Type 0 where
  pub page : PageRequest
  pub device_id : Str
  pub event_id : Str
  pub status : FaultStatus
  pub time_range : TimeRange

pub record ListFaultRecordsResponse : Type 0 where
  pub response : CommonResponse
  pub page : PageResponse
  pub faults : List FaultRecord

pub record ListDiagnosisReportsRequest : Type 0 where
  pub page : PageRequest
  pub device_id : Str
  pub event_id : Str
  pub fault_id : Str
  pub status : ReportStatus

pub record ListDiagnosisReportsResponse (D : Type 0) : Type 0 where
  pub response : CommonResponse
  pub page : PageResponse
  pub reports : List (DiagnosisReport D)

answer_fault : Reply FaultRecord → FaultRecordResponse
answer_fault (accepted fault) = record { response = set_response 0 (lit "ok"); fault = some fault }
answer_fault (rejected e) = record { response = set_response 400 e; fault = none }

answer_found_fault : Option FaultRecord → FaultRecordResponse
answer_found_fault (some fault) = record {
  response = set_response 0 (lit "ok");
  fault = some fault;
}
answer_found_fault none = record {
  response = set_response 404 (lit "fault not found");
  fault = none;
}

unfoldable pub fault_list_filter : ListFaultRecordsRequest → FaultListFilter
fault_list_filter request = record {
  page = pos (page_or_default request.page.page);
  page_size = pos (page_size_or_default request.page.page_size);
  device_id = request.device_id;
  event_id = request.event_id;
  status = request.status;
  start_time = request.time_range.start_time;
  end_time = request.time_range.end_time;
}

unfoldable pub report_list_filter : ListDiagnosisReportsRequest → ReportListFilter
report_list_filter request = record {
  page = pos (page_or_default request.page.page);
  page_size = pos (page_size_or_default request.page.page_size);
  device_id = request.device_id;
  event_id = request.event_id;
  fault_id = request.fault_id;
  status = request.status;
}

module _ {F R : Type 0} (o : Odb FaultRecordEntity F) where
  unfoldable pub create_fault_record :
      CreateFaultRecordRequest → ℤ → Diagnosis F R → FaultRecordResponse × Diagnosis F R
  unfolding answer_fault
  create_fault_record request now s =
      let (reply, s') = create_fault o request now s in (answer_fault reply, s')

module _ {F : Type 0} (o : Odb FaultRecordEntity F) where
  unfoldable pub get_fault_record : Str → F → FaultRecordResponse
  unfolding answer_found_fault
  get_fault_record fault_id faults = answer_found_fault (get_fault o fault_id faults)

  unfoldable pub list_fault_records :
      Sort FaultRecord → ListFaultRecordsRequest → F → ListFaultRecordsResponse
  list_fault_records sort request faults =
      let (shown, total) = list_faults o sort (fault_list_filter request) faults in
      record {
        response = set_response 0 (lit "ok");
        page = record {
          page = page_or_default request.page.page;
          page_size = page_size_or_default request.page.page_size;
          total = total;
        };
        faults = shown;
      }

module _ {D R : Type 0} (o : Odb (DiagnosisReportEntity D) R) where
  answer_report : Reply (DiagnosisReport D) → DiagnosisReportResponse D
  answer_report (accepted report) = record {
    response = set_response 0 (lit "ok");
    report = some report;
  }
  answer_report (rejected e) = record {
    response = set_response (if str_eq e (lit "report not found") then 404 else 400) e;
    report = none;
  }

  answer_found_report : Option (DiagnosisReport D) → DiagnosisReportResponse D
  answer_found_report (some report) = record {
    response = set_response 0 (lit "ok");
    report = some report;
  }
  answer_found_report none = record {
    response = set_response 404 (lit "report not found");
    report = none;
  }

  unfoldable pub get_diagnosis_report : Str → R → DiagnosisReportResponse D
  unfolding answer_found_report
  get_diagnosis_report report_id reports = answer_found_report (get_report o report_id reports)

  unfoldable pub list_diagnosis_reports :
      Sort (DiagnosisReport D) → ListDiagnosisReportsRequest → R → ListDiagnosisReportsResponse D
  list_diagnosis_reports sort request reports =
      let (shown, total) = list_reports o sort (report_list_filter request) reports in
      record {
        response = set_response 0 (lit "ok");
        page = record {
          page = page_or_default request.page.page;
          page_size = page_size_or_default request.page.page_size;
          total = total;
        };
        reports = shown;
      }

  unfoldable pub confirm_diagnosis_report :
      ConfirmDiagnosisReportRequest → ℤ → R → DiagnosisReportResponse D × R
  unfolding answer_report
  confirm_diagnosis_report request now reports =
      let (reply, reports') = confirm_report o request now reports in
      (answer_report reply, reports')
