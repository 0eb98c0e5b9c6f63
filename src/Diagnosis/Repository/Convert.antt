-- ===== src/Diagnosis/Repository/Convert.antt =====
-- The rows of the diagnosis tables from requests, as messages, and against the list filters
-- (services/diagnosis_service/src/diagnosis_repository.cc).
use device_ops.Prelude.{
  ℕ, ℤ, Bool, not, ◌&&◌, ◌||◌, ◌==◌, Option, none, some, ◌++◌, ltb_ℤ, is_positive, if◌then◌else◌,
}
use device_ops.Str.{Str, lit, is_empty, str_eq, decimal, signed_decimal}
use device_ops.Odb.Calls.{nullable_string, nullable_int64, unless_empty}
use device_ops.Event.{severity_from_string}
use device_ops.Diagnosis.{
  FaultRecordEntity, DiagnosisReportEntity, FaultRecord, DiagnosisReport, CreateFaultRecordRequest,
  StartDiagnosisRequest, FaultListFilter, ReportListFilter, DiagnosisDraft,
}
use device_ops.Diagnosis.Status.{
  fault_status_number, report_status_number, fault_status_from_string, report_status_from_string,
  severity_to_string,
}

-- The ids for the present values of the sequences, which are then one more, modulo 2 ^ 64.
unfoldable pub next_fault_id : ℤ → ℕ → Str
next_fault_id now sequence = lit "fault-" ++ (signed_decimal now ++ (lit "-" ++ decimal sequence))

unfoldable pub next_report_id : ℤ → ℕ → Str
next_report_id now sequence = lit "report-" ++ (signed_decimal now ++ (lit "-" ++ decimal sequence))

unfoldable pub fault_to_proto : FaultRecordEntity → FaultRecord
fault_to_proto entity = record {
  id = entity.id;
  fault_id = entity.fault_id;
  device_id = entity.device_id;
  event_id = nullable_string entity.event_id;
  owner_user_id = entity.owner_user_id;
  fault_type = entity.fault_type;
  severity = severity_from_string entity.severity;
  status = fault_status_from_string entity.status;
  symptom = entity.symptom;
  root_cause = nullable_string entity.root_cause;
  solution = nullable_string entity.solution;
  started_at = entity.started_at;
  resolved_at = nullable_int64 entity.resolved_at;
  created_at = entity.created_at;
  updated_at = entity.updated_at;
}

unfoldable pub report_to_proto : {D : Type 0} → DiagnosisReportEntity D → DiagnosisReport D
report_to_proto entity = record {
  id = entity.id;
  report_id = entity.report_id;
  device_id = entity.device_id;
  event_id = nullable_string entity.event_id;
  fault_id = nullable_string entity.fault_id;
  created_by = entity.created_by;
  report_type = entity.report_type;
  status = report_status_from_string entity.status;
  summary = entity.summary;
  possible_causes_json = nullable_string entity.possible_causes_json;
  recommended_actions_json = nullable_string entity.recommended_actions_json;
  evidence_json = nullable_string entity.evidence_json;
  ai_model = nullable_string entity.ai_model;
  confidence = entity.confidence;
  created_at = entity.created_at;
  updated_at = entity.updated_at;
}

unfoldable pub new_fault : CreateFaultRecordRequest → ℤ → Str → FaultRecordEntity
new_fault request now fault_id = record {
  id = 0;
  fault_id = fault_id;
  device_id = request.device_id;
  event_id = unless_empty request.event_id;
  owner_user_id = request.owner_user_id;
  fault_type = request.fault_type;
  severity = severity_to_string request.severity;
  status = lit "new";
  symptom = request.symptom;
  root_cause = none;
  solution = none;
  started_at = if is_positive request.started_at then request.started_at else now;
  resolved_at = none;
  created_at = now;
  updated_at = now;
}

-- The request's device, or else the fault's.
unfoldable pub report_device : StartDiagnosisRequest → Option FaultRecord → Str
report_device request fault =
    if is_empty request.device_id
    then elim fault [ none ↦ lit "" | some f ↦ f.device_id ]
    else request.device_id

unfoldable pub report_event : StartDiagnosisRequest → Option FaultRecord → Option Str
report_event request fault =
    if is_empty request.event_id
    then elim fault [ none ↦ none | some f ↦ unless_empty f.event_id ]
    else some request.event_id

unfoldable pub report_fault : StartDiagnosisRequest → Option FaultRecord → Option Str
report_fault request fault =
    if is_empty request.fault_id
    then elim fault [ none ↦ none | some f ↦ some f.fault_id ]
    else some request.fault_id

unfoldable pub new_report :
    {D : Type 0}
    → StartDiagnosisRequest
    → DiagnosisDraft D
    → Option FaultRecord
    → ℤ
    → Str
    → DiagnosisReportEntity D
unfolding report_event report_fault
new_report request draft fault now report_id = record {
  id = 0;
  report_id = report_id;
  device_id = report_device request fault;
  event_id = report_event request fault;
  fault_id = report_fault request fault;
  created_by = request.requested_by;
  report_type = lit "ai";
  status = lit "draft";
  summary =
      if is_empty draft.summary
      then lit "Diagnosis draft generated by RAG service."
      else draft.summary;
  possible_causes_json = unless_empty draft.possible_causes_json;
  recommended_actions_json = unless_empty draft.recommended_actions_json;
  evidence_json = unless_empty draft.evidence_json;
  ai_model = unless_empty draft.ai_model;
  confidence = draft.confidence;
  created_at = now;
  updated_at = now;
}

-- The row after a confirmation.
unfoldable pub confirmed_entity :
    {D : Type 0} → Bool → ℤ → DiagnosisReportEntity D → DiagnosisReportEntity D
confirmed_entity confirmed now entity = record entity {
  status = if confirmed then lit "confirmed" else lit "rejected";
  updated_at = now;
}

unfoldable pub in_time_range : ℤ → ℤ → ℤ → Bool
in_time_range timestamp start_time end_time =
    not (is_positive start_time && ltb_ℤ timestamp start_time)
    && not (is_positive end_time && ltb_ℤ end_time timestamp)

unfoldable pub matches_fault_filter : FaultListFilter → FaultRecord → Bool
matches_fault_filter filter fault =
    (is_empty filter.device_id || str_eq fault.device_id filter.device_id)
    && (is_empty filter.event_id || str_eq fault.event_id filter.event_id)
    && (fault_status_number filter.status == 0
        || fault_status_number fault.status == fault_status_number filter.status)
    && in_time_range fault.started_at filter.start_time filter.end_time

unfoldable pub matches_report_filter : {D : Type 0} → ReportListFilter → DiagnosisReport D → Bool
matches_report_filter filter report =
    (is_empty filter.device_id || str_eq report.device_id filter.device_id)
    && (is_empty filter.event_id || str_eq report.event_id filter.event_id)
    && (is_empty filter.fault_id || str_eq report.fault_id filter.fault_id)
    && (report_status_number filter.status == 0
        || report_status_number report.status == report_status_number filter.status)
