-- ===== src/Diagnosis.antt =====
-- The data of the diagnosis service: the messages of proto/diagnosis.proto and the table rows of
-- common/include/deviceops/db/diagnosis_entity.h. `D` is the type of a double.
pub mod Status
pub mod Repository
pub mod Draft
pub mod Service
mod Tests
use device_ops.Prelude.{ℕ, ℤ, Bool, Option}
use device_ops.Str.{Str}
use device_ops.Event.{EventSeverity}
use Status.{FaultStatus, ReportStatus}

pub record FaultRecordEntity : Type 0 where
  pub id : ℕ
  pub fault_id : Str
  pub device_id : Str
  pub event_id : Option Str
  pub owner_user_id : ℕ
  pub fault_type : Str
  pub severity : Str
  pub status : Str
  pub symptom : Str
  pub root_cause : Option Str
  pub solution : Option Str
  pub started_at : ℤ
  pub resolved_at : Option ℤ
  pub created_at : ℤ
  pub updated_at : ℤ

pub record DiagnosisReportEntity (D : Type 0) : Type 0 where
  pub id : ℕ
  pub report_id : Str
  pub device_id : Str
  pub event_id : Option Str
  pub fault_id : Option Str
  pub created_by : ℕ
  pub report_type : Str
  pub status : Str
  pub summary : Str
  pub possible_causes_json : Option Str
  pub recommended_actions_json : Option Str
  pub evidence_json : Option Str
  pub ai_model : Option Str
  pub confidence : D
  pub created_at : ℤ
  pub updated_at : ℤ

pub record FaultRecord : Type 0 where
  pub id : ℕ
  pub fault_id : Str
  pub device_id : Str
  pub event_id : Str
  pub owner_user_id : ℕ
  pub fault_type : Str
  pub severity : EventSeverity
  pub status : FaultStatus
  pub symptom : Str
  pub root_cause : Str
  pub solution : Str
  pub started_at : ℤ
  pub resolved_at : ℤ
  pub created_at : ℤ
  pub updated_at : ℤ

pub record DiagnosisReport (D : Type 0) : Type 0 where
  pub id : ℕ
  pub report_id : Str
  pub device_id : Str
  pub event_id : Str
  pub fault_id : Str
  pub created_by : ℕ
  pub report_type : Str
  pub status : ReportStatus
  pub summary : Str
  pub possible_causes_json : Str
  pub recommended_actions_json : Str
  pub evidence_json : Str
  pub ai_model : Str
  pub confidence : D
  pub created_at : ℤ
  pub updated_at : ℤ

pub record CreateFaultRecordRequest : Type 0 where
  pub device_id : Str
  pub event_id : Str
  pub owner_user_id : ℕ
  pub fault_type : Str
  pub severity : EventSeverity
  pub symptom : Str
  pub started_at : ℤ

pub record StartDiagnosisRequest : Type 0 where
  pub event_id : Str
  pub fault_id : Str
  pub device_id : Str
  pub requested_by : ℕ
  pub engineer_note : Str

pub record ConfirmDiagnosisReportRequest : Type 0 where
  pub report_id : Str
  pub operator_user_id : ℕ
  pub confirmed : Bool
  pub comment : Str

pub record FaultListFilter : Type 0 where
  pub page : ℤ
  pub page_size : ℤ
  pub device_id : Str
  pub event_id : Str
  pub status : FaultStatus
  pub start_time : ℤ
  pub end_time : ℤ

pub record ReportListFilter : Type 0 where
  pub page : ℤ
  pub page_size : ℤ
  pub device_id : Str
  pub event_id : Str
  pub fault_id : Str
  pub status : ReportStatus

-- What the RAG service drafts.
pub record DiagnosisDraft (D : Type 0) : Type 0 where
  pub summary : Str
  pub possible_causes_json : Str
  pub recommended_actions_json : Str
  pub evidence_json : Str
  pub ai_model : Str
  pub confidence : D
