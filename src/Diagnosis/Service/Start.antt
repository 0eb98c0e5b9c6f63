-- ===== src/Diagnosis/Service/Start.antt =====
-- StartDiagnosis of services/diagnosis_service/src/diagnosis_service_impl.cc: the fault is looked up,
-- the RAG service drafts, the report is stored and announced. The name that protobuf prints for a
-- status is a parameter; a publish only logs when it fails, so the handler gives the publications that
-- it asks for.
pub mod Laws
use device_ops.Prelude.{ℤ, pos, Bool, Option, none, some, List, [], ◌∷◌, if◌then◌else◌}
use device_ops.Str.{Str, lit, is_empty}
use device_ops.Rpc.{CommonResponse, set_response}
use device_ops.Mq.{Publication, Field, text, int64, diagnosis_task_created_route}
use device_ops.Odb.{Odb}
use device_ops.Odb.Transaction.{Outcome, returned, thrown, Reply, accepted, rejected}
use device_ops.Rag.{Post, RagConfig}
use device_ops.Rag.Reading.{RagJson}
use device_ops.Diagnosis.{
  FaultRecordEntity, DiagnosisReportEntity, FaultRecord, DiagnosisReport, StartDiagnosisRequest,
  DiagnosisDraft,
}
use device_ops.Diagnosis.Status.{ReportStatus}
use device_ops.Diagnosis.Draft.{diagnose}
use device_ops.Diagnosis.Repository.{Diagnosis}
use device_ops.Diagnosis.Repository.Faults.{get_fault}
use device_ops.Diagnosis.Repository.Reports.{create_diagnosis_report}

pub record StartDiagnosisResponse : Type 0 where
  pub response : CommonResponse
  pub task_id : Str

abbrev refusal : {D : Type 0} → CommonResponse → StartDiagnosisResponse × List (Publication D)
refusal response = (record { response = response; task_id = [] }, [])

-- The fault that the request names: none needed, or none found, or the fault.
unfoldable pub named_fault :
    {F : Type 0} → Odb FaultRecordEntity F → StartDiagnosisRequest → F → Reply (Option FaultRecord)
named_fault o request faults =
    if is_empty request.fault_id
    then accepted none
    else elim (get_fault o request.fault_id faults) [
      | none ↦ rejected (lit "fault not found")
      | some fault ↦ accepted (some fault)
    ]

module _ {D : Type 0} (status_name : ReportStatus → Str) where
  unfoldable pub task_payload : StartDiagnosisRequest → DiagnosisReport D → List (Str × Field D)
  task_payload request report =
      (lit "task_id", text report.report_id)
      ∷ (lit "report_id", text report.report_id)
      ∷ (lit "event_id", text request.event_id)
      ∷ (lit "fault_id", text request.fault_id)
      ∷ (lit "device_id", text request.device_id)
      ∷ (lit "requested_by", int64 (pos request.requested_by))
      ∷ (lit "report_status", text (status_name report.status))
      ∷ (lit "created_at", int64 report.created_at)
      ∷ []

  -- `publishing` is `_event_publisher != nullptr && _event_publisher->enabled()`.
  unfoldable pub answer_start :
      Bool
      → StartDiagnosisRequest
      → Reply (DiagnosisReport D)
      → StartDiagnosisResponse × List (Publication D)
  answer_start publishing request (rejected e) = refusal (set_response 400 e)
  answer_start publishing request (accepted report) = (
    record { response = set_response 0 (lit "ok"); task_id = report.report_id },
    if publishing
        then record {
          route = diagnosis_task_created_route;
          payload = task_payload request report;
          trace_id = report.report_id;
        }
          ∷ []
        else [],
  )

  module _ {F R : Type 0} (o : Odb (DiagnosisReportEntity D) R) where
    store_draft :
        Bool
        → StartDiagnosisRequest
        → Option FaultRecord
        → ℤ
        → Diagnosis F R
        → Outcome (Reply (DiagnosisDraft D))
        → Outcome (StartDiagnosisResponse × List (Publication D)) × Diagnosis F R
    store_draft publishing request fault now s (thrown e) = (thrown e, s)
    store_draft publishing request fault now s (returned (rejected e)) =
        (returned (refusal (set_response 503 e)), s)
    store_draft publishing request fault now s (returned (accepted draft)) =
        let (reply, s') = create_diagnosis_report o request draft fault now s in
        (returned (answer_start publishing request reply), s')

  module _ {F R V W : Type 0} (faults : Odb FaultRecordEntity F)
      (reports : Odb (DiagnosisReportEntity D) R) (j : RagJson V D) (post : Post W)
      (config : RagConfig) where
    unfoldable pub start_diagnosis :
        Bool
        → StartDiagnosisRequest
        → ℤ
        → Diagnosis F R
        → W
        → Outcome (StartDiagnosisResponse × List (Publication D)) × Diagnosis F R × W
    unfolding store_draft
    start_diagnosis publishing request now s w = elim (named_fault faults request s.faults) [
      | rejected e ↦ (returned (refusal (set_response 404 e)), s, w)
      | accepted fault ↦
          let (drafted, w') = diagnose j post config request fault w in
          let (answer, s') = store_draft reports publishing request fault now s drafted in
          (answer, s', w')
    ]
