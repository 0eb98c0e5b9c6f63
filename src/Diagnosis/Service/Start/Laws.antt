-- ===== src/Diagnosis/Service/Start/Laws.antt =====
-- What StartDiagnosis answers, stores and publishes.
use device_ops.Prelude.{ℤ, pos, ◌≡◌, ◌⊎◌, Bool, Option, List, [], ◌∷◌, if◌then◌else◌}
use device_ops.Str.{Str, lit}
use device_ops.Rpc.{set_response}
use device_ops.Mq.{Publication, text, int64, diagnosis_task_created_route}
use device_ops.Odb.{Odb}
use device_ops.Odb.Transaction.{Outcome, returned, Reply, accepted, rejected}
use device_ops.Rag.{Post, RagConfig}
use device_ops.Rag.Reading.{RagJson}
use device_ops.Diagnosis.{
  FaultRecordEntity, DiagnosisReportEntity, FaultRecord, DiagnosisReport, StartDiagnosisRequest,
  DiagnosisDraft,
}
use device_ops.Diagnosis.Status.{ReportStatus}
use device_ops.Diagnosis.Draft.{diagnose}
use device_ops.Diagnosis.Repository.{Diagnosis}
use device_ops.Diagnosis.Repository.Reports.{create_diagnosis_report}
use device_ops.Diagnosis.Service.Start.{StartDiagnosisResponse, named_fault}

-- The publication of a report: the ids of device, event and fault are the request's.
abbrev pub task_notice :
    {D : Type 0} → (ReportStatus → Str) → StartDiagnosisRequest → DiagnosisReport D → Publication D
task_notice status_name request report = record {
  route = diagnosis_task_created_route;
  payload =
      (lit "task_id", text report.report_id)
      ∷ (lit "report_id", text report.report_id)
      ∷ (lit "event_id", text request.event_id)
      ∷ (lit "fault_id", text request.fault_id)
      ∷ (lit "device_id", text request.device_id)
      ∷ (lit "requested_by", int64 (pos request.requested_by))
      ∷ (lit "report_status", text (status_name report.status))
      ∷ (lit "created_at", int64 report.created_at)
      ∷ [];
  trace_id = report.report_id;
}

module _ {D F R : Type 0} (status_name : ReportStatus → Str)
    (reports : Odb (DiagnosisReportEntity D) R) where
  -- 0: the report that the repository stored, and its publication; 400: the repository's refusal; 503:
  -- the client's error. `drafted` is what the client gave.
  abbrev pub IsDraftAnswer :
      Bool
      → StartDiagnosisRequest
      → Option FaultRecord
      → ℤ
      → Diagnosis F R
      → Diagnosis F R
      → Outcome (Reply (DiagnosisDraft D))
      → StartDiagnosisResponse
      → List (Publication D)
      → Type 0
  IsDraftAnswer publishing request fault now s s' drafted response publications =
      ((draft : DiagnosisDraft D) × (drafted ≡ returned (accepted draft))
        × (((report : DiagnosisReport D) × (create_diagnosis_report reports request draft fault now
                  s
                ≡ (accepted report, s'))
              × (response.response ≡ set_response 0 (lit "ok"))
              × (response.task_id ≡ report.report_id)
              × (publications
                  ≡ (if publishing then task_notice status_name request report ∷ [] else [])))
            ⊎ ((e : Str) × (create_diagnosis_report reports request draft fault now s
                  ≡ (rejected e, s'))
                × (response.response ≡ set_response 400 e)
                × (publications ≡ []))))
      ⊎ ((e : Str) × (drafted ≡ returned (rejected e))
          × (response.response ≡ set_response 503 e)
          × (publications ≡ [])
          × (s' ≡ s))

module _ {D F R V W : Type 0} (status_name : ReportStatus → Str) (faults : Odb FaultRecordEntity F)
    (reports : Odb (DiagnosisReportEntity D) R) (j : RagJson V D) (post : Post W)
    (config : RagConfig) where
  -- 404: the fault that the request names is not there, and nothing is asked or stored.
  abbrev pub IsStartAnswer :
      Bool
      → StartDiagnosisRequest
      → ℤ
      → Diagnosis F R
      → Diagnosis F R
      → W
      → W
      → StartDiagnosisResponse
      → List (Publication D)
      → Type 0
  IsStartAnswer publishing request now s s' w w' response publications =
      ((e : Str) × (named_fault faults request s.faults ≡ rejected e)
        × (response.response ≡ set_response 404 e)
        × (publications ≡ [])
        × (s' ≡ s)
        × (w' ≡ w))
      ⊎ ((fault : Option FaultRecord) × (named_fault faults request s.faults ≡ accepted fault)
          × (w' ≡ (diagnose j post config request fault w).1)
          × IsDraftAnswer status_name reports publishing request fault now s s'
              (diagnose j post config request fault w).0 response publications)
