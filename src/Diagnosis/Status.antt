-- ===== src/Diagnosis/Status.antt =====
-- FaultStatus and ReportStatus of proto/common.proto, and the texts that the tables keep for them and
-- for a fault's severity (services/diagnosis_service/src/diagnosis_repository.cc).
use device_ops.Prelude.{ℕ, if◌then◌else◌}
use device_ops.Str.{Str, lit, str_eq}
use device_ops.Event.{EventSeverity, info, warning, critical}

pub data FaultStatus : Type 0 where
  unspecified new processing resolved closed : FaultStatus
  unrecognized : ℕ → FaultStatus

pub data ReportStatus : Type 0 where
  unspecified draft confirmed rejected : ReportStatus
  unrecognized : ℕ → ReportStatus

-- The number of an enum value.
unfoldable pub fault_status_number : FaultStatus → ℕ
fault_status_number FaultStatus.unspecified = 0
fault_status_number new = 1
fault_status_number processing = 2
fault_status_number resolved = 3
fault_status_number closed = 4
fault_status_number (FaultStatus.unrecognized n) = n

unfoldable pub report_status_number : ReportStatus → ℕ
report_status_number ReportStatus.unspecified = 0
report_status_number draft = 1
report_status_number confirmed = 2
report_status_number rejected = 3
report_status_number (ReportStatus.unrecognized n) = n

unfoldable pub fault_status_from_string : Str → FaultStatus
fault_status_from_string status =
    if str_eq status (lit "new")
    then new
    else if str_eq status (lit "processing")
    then processing
    else if str_eq status (lit "resolved")
    then resolved
    else if str_eq status (lit "closed")
    then closed
    else FaultStatus.unspecified

unfoldable pub fault_status_to_string : FaultStatus → Str
fault_status_to_string new = lit "new"
fault_status_to_string processing = lit "processing"
fault_status_to_string resolved = lit "resolved"
fault_status_to_string closed = lit "closed"
fault_status_to_string status = lit "new"

unfoldable pub report_status_from_string : Str → ReportStatus
report_status_from_string status =
    if str_eq status (lit "draft")
    then draft
    else if str_eq status (lit "confirmed")
    then confirmed
    else if str_eq status (lit "rejected")
    then rejected
    else ReportStatus.unspecified

unfoldable pub report_status_to_string : ReportStatus → Str
report_status_to_string draft = lit "draft"
report_status_to_string confirmed = lit "confirmed"
report_status_to_string rejected = lit "rejected"
report_status_to_string status = lit "draft"

-- The severity that a fault is stored with; the event service stores "unspecified" where this says
-- "warning".
unfoldable pub severity_to_string : EventSeverity → Str
severity_to_string info = lit "info"
severity_to_string warning = lit "warning"
severity_to_string critical = lit "critical"
severity_to_string severity = lit "warning"
