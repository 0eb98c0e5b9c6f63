-- ===== src/Diagnosis/Tests.antt =====
-- Runs of the diagnosis service on tables in memory and a RAG service that answers one text, and the
-- theorems at concrete inputs.
use device_ops.Prelude.{ℕ, ◌+◌, ◌≤◌, pos, ◌≡◌, refl, ap, true, some, [], ◌∷◌, length}
use device_ops.Str.{Str, lit, str_eq, str_eq_iff, str_eq_refl, decimal, signed_decimal}
use device_ops.Rpc.{set_response}
use device_ops.Mq.{Publication, diagnosis_task_created_route}
use device_ops.Sorting.Insertion.{insertion_sort, insertion_sort-IsSort}
use device_ops.Odb.{Odb, IsOdb}
use device_ops.Odb.Calls.{insert_row, change_row}
use device_ops.Odb.Transaction.{accepted, transaction, catching}
use device_ops.Odb.Memory.{Rows, memory, find_in, memory-IsOdb}
use device_ops.Rag.{Post, answered}
use device_ops.Rag.Reading.{RagJson}
use device_ops.Rag.Sample.{Value, members, reading}
use device_ops.Event.{critical}
use device_ops.Diagnosis.{
  FaultRecordEntity, DiagnosisReportEntity, CreateFaultRecordRequest, StartDiagnosisRequest,
  ConfirmDiagnosisReportRequest, FaultListFilter, DiagnosisDraft,
}
use device_ops.Diagnosis.Status.{ReportStatus, FaultStatus, confirmed}
use device_ops.Diagnosis.Repository.{Diagnosis}
use device_ops.Diagnosis.Repository.Convert.{
  next_fault_id, next_report_id, new_fault, new_report, report_device, confirmed_entity,
  fault_to_proto, report_to_proto,
}
use device_ops.Diagnosis.Repository.Faults.{create_fault, list_faults}
use device_ops.Diagnosis.Repository.Faults.Laws.{fault_column, list_faults_lem}
use device_ops.Diagnosis.Repository.Reports.{create_diagnosis_report, confirm_report}
use device_ops.Diagnosis.Repository.Reports.Laws.{
  report_column, create_report_stored, confirm_report_lem,
}
use device_ops.Diagnosis.Repository.Reachable.{Reaches, IsSound, AllSound, Reaches-AllSound}
use device_ops.Diagnosis.Service.Start.{StartDiagnosisResponse, task_payload}

str_eq_congr : (s t u : Str) → str_eq s t ≡ true → str_eq s u ≡ str_eq t u
str_eq_congr s t u h = ap (λ (x : Str). str_eq x u) ((str_eq_iff s t).0 h)

abbrev faults : Odb FaultRecordEntity (Rows FaultRecordEntity)
faults = memory (fault_column str_eq)

faults-IsOdb : IsOdb faults (fault_column str_eq) (find_in (fault_column str_eq))
faults-IsOdb =
    memory-IsOdb (fault_column str_eq) str_eq_refl str_eq_congr (λ n r. refl) (λ n r. refl)

abbrev Report : Type 0
Report = DiagnosisReportEntity ℕ

abbrev reports : Odb Report (Rows Report)
reports = memory (report_column str_eq)

reports-IsOdb : IsOdb reports (report_column str_eq) (find_in (report_column str_eq))
reports-IsOdb =
    memory-IsOdb (report_column str_eq) str_eq_refl str_eq_congr (λ n r. refl) (λ n r. refl)

abbrev State : Type 0
State = Diagnosis (Rows FaultRecordEntity) (Rows Report)

abbrev none_yet : State
none_yet = record {
  faults = record { rows = []; next = 1 };
  reports = record { rows = []; next = 1 };
  fault_sequence = 1;
  report_sequence = 1;
}

abbrev stuck_motor : CreateFaultRecordRequest
stuck_motor = record {
  device_id = lit "r1";
  event_id = [];
  owner_user_id = 3;
  fault_type = lit "motor";
  severity = critical;
  symptom = lit "stuck";
  started_at = pos 4;
}

abbrev fault_id : Str
fault_id = next_fault_id (pos 5) 1

fault_row : FaultRecordEntity
unfolding new_fault
fault_row = record (new_fault stuck_motor (pos 5) fault_id) { id = 1 }

one_fault : State
unfolding fault_row
one_fault = record none_yet {
  faults = record { rows = fault_row ∷ []; next = 2 };
  fault_sequence = 2;
}

create-stuck_motor :
    create_fault faults stuck_motor (pos 5) none_yet
    ≡ (accepted (fault_to_proto fault_row), one_fault)
unfolding create_fault insert_row transaction catching memory new_fault fault_row one_fault
create-stuck_motor = refl

abbrev every_fault : FaultListFilter
every_fault = record {
  page = pos 1;
  page_size = pos 20;
  device_id = lit "r1";
  event_id = [];
  status = FaultStatus.unspecified;
  start_time = pos 0;
  end_time = pos 9;
}

list_faults_lem_example :
    length (list_faults faults insertion_sort every_fault one_fault.faults).0 ≤ 100
list_faults_lem_example =
    (list_faults_lem faults insertion_sort insertion_sort-IsSort every_fault one_fault.faults).0

-- The RAG service answers every request with 200, and counts them.
abbrev post : Post ℕ
post timeout url body n = (answered 200 (lit "{}"), n + 1)

abbrev drafting : RagJson Value ℕ
drafting = reading (members ((lit "diagnosis", lit "worn") ∷ (lit "model", lit "m1") ∷ [])) 7

abbrev question : StartDiagnosisRequest
question = record {
  event_id = [];
  fault_id = fault_id;
  device_id = [];
  requested_by = 3;
  engineer_note = [];
}

abbrev worn : DiagnosisDraft ℕ
worn = record {
  summary = lit "worn";
  possible_causes_json = lit "{}";
  recommended_actions_json = lit "{}";
  evidence_json = lit "{}";
  ai_model = lit "m1";
  confidence = 7;
}

abbrev report_id : Str
report_id = next_report_id (pos 6) 1

report_row : Report
unfolding new_report
report_row = record (new_report question worn (some (fault_to_proto fault_row)) (pos 6) report_id) {
  id = 1;
}

one_report : State
unfolding report_row one_fault
one_report = record one_fault {
  reports = record { rows = report_row ∷ []; next = 2 };
  report_sequence = 2;
}

create-worn :
    create_diagnosis_report reports question worn
      (some (fault_to_proto fault_row))
      (pos 6)
      one_fault
    ≡ (accepted (report_to_proto report_row), one_report)
unfolding create_diagnosis_report insert_row transaction catching memory new_report report_row
    one_report one_fault fault_row new_fault fault_to_proto report_device
create-worn = refl

create_report_stored_example : one_report.faults ≡ one_fault.faults
create_report_stored_example =
    (create_report_stored reports str_eq (find_in (report_column str_eq)) reports-IsOdb question
      worn (some (fault_to_proto fault_row)) (pos 6) one_fault one_report
      (report_to_proto report_row) create-worn).3

abbrev yes_please : ConfirmDiagnosisReportRequest
yes_please = record { report_id = report_id; operator_user_id = 3; confirmed = true; comment = [] }

confirmed_row : Report
unfolding report_row confirmed_entity new_report
confirmed_row = confirmed_entity true (pos 9) report_row

confirmed_table : Rows Report
unfolding confirmed_row
confirmed_table = record { rows = confirmed_row ∷ []; next = 2 }

confirm-worn :
    confirm_report reports yes_please (pos 9) one_report.reports
    ≡ (accepted (report_to_proto confirmed_row), confirmed_table)
unfolding confirm_report change_row transaction catching memory str_eq one_report confirmed_row
    confirmed_table report_row confirmed_entity next_report_id decimal signed_decimal new_report
confirm-worn = refl

confirm_report_lem_example : (report_to_proto confirmed_row).status ≡ confirmed
confirm_report_lem_example =
    (confirm_report_lem reports str_eq (find_in (report_column str_eq)) reports-IsOdb yes_please
      (pos 9) one_report.reports confirmed_table (report_to_proto confirmed_row) confirm-worn).2

abbrev status_name : ReportStatus → Str
status_name status = lit "REPORT_STATUS_DRAFT"

abbrev started : StartDiagnosisResponse
started = record { response = set_response 0 (lit "ok"); task_id = report_id }

abbrev task : Publication ℕ
task = record {
  route = diagnosis_task_created_route;
  payload = task_payload status_name question (report_to_proto report_row);
  trace_id = report_id;
}

reached : Reaches faults reports none_yet one_report
reached =
    Reaches.reported one_fault one_report question worn (some (fault_to_proto fault_row)) (pos 6)
      (accepted (report_to_proto report_row))
      (Reaches.faulted none_yet one_fault stuck_motor (pos 5) (accepted (fault_to_proto fault_row))
        (Reaches.here none_yet refl) create-stuck_motor)
      create-worn

none_yet-AllSound :
    AllSound faults reports str_eq (find_in (report_column str_eq)) reports-IsOdb none_yet.reports
unfolding find_in
none_yet-AllSound k report h = cc

find-report_row : find_in (report_column str_eq) one_report.reports report_id ≡ some report_row
unfolding find_in str_eq one_report report_row new_report next_report_id decimal signed_decimal
find-report_row = refl

Reaches-AllSound_example : IsSound report_row
Reaches-AllSound_example =
    Reaches-AllSound faults reports str_eq (find_in (report_column str_eq)) reports-IsOdb none_yet
      one_report reached none_yet-AllSound report_id report_row find-report_row
