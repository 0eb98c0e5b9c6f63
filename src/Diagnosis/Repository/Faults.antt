-- ===== src/Diagnosis/Repository/Faults.antt =====
-- The fault operations of DiagnosisRepository (services/diagnosis_service/src/diagnosis_repository.cc).
pub mod Laws
use device_ops.Prelude.{ℕ, ◌+◌, ◌%◌, ◌^◌, ℤ, Option, List, if◌then◌else◌}
use device_ops.Str.{Str, lit, is_empty}
use device_ops.Sorting.{Sort, later_by}
use device_ops.Sorting.Page.{sorted_page}
use device_ops.Odb.{Odb}
use device_ops.Odb.Calls.{insert_row, get_row, all_rows}
use device_ops.Odb.Transaction.{Reply, accepted, rejected}
use device_ops.Diagnosis.{FaultRecordEntity, FaultRecord, CreateFaultRecordRequest, FaultListFilter}
use device_ops.Diagnosis.Repository.{Diagnosis}
use device_ops.Diagnosis.Repository.Convert.{
  next_fault_id, new_fault, fault_to_proto, matches_fault_filter,
}

module _ {F R : Type 0} (o : Odb FaultRecordEntity F) where
  unfoldable pub create_fault :
      CreateFaultRecordRequest → ℤ → Diagnosis F R → Reply FaultRecord × Diagnosis F R
  create_fault request now s =
      if is_empty request.device_id
      then (rejected (lit "device_id is required"), s)
      else if is_empty request.fault_type
      then (rejected (lit "fault_type is required"), s)
      else if is_empty request.symptom
      then (rejected (lit "symptom is required"), s)
      else let entity = new_fault request now (next_fault_id now s.fault_sequence) in
        let (reply, faults') = insert_row o fault_to_proto entity s.faults in
        (reply, record s { faults = faults'; fault_sequence = (s.fault_sequence + 1) % 2 ^ 64 })

module _ {F : Type 0} (o : Odb FaultRecordEntity F) where
  unfoldable pub get_fault : Str → F → Option FaultRecord
  get_fault fault_id faults = get_row o fault_to_proto fault_id faults

  unfoldable pub list_faults : Sort FaultRecord → FaultListFilter → F → List FaultRecord × ℕ
  list_faults sort filter faults =
      sorted_page sort (later_by (λ fault. fault.started_at)) (matches_fault_filter filter)
        (all_rows o fault_to_proto faults) filter.page filter.page_size
