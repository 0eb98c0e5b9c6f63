-- ===== src/Diagnosis/Repository.antt =====
-- services/diagnosis_service/src/diagnosis_repository.cc: the fault and the report table behind
-- DiagnosisRepository, each with its sequence.
pub mod Convert
pub mod Faults
pub mod Reports
pub mod Reachable
use device_ops.Prelude.{ℕ}

-- The two tables, `_fault_sequence` and `_report_sequence`.
pub record Diagnosis (F R : Type 0) : Type 0 where
  pub faults : F
  pub reports : R
  pub fault_sequence : ℕ
  pub report_sequence : ℕ
