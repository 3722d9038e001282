-- ===== src/Data/Reconciliation.antt =====
-- The types of escrow-reconciliation/escrow-reconciliation.types.ts.
use trustflow_backend.Prelude.{ℕ, String, Option, List, Bool}
use trustflow_backend.Data.Escrow.{EscrowStatus}

pub data DriftType : Type 0 where
  status_mismatch amount_mismatch missing_in_db missing_on_chain invalid_chain_data : DriftType

pub record ChainEscrowRecord : Type 0 where
  pub contract_escrow_id : String
  pub depositor : String
  pub beneficiary : String
  pub amount_xlm : String
  pub status : EscrowStatus

-- Partial<ChainEscrowRecord>
pub record PartialRecord : Type 0 where
  pub contract_escrow_id : Option String
  pub depositor : Option String
  pub beneficiary : Option String
  pub amount_xlm : Option String
  pub status : Option EscrowStatus

pub record DriftRecord : Type 0 where
  pub contract_escrow_id : String
  pub drift_type : DriftType
  pub db_value : Option PartialRecord
  pub chain_value : Option PartialRecord
  pub repaired : Bool
  pub repair_error : Option String
  pub detected_at : String

pub record ReconciliationError : Type 0 where
  pub contract_escrow_id : String
  pub message : String
  pub occurred_at : String

pub record ReconciliationRun : Type 0 where
  pub run_id : String
  pub started_at : String
  pub completed_at : String
  pub checked : ℕ
  pub drift_count : ℕ
  pub repaired_count : ℕ
  pub drifts : List DriftRecord
  pub error_count : ℕ
  pub errors : List ReconciliationError
