-- ===== src/Data/Dispute.antt =====
-- The types of dispute/dispute.types.ts and dispute/dispute.dto.ts.
use trustflow_backend.Prelude.{String, Option, List}
use trustflow_backend.Data.Escrow.{EscrowStatus}

pub data DisputeStep : Type 0 where
  pending escalation juror_assignment voting payout completed compensating failed : DisputeStep

abbrev pub step_text : DisputeStep → String
step_text pending = "PENDING"
step_text escalation = "ESCALATION"
step_text juror_assignment = "JUROR_ASSIGNMENT"
step_text voting = "VOTING"
step_text payout = "PAYOUT"
step_text completed = "COMPLETED"
step_text compensating = "COMPENSATING"
step_text failed = "FAILED"

pub DisputeStep-discrete : Discrete DisputeStep
DisputeStep-discrete = hlevel

pub data DisputeVerdict : Type 0 where
  depositor_wins beneficiary_wins split : DisputeVerdict

-- JurorVote.vote
pub data Choice : Type 0 where
  depositor beneficiary split : Choice

pub record JurorVote : Type 0 where
  pub juror_address : String
  pub vote : Choice
  pub cast_at : String

pub record SagaStepRecord : Type 0 where
  pub step : DisputeStep
  pub started_at : String
  pub completed_at : Option String
  pub failed_at : Option String
  pub compensated_at : Option String
  pub error : Option String

pub data Origin : Type 0 where
  api chain : Origin

pub record DisputeSaga : Type 0 where
  pub saga_id : String
  pub escrow_id : String
  pub initiator : String
  pub origin : Origin
  pub reason : String
  pub prior_escrow_status : Option EscrowStatus
  pub current_step : DisputeStep
  pub escalation_tx_hash : Option String
  pub assigned_jurors : Option (List String)
  pub votes : List JurorVote
  pub verdict : Option DisputeVerdict
  pub payout_tx_hash : Option String
  pub arweave_tx_id : Option String
  pub step_history : List SagaStepRecord
  pub created_at : String
  pub updated_at : String
  pub completed_at : Option String
  pub failed_at : Option String
  pub compensation_reason : Option String

pub record EscalateDisputeDto : Type 0 where
  pub initiator : String
  pub reason : String

pub record CastVoteDto : Type 0 where
  pub juror_address : String
  pub vote : Choice
