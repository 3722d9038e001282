-- ===== src/Data/Escrow.antt =====
-- The types of escrow/escrow.service.ts.
use trustflow_backend.Prelude.{ℕ, String, Option, none, some, List, Bool, str_eq, if◌then◌else◌}

-- ESCROW_STATUSES
pub data EscrowStatus : Type 0 where
  pending active released disputed cancelled : EscrowStatus

pub EscrowStatus-discrete : Discrete EscrowStatus
EscrowStatus-discrete = hlevel

abbrev pub status_text : EscrowStatus → String
status_text pending = "pending"
status_text active = "active"
status_text released = "released"
status_text disputed = "disputed"
status_text cancelled = "cancelled"

-- ESCROW_STATUSES.includes(s)
unfoldable pub parse_status : String → Option EscrowStatus
parse_status s =
    if str_eq s "pending"
    then some pending
    else if str_eq s "active"
    then some active
    else if str_eq s "released"
    then some released
    else if str_eq s "disputed"
    then some disputed
    else if str_eq s "cancelled"
    then some cancelled
    else none

pub data MilestoneStatus : Type 0 where
  pending approved rejected : MilestoneStatus

abbrev pub milestone_status_text : MilestoneStatus → String
milestone_status_text pending = "pending"
milestone_status_text approved = "approved"
milestone_status_text rejected = "rejected"

pub record Milestone : Type 0 where
  pub id : String
  pub escrow_id : String
  pub title : String
  pub amount_xlm : String
  pub status : MilestoneStatus
  pub approver : Option String
  pub approved_at : Option String

pub record Escrow : Type 0 where
  pub id : String
  pub depositor : String
  pub beneficiary : String
  pub amount_xlm : String
  pub status : EscrowStatus
  pub created_at : String
  pub dispute_reason : Option String
  pub disputed_at : Option String
  pub contract_escrow_id : Option String
  pub split_percentage : Option ℕ
  pub requires_manual_review : Option Bool
  pub version : Option ℕ

-- The status of a patch is unchecked text until `applyChainState` looks at it.
pub record ChainStatePatch : Type 0 where
  pub status : Option String
  pub amount_xlm : Option String

pub record ChainEscrowSeed : Type 0 where
  pub contract_escrow_id : String
  pub depositor : String
  pub beneficiary : String
  pub amount_xlm : String
  pub status : EscrowStatus

pub record StatusCorrection : Type 0 where
  pub status : Option EscrowStatus
  pub requires_manual_review : Option Bool
  pub clear_dispute : Bool

pub record BatchApproveResult : Type 0 where
  pub succeeded : List (String × MilestoneStatus)
  pub failed : List (String × String)
