-- ===== src/Data/Outbox.antt =====
-- The types of outbox/outbox.types.ts and outbox/outbox.entity.ts.
use trustflow_backend.Prelude.{ℕ, String, Option}
use trustflow_backend.Data.Escrow.{Escrow}
use trustflow_backend.Data.Gig.{Gig}

pub data OutboxStatus : Type 0 where
  pending processing retrying delivered failed : OutboxStatus

-- What the callers put in: an escrow, a gig, or the fields of an
-- event of a saga or of a reconciliation, first the id of the saga, the run or the escrow.
pub data Payload : Type 0 where
  of_escrow : Escrow → Payload
  of_gig : Gig → Payload
  of_saga : String → Payload
  of_run : String → Payload
  of_backfill : String → String → Payload

pub record OutboxEvent : Type 0 where
  pub id : String
  pub dedup_key : String
  pub kind : String  -- type
  pub aggregate_type : String
  pub aggregate_id : String
  pub payload : Payload
  pub status : OutboxStatus
  pub attempts : ℕ
  pub next_attempt_at : ℕ
  pub created_at : String
  pub delivered_at : Option String
  pub last_error : Option String

-- OutboxEventState
pub data LegacyState : Type 0 where
  pending processing delivered failed dead_letter : LegacyState

-- OutboxEventType
pub data LegacyEventType : Type 0 where
  escrow_created escrow_released dispute_raised dispute_resolved evidence_submitted
        milestone_approved :
      LegacyEventType

-- OutboxEvent of outbox.entity.ts
pub record LegacyEvent : Type 0 where
  pub id : String
  pub event_type : LegacyEventType
  pub payload : String
  pub state : LegacyState
  pub attempts : ℕ
  pub max_attempts : ℕ
  pub last_error : Option String
  pub created_at : ℕ
  pub updated_at : ℕ
  pub processed_at : Option ℕ
  pub dead_lettered_at : Option ℕ
