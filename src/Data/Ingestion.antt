-- ===== src/Data/Ingestion.antt =====
-- The types of event-ingestion/event-processor.service.ts and ledger-cursor.service.ts.
use trustflow_backend.Prelude.{ℕ, String, Option, List, Bool}

-- A property of the decoded value of an event, before the code looks at its type: absent (or null), a
-- text, or something else.
pub data Field : Type 0 where
  absent : Field
  text : String → Field
  other : Field

-- SorobanEvent.value: what the handlers read of it. Where they cast to `string` without a check, it is
-- one.
pub record EventValue : Type 0 where
  pub depositor : String
  pub beneficiary : String
  pub amount : String
  pub contract_escrow_id : Field
  pub escrow_id : Field
  pub reason : Option String

pub record SorobanEvent : Type 0 where
  pub id : String
  pub ledger : ℕ
  pub contract_id : String
  pub event_type : String
  pub topic : List String
  pub value : EventValue
  pub xdr : String
  pub created_at : String

pub record ProcessedEvent : Type 0 where
  pub event_id : String
  pub ledger : ℕ
  pub success : Bool
  pub error : Option String
  pub processed_at : String
  pub original_event : Option SorobanEvent

pub record LedgerCheckpoint : Type 0 where
  pub ledger_sequence : ℕ
  pub last_processed_ledger : ℕ
  pub cursor_position : String
  pub updated_at : String
  pub network_hash : String
