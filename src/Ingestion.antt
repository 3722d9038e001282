-- ===== src/Ingestion.antt =====
-- event-ingestion/: `Cursor` is ledger-cursor.service.ts, `Processor` is event-processor.service.ts,
-- `Service` is event-ingestion.service.ts; the rest proves.
pub mod Cursor
pub mod Processor
pub mod Log
pub mod Batch
pub mod Service
pub mod Progress
pub mod Once
pub mod Order
pub mod Range
pub mod Round
