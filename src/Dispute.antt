-- ===== src/Dispute.antt =====
-- dispute/dispute-saga.service.ts: `Saga` holds the helpers on one saga, `Store` its persistence,
-- `Escalation`, `Voting` and `Payout` the four steps with their compensations; the rest proves.
pub mod Saga
pub mod Store
pub mod Escalation
pub mod Voting
pub mod Payout
pub mod Verdict
pub mod Ballot
pub mod Jurors
pub mod Electorate
pub mod Order
pub mod Calm
pub mod Reopen
pub mod Fields
pub mod Total
