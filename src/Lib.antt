-- ===== src/Lib.antt =====
-- The core of the trustflow backend: escrows with their milestones, the dispute saga that decides
-- a disputed escrow, the transactional outbox that carries the events of both, the ingestion of the
-- events of the chain, and the gigs that parties solicit work with.
--
-- `EscrowService` (backend/src/escrow/escrow.service.ts) keeps escrows in Redis, or in maps of
-- the process while no client is there, and publishes every change through `OutboxService`
-- (backend/src/outbox/outbox.service.ts). `DisputeSagaService`
-- (backend/src/dispute/dispute-saga.service.ts) takes a disputed escrow through escalation, the
-- assignment of jurors, their votes and the payout; it calls `EscrowService` to freeze, release,
-- cancel or split the escrow and compensates each step that fails. Both write to Redis by MULTI/EXEC,
-- whose results backend/src/common/redis/redis-transaction.ts looks at.
--
-- `EventIngestionService` (backend/src/event-ingestion/event-ingestion.service.ts) asks the network
-- for the events beyond the cursor of `LedgerCursorService` (ledger-cursor.service.ts) and hands them
-- to `EventProcessorService` (event-processor.service.ts), which applies each of them to the escrows
-- and disputes and keeps a record of it. `GigService` (backend/src/gig/gig.service.ts) keeps gigs as
-- `EscrowService` keeps escrows, publishes through the outbox, and is swept by the worker of
-- backend/src/gig/gig-expiry-worker.service.ts behind the lock of
-- backend/src/common/redis/distributed-lock.service.ts. The relay
-- (backend/src/outbox/outbox-relay.service.ts) delivers what the outbox holds.
-- `EscrowReconciliationService` (backend/src/escrow-reconciliation/escrow-reconciliation.service.ts)
-- compares the escrows with the chain and repairs them through `EscrowService`.
--
--   Prelude      helpers: Exec, a state monad with exceptions (try_catch keeps the state, as a
--                JavaScript catch does); Total, total correctness; JsMap and JsSet, Map and Set in
--                insertion order
--   Redis        redis-transaction.ts: the results of EXEC
--   Data         the types of the services; Page: backend/src/common/pagination.ts, Paging: proofs
--   Amounts      backend/src/common/amount.ts: what is read as an amount
--   Lock         distributed-lock.service.ts
--   World        the state of a process, `World`, and what it takes from outside, `Env`
--   Outbox       Queue: append, claimDue, reclaimExpired, markDelivered, retry and their helpers;
--                ReplayAll: replayAll; Legacy: the API on the older entity; Invariant, Claims, Delivery and
--                Attempts: proofs; Relay: outbox-relay, outbox-publisher and outbox-event-dispatcher;
--                Relaying: proofs
--   Escrow       Store: persistence and queries; Lifecycle: fund, release, cancel, split,
--                raiseDispute, applyChainState, correctStatus; Milestones: approvals; Local, Machine,
--                Statuses, Settlement, Chain and Remote: proofs
--   Dispute      Saga: verdict and history; Store: persistence and queries; Escalation, Voting,
--                Payout: the steps with their compensations; Verdict, Total, Fields, Ballot,
--                Jurors, Electorate, Order, Calm and Reopen: proofs
--   Ingestion    Cursor, Processor and Log, Batch and Service: the three services; Progress, Once,
--                Order, Range and Round: proofs
--   Gig          Store and Lifecycle: gig.service.ts; Expiry: the sweep; Machine, Resolution and
--                Sweep: proofs
--   Reconcile    Store and Service: the two services; Agreement: proofs
--   Auth         Nonces and Tokens: backend/src/auth/nonce-store.service.ts and
--                refresh-token-store.service.ts; Once and Spent: proofs
--   Dedup        Gateway: backend/src/milestone-notifications/event-dedup.service.ts; Notifications:
--                backend/src/notification/notification-deduplication.service.ts; Window and Release: proofs
--   Webhook      backend/src/webhook/: Address and Validation: isPrivateIP and validateWebhookUrl of
--                webhook.service.ts, Service: its WebhookService; Retry: retry.helper.ts; Subscriptions:
--                webhook-subscription.service.ts; Blocks, Guarded, Sends, Delivery and Brackets: proofs
--   Stellar      Failover: backend/src/stellar/rpc-failover.service.ts; Switching: proofs
--   Profile      backend/src/user-profile/user-profile.service.ts; Store: persistence and queries;
--                Service: the operations; Search: findAll and search; Index, Owners and Ratings: proofs
--   Idempotency  backend/src/common/idempotency/: Keys: idempotency-key.service.ts; Interceptor:
--                idempotency-key.interceptor.ts; Server: what is relied on; Taken, Replay and Again:
--                proofs
--   Breaker      Service: backend/src/common/circuit-breaker/circuit-breaker.service.ts; Stale: proofs
--   Sweep        Runners: backend/src/common/concurrency/map-with-concurrency.ts; Completion: proofs
--   Tests        the theorems at concrete states
--
-- A function in snake_case models the method of that name in camelCase. State is passed explicitly:
-- an action takes a `World` and returns its result, a value or an exception, with the new `World`,
-- so what a method changed before it threw stays changed. JavaScript objects that a fallback map
-- holds are shared with the caller: `Loaded` and `Held` say whether a loaded object is the one of the
-- map, and assignments to it write through.
--
-- Parameters, the fields of `Env`: the Redis client, each call a function from the server's state to
-- its reply, or its rejection, and the new state; the Lua scripts that run in Redis, by their text;
-- JSON; the clock and the random identifiers, by the number of readings before; the chain client and
-- the Arweave archive; the configuration; and which optional services are
-- injected; SHA-256 and the comparisons of amounts, times and locale. The RPC server
-- of the ingestion is the record `Rpc`, and the handlers of the relay are an argument. The webhooks
-- have a state of their own, `Hooks`, and take the network from `Net`; the
-- circuits of opossum are the record `Opossum`. Calls of the audit
-- log, Discord and the in-app notifications are recorded in `calls`, counters in `metrics`; log lines
-- are dropped. Loops run over the lists and sets that they iterate; only the loop over the pages
-- of the RPC server, which a server can keep busy for ever, has fuel, and no result says that it ends.
--
-- Methods run one after another: each method of the saga holds a keyed mutex, and interleavings at an
-- `await` inside a method are not modelled, but for Sweep, where the runners
-- take turns at theirs. A payload is stored by value. The texts of some exceptions
-- are shortened; their classes are the source's. The groups of a batch of events run one after
-- another in `process_event_batch`; `Schedule` says in which orders their events may start. Ledgers are
-- natural numbers, so a reorg from ledger 0 is out of the model. Ratings of profiles are whole
-- hundredths, with exact arithmetic. Not modelled: timers, controllers and
-- GraphQL, decoding of chain events, uploads, the signatures of authentication,
-- rate limits, migrations, monitoring and configuration.
pub mod Prelude
pub mod Redis
pub mod Data
pub mod World
pub mod Amounts
pub mod Lock
pub mod Outbox
pub mod Escrow
pub mod Dispute
pub mod Ingestion
pub mod Gig
pub mod Reconcile
pub mod Auth
pub mod Dedup
pub mod Webhook
pub mod Stellar
pub mod Profile
pub mod Idempotency
pub mod Breaker
pub mod Sweep
pub mod Tests
