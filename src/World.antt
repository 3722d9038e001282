-- ===== src/World.antt =====
-- The state of one process of the backend, and what it takes from outside: the Redis server
-- behind its client, JSON, the clock and the random identifiers, all parameters.
use trustflow_backend.Prelude.{ℕ, suc, String, Bool, true, false, Option, List, [], ◌∷◌, ◌++◌}
use trustflow_backend.Prelude.Exec.{
  Error, Result, ok, err, redis, Exec, ◌>>◌, pure, try_catch, when_else,
}
use trustflow_backend.Prelude.JsMap.{JsMap}
use trustflow_backend.Prelude.JsSet.{JsSet}
use trustflow_backend.Redis.{Reply, replied, rejected, Command, ExecResults}
use trustflow_backend.Data.Escrow.{Escrow, Milestone}
use trustflow_backend.Data.Outbox.{OutboxEvent, LegacyEvent}
use trustflow_backend.Data.Dispute.{DisputeSaga}
use trustflow_backend.Data.Ingestion.{ProcessedEvent, LedgerCheckpoint}
use trustflow_backend.Data.Gig.{Gig, PaginatedGigs}
use trustflow_backend.Data.Reconciliation.{ReconciliationRun}
use trustflow_backend.Data.Profile.{UserProfile}
use trustflow_backend.Data.Idempotency.{IdempotencyRecord}
use trustflow_backend.Data.Auth.{Challenge, TokenEntry, TokenRecord}

-- JSON.stringify and JSON.parse at one type; parsing throws on what is no JSON.
pub record Codec (A : Type 0) : Type 0 where
  pub stringify : A → String
  pub parse : String → Option A

-- A reading of the clock, as Date.now() and as toISOString().
pub record Instant : Type 0 where
  pub ms : ℕ
  pub iso : String

pub record Env : Type 1 where
  pub Remote : Type 0
  pub get : String → Remote → Reply (Option String) × Remote
  pub exec : List Command → Remote → Reply ExecResults × Remote
  -- one command that is not queued
  pub command : Command → Remote → Reply (Unit {0}) × Remote
  pub zrangebyscore : String → ℕ → Remote → Reply (List String) × Remote
  pub smembers : String → Remote → Reply (List String) × Remote
  pub zrange : String → Remote → Reply (List String) × Remote
  pub mget : List String → Remote → Reply (List (Option String)) × Remote
  -- EVAL of a script by its text, with keys and arguments
  pub eval : String → List String → List String → Remote → Reply (List String) × Remote
  -- pipeline() of GETs: one reply for each
  pub pipeline_get : List String → Remote → Reply (List (Reply (Option String))) × Remote
  -- EVAL of a script whose reply is a number
  pub eval_number : String → List String → List String → Remote → Reply ℕ × Remote
  -- SET key value PX ttl NX, and whether the answer is 'OK'
  pub set_nx : String → String → ℕ → Remote → Reply Bool × Remote
  -- SET key value EX ttl NX, and whether the answer is 'OK'
  pub set_ex_nx : String → String → ℕ → Remote → Reply Bool × Remote
  pub exists : String → Remote → Reply ℕ × Remote
  pub getdel : String → Remote → Reply (Option String) × Remote
  -- EVAL of a script whose reply is a text or nil
  pub eval_text : String → List String → Remote → Reply (Option String) × Remote
  -- a pipeline whose replies are not looked at
  pub pipeline : List Command → Remote → Reply (Unit {0}) × Remote
  pub keys : String → Remote → Reply (List String) × Remote
  -- EscrowChainStateClient.getEscrow(id), as the text of the status
  pub chain_status : String → Remote → Reply (Option String) × Remote
  -- ArweaveArchiveService.archiveDispute(saga)
  pub archive : DisputeSaga → Remote → Reply (Option String) × Remote
  pub clock : ℕ → Instant
  pub random : ℕ → String  -- randomUUID() and Math.random() as text, by the number of draws before
  pub number_text : ℕ → String
  pub iso_of : ℕ → String  -- new Date(ms).toISOString()
  pub time_of : String → ℕ  -- new Date(text).getTime()
  pub amount_ge : String → String → Bool  -- amountGreaterThanOrEqual
  pub amount_le : String → String → Bool
  pub filter_hash : Option String → Option String → String  -- budgetFilterHash, by SHA-256
  pub is_no_amount : String → Bool  -- parseAmount throws
  pub amount_sum : String → String → String  -- of two amounts, normalized
  pub to_lower_case : String → String
  pub sha256_hex : String → String
  pub locale_after : String → String → Bool  -- a.localeCompare(b) > 0
  pub escrow_json : Codec Escrow
  pub milestone_json : Codec Milestone
  pub event_json : Codec OutboxEvent
  pub saga_json : Codec DisputeSaga
  pub processed_json : Codec ProcessedEvent
  pub checkpoint_json : Codec LedgerCheckpoint
  pub gig_json : Codec Gig
  pub page_json : Codec PaginatedGigs
  pub run_json : Codec ReconciliationRun
  pub token_json : Codec TokenRecord
  pub profile_json : Codec UserProfile
  pub idempotency_json : Codec IdempotencyRecord
  pub idempotency_key_ttl_seconds : ℕ  -- config.IDEMPOTENCY_KEY_TTL_SECONDS
  pub outbox_max_attempts : ℕ  -- config.OUTBOX_MAX_ATTEMPTS
  pub outbox_delivered_ttl_seconds : ℕ  -- config.OUTBOX_DELIVERED_TTL_SECONDS
  pub soroban_start_ledger : Option ℕ  -- config.SOROBAN_START_LEDGER
  pub gig_search_cache_ttl_seconds : Option ℕ
  pub gig_expiry_sweep_max_gigs : Option ℕ
  pub contract_id : String  -- getStellarConfig().contractId
  pub production : Bool  -- config.NODE_ENV === 'production'
  pub has_outbox : Bool
  pub has_audit : Bool
  pub has_discord : Bool
  pub has_chain_client : Bool
  pub has_saga : Bool

-- A call of a service that is not modelled: the audit log, Discord and in-app notifications.
pub data Call : Type 0 where
  audit discord notify log_error : String → String → Call
  counted : String → ℕ → Call  -- metrics.increment(name, labels, n)

pub record World (Remote : Type 0) : Type 0 where
  pub client : Bool  -- this.redis is not null
  pub remote : Remote
  pub ticks : ℕ  -- readings of the clock so far
  pub draws : ℕ  -- random identifiers drawn so far
  pub escrows : JsMap Escrow
  pub milestones : JsMap Milestone
  pub memory : JsMap OutboxEvent
  pub pending : JsSet
  pub processing : JsSet
  pub legacy_events : JsMap LegacyEvent
  pub sagas : JsMap DisputeSaga
  pub escrow_index : JsMap String
  pub processed : JsMap ProcessedEvent
  pub checkpoints : JsMap LedgerCheckpoint
  pub in_flight : Bool  -- isIngestingInFlight
  pub polling : Bool  -- EventIngestionService.isRunning
  pub gigs : JsMap Gig
  pub sweeping : Bool  -- of GigExpiryWorkerService, with its lock and count of failed batches
  pub lock_token : Option String
  pub failed_batches : ℕ
  pub runs : JsMap ReconciliationRun
  pub challenges : JsMap Challenge
  pub consumed : JsMap ℕ  -- the nonces that are used, with the end of their time
  pub tokens : JsMap TokenEntry
  pub families : JsMap JsSet
  pub profiles : JsMap UserProfile
  pub wallet_index : JsMap String  -- walletAddressIndex
  pub deliveries : JsMap ℕ  -- the events broadcast by this replica, with the end of their claim
  pub notified : JsMap ℕ  -- the notifications claimed, with the end of their claim
  pub metrics : List String  -- counters incremented, with the operation, oldest first
  pub calls : List Call

module _ ⦃E : Env⦄ where
  abbrev pub Action : Type 0 → Type 0
  Action A = Exec (World E.Remote) A

  abbrev settle : {A : Type 0} → Reply A → Result A
  settle (replied a) = ok a
  settle (rejected m) = err (redis m)

  -- await this.redis.f(...)
  abbrev pub ask : {A : Type 0} → (E.Remote → Reply A × E.Remote) → Action A
  ask f s = (settle (f s.remote).0, record s { remote = (f s.remote).1 })

  -- new Date(), Date.now()
  abbrev pub get_now : Action Instant
  get_now s = (ok (E.clock s.ticks), record s { ticks = suc s.ticks })

  -- randomUUID()
  abbrev pub random_uuid : Action String
  random_uuid s = (ok (E.random s.draws), record s { draws = suc s.draws })

  abbrev pub increment : String → Action (Unit {0})
  increment name s = (ok tt, record s { metrics = s.metrics ++ name ∷ [] })

  abbrev pub call : Call → Action (Unit {0})
  call c s = (ok tt, record s { calls = s.calls ++ c ∷ [] })

  -- if (b) { m }
  abbrev pub when_do : Bool → Action (Unit {0}) → Action (Unit {0})
  when_do true m = m
  when_do false m = pure tt

  -- for (const x of xs) { m }
  abbrev pub for_each : {A : Type 0} → List A → (A → Action (Unit {0})) → Action (Unit {0})
  for_each [] m = pure tt
  for_each (x ∷ xs) m = m x >> for_each xs m

  -- if (this.redis) { try { return remote } catch (err) { handle err } } local
  abbrev pub with_redis :
      {A : Type 0} → Action A → (Error → Action (Unit {0})) → Action A → Action A
  with_redis remote handle local s =
      when_else s.client (try_catch remote (λ e. handle e >> local)) local s
