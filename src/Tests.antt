-- ===== src/Tests.antt =====
-- Concrete states of a process with no Redis client, with one that answers, with one whose
-- transactions apply in part and with one that cannot be reached.
mod EscrowRuns
mod OutboxRuns
mod DisputeRuns
mod IngestionRuns
mod GigRuns
mod ReconcileRuns
mod AuthRuns
mod WebhookRuns
mod ProfileRuns
mod FailoverRuns
mod DedupRuns
mod IdempotencyRuns
mod BreakerRuns
mod SweepRuns
use trustflow_backend.Prelude.{
  ◌≤◌, ◌<◌, ◌≡◌, ◌≢◌, ◌↔◌, refl, Option, none, some, Bool, true, false, List, [], ◌∷◌, ◌++◌, ◌+◌,
  arith, length, All, any,
}
use trustflow_backend.Prelude.Exec.{
  Error, ok, err, redis, conflict, unavailable, command_failed, pure,
}
use trustflow_backend.Prelude.JsMap
use trustflow_backend.Prelude.JsSet
use trustflow_backend.Redis.{Reply, replied, rejected, ExecResults, applied, check_results}
use trustflow_backend.World.{Env, World, Codec}
use trustflow_backend.Data.Escrow.{
  Escrow, Milestone, MilestoneStatus, pending, active, released, approved, BatchApproveResult,
}
use trustflow_backend.Data.Outbox.{OutboxEvent, of_escrow, OutboxStatus}
use trustflow_backend.Data.Dispute.{
  DisputeSaga, voting, juror_assignment, payout, api, JurorVote, Choice, CastVoteDto,
  depositor_wins, beneficiary_wins, DisputeVerdict,
}
use trustflow_backend.Outbox.Queue.{append, claim_due, backoff_ms}
use trustflow_backend.Outbox.Delivery.{
  IsLocal, Reach, here, next, appended, claimed, Reach-IsLocal, claim_due_bounded,
  claim_due_exhausts, backoff_ms_lem,
}
use trustflow_backend.Escrow.Store.{persist, transact, copied, bump, create_event}
use trustflow_backend.Escrow.Machine.{
  Move, to_fund, to_release, to_cancel, to_split, to_dispute, run_move, Holds, IsMoved,
  run_move_refused, run_move_accepted,
}
use trustflow_backend.Escrow.Settlement.{run_moves}
use trustflow_backend.Escrow.Remote.{
  Applies, IsDown, transact_integrity, transact_outage, persist_one_transaction, persist_outage,
}
use trustflow_backend.Escrow.Milestones.{
  approve_milestone, check_approval, batch_approve_milestones, batch_approve_total,
  approve_milestone_sound, approve_milestone_once,
}
use trustflow_backend.Dispute.Saga.{compute_verdict, assert_step}
use trustflow_backend.Dispute.Verdict.{votes_for, compute_verdict_lem, odd_votes_decide}
use trustflow_backend.Dispute.Store.{find_by_id}
use trustflow_backend.Dispute.Voting.{check_vote, cast_vote}
use trustflow_backend.Dispute.Ballot.{IsCounted, cast_vote-IsCounted}
use trustflow_backend.Dispute.Electorate.{IsBallot, voters, cast_vote-IsBallot}
use trustflow_backend.Dispute.Jurors.{IsSeated, assign_jurors-IsSeated}
use trustflow_backend.Dispute.Voting.{check_assignment, assign_jurors}
use trustflow_backend.Escrow.Store.{find_by_id as find_escrow}
use trustflow_backend.Escrow.Lifecycle.{apply_chain_state, load, patched_status}
use trustflow_backend.Escrow.Store.{assign}
use trustflow_backend.Prelude.{String}
use trustflow_backend.Escrow.Chain.{mismatch, apply_chain_state_once}
use trustflow_backend.Prelude.JsSet.{IsDistinct}
use trustflow_backend.Data.Escrow.{ChainStatePatch}
use trustflow_backend.Data.Outbox.{escrow_created}
use trustflow_backend.Outbox.Attempts.{
  AreWithin, Request, to_create, to_process, to_replay, serve_all,
}

abbrev pub no_json : {A : Type 0} → Codec A
no_json = record { stringify = λ a. "{}"; parse = λ s. none }

-- A Redis server that answers EXEC in one way, and nothing else.
abbrev pub server : Reply ExecResults → Env
server answer = record {
  Remote = Unit {0};
  get = λ k r. (rejected "ECONNREFUSED", r);
  exec = λ cs r. (answer, r);
  command = λ c r. (rejected "ECONNREFUSED", r);
  zrangebyscore = λ k n r. (rejected "ECONNREFUSED", r);
  smembers = λ k r. (rejected "ECONNREFUSED", r);
  zrange = λ k r. (rejected "ECONNREFUSED", r);
  mget = λ ks r. (rejected "ECONNREFUSED", r);
  eval = λ s ks args r. (rejected "ECONNREFUSED", r);
  pipeline_get = λ ks r. (rejected "ECONNREFUSED", r);
  eval_number = λ s ks args r. (rejected "ECONNREFUSED", r);
  set_nx = λ k v n r. (rejected "ECONNREFUSED", r);
  set_ex_nx = λ k v n r. (rejected "ECONNREFUSED", r);
  exists = λ k r. (rejected "ECONNREFUSED", r);
  getdel = λ k r. (rejected "ECONNREFUSED", r);
  eval_text = λ s ks r. (rejected "ECONNREFUSED", r);
  pipeline = λ cs r. (rejected "ECONNREFUSED", r);
  keys = λ p r. (rejected "ECONNREFUSED", r);
  chain_status = λ id r. (replied none, r);
  archive = λ s r. (replied none, r);
  clock = λ n. record { ms = n; iso = "2026-01-01T00:00:00.000Z" };
  random = λ n. "7f3a";
  number_text = λ n. "12";
  iso_of = λ n. "2026-01-04T00:00:00.000Z";
  time_of = λ s. 0;
  amount_ge = λ a b. true;
  amount_le = λ a b. true;
  filter_hash = λ a b. "e3b0c44298fc1c14";
  is_no_amount = λ s. false;
  amount_sum = λ a b. "350";
  to_lower_case = λ s. s;
  sha256_hex = λ s. "e3b0c44298fc1c14";
  locale_after = λ a b. false;
  escrow_json = no_json;
  milestone_json = no_json;
  event_json = no_json;
  saga_json = no_json;
  processed_json = no_json;
  checkpoint_json = no_json;
  gig_json = no_json;
  page_json = no_json;
  run_json = no_json;
  token_json = no_json;
  profile_json = no_json;
  idempotency_json = no_json;
  idempotency_key_ttl_seconds = 86400;
  outbox_max_attempts = 10;
  outbox_delivered_ttl_seconds = 86400;
  soroban_start_ledger = none;
  gig_search_cache_ttl_seconds = none;
  gig_expiry_sweep_max_gigs = none;
  contract_id = "CESCROW";
  production = false;
  has_outbox = true;
  has_audit = true;
  has_discord = false;
  has_chain_client = false;
  has_saga = true;
}

abbrev pub down : Env
down = server (rejected "ECONNREFUSED")

abbrev pub up : Env
up = server (replied (some (none ∷ none ∷ none ∷ [])))

abbrev pub torn : Env
torn = server (replied (some (none ∷ some "OOM" ∷ [])))

abbrev pub deal : Escrow
deal = record {
  id = "escrow_1";
  depositor = "GDEP";
  beneficiary = "GBEN";
  amount_xlm = "250";
  status = pending;
  created_at = "2026-01-01T00:00:00.000Z";
  dispute_reason = none;
  disputed_at = none;
  contract_escrow_id = none;
  split_percentage = none;
  requires_manual_review = none;
  version = some 1;
}

abbrev pub closed : Escrow
closed = record deal { id = "escrow_2"; status = released }

abbrev pub design : Milestone
design = record {
  id = "milestone_1";
  escrow_id = "escrow_1";
  title = "Design";
  amount_xlm = "100";
  status = MilestoneStatus.pending;
  approver = none;
  approved_at = none;
}

abbrev pub built : Milestone
built = record design { id = "milestone_2"; status = approved; approver = some "GDEP" }

abbrev pub ballot : DisputeSaga
ballot = record {
  saga_id = "saga-1";
  escrow_id = "escrow_1";
  initiator = "GDEP";
  origin = api;
  reason = "Not delivered";
  prior_escrow_status = some active;
  current_step = voting;
  escalation_tx_hash = none;
  assigned_jurors = some ("GJ1" ∷ "GJ2" ∷ "GJ3" ∷ []);
  votes =
      record { juror_address = "GJ1"; vote = Choice.depositor; cast_at = "" }
      ∷ record { juror_address = "GJ2"; vote = Choice.beneficiary; cast_at = "" }
      ∷ [];
  verdict = none;
  payout_tx_hash = none;
  arweave_tx_id = none;
  step_history = [];
  created_at = "";
  updated_at = "";
  completed_at = none;
  failed_at = none;
  compensation_reason = none;
}

abbrev pub opened : DisputeSaga
opened = record ballot {
  saga_id = "saga-2";
  current_step = juror_assignment;
  assigned_jurors = none;
  votes = [];
}

-- A verdict for the beneficiary, on an escrow that is released already.
abbrev pub judged : DisputeSaga
judged = record ballot {
  saga_id = "saga-3";
  escrow_id = "escrow_2";
  current_step = payout;
  verdict = some beneficiary_wins;
}

-- A process of `E`, with or without a client, and with the escrows, milestones and the saga above.
abbrev pub process_at : {R : Type 0} → R → Bool → World R
process_at remote client = record {
  client = client;
  remote = remote;
  ticks = 0;
  draws = 0;
  escrows = ("escrow_1", deal) ∷ ("escrow_2", closed) ∷ [];
  milestones = ("milestone_1", design) ∷ ("milestone_2", built) ∷ [];
  memory = [];
  pending = [];
  processing = [];
  legacy_events = [];
  sagas = ("saga-1", ballot) ∷ ("saga-2", opened) ∷ ("saga-3", judged) ∷ [];
  escrow_index = ("escrow_1", "saga-1") ∷ [];
  processed = [];
  checkpoints = [];
  in_flight = false;
  polling = false;
  gigs = [];
  sweeping = false;
  lock_token = none;
  failed_batches = 0;
  runs = [];
  challenges = [];
  consumed = [];
  tokens = [];
  families = [];
  profiles = [];
  wallet_index = [];
  deliveries = [];
  notified = [];
  metrics = [];
  calls = [];
}

abbrev pub process : Bool → World (Unit {0})
process = process_at tt

abbrev pub shipped : OutboxEvent
shipped = record {
  id = "event_1";
  dedup_key = "escrow.funded:1";
  kind = "escrow.funded";
  aggregate_type = "escrow";
  aggregate_id = "escrow_1";
  payload = of_escrow deal;
  status = OutboxStatus.pending;
  attempts = 0;
  next_attempt_at = 0;
  created_at = "";
  delivered_at = none;
  last_error = none;
}

abbrev pub off : World (Unit {0})
off = process false

abbrev pub on : World (Unit {0})
on = process true
