-- ===== src/Ingestion/Service.antt =====
-- `EventIngestionService`: from the ledgers of the network to the processor of the events.
use trustflow_backend.Prelude.{
  ℕ, zero, suc, ◌+◌, ◌-◌, min, max, String, ◌<>◌, Option, none, some, List, [], ◌∷◌, ◌++◌, Bool,
  true, false, ◌&&◌, ◌==◌, ltb, leb, keep, length, or_default, truthy, if◌then◌else◌,
}
use trustflow_backend.Prelude.Exec.{
  plain, message, pure, throw, gets, modify, try_catch, when_else, ◌>>=◌, ◌>>◌,
}
use trustflow_backend.Prelude.JsMap.{values}
use trustflow_backend.Redis.{Reply}
use trustflow_backend.World.{Env, World, Action, ask, call, log_error}
use trustflow_backend.Data.Ingestion.{SorobanEvent, ProcessedEvent, LedgerCheckpoint}
use trustflow_backend.Ingestion.Cursor.{get_cursor, update_cursor}
use trustflow_backend.Ingestion.Processor.{process_event}
use trustflow_backend.Ingestion.Log as Log
use trustflow_backend.Ingestion.Batch.{batch_of}

-- Where a request for events starts: at a ledger, or at the cursor of the page before.
pub data From : Type 0 where
  ledger : ℕ → From
  cursor : String → From

pub record EventsQuery : Type 0 where
  pub contract_id : String
  pub from : From
  pub end_ledger : ℕ

-- A page of events, each of them as `parseEvent` reads it.
pub record EventsPage : Type 0 where
  pub events : List SorobanEvent
  pub cursor : Option String

pub record LedgerBounds : Type 0 where
  pub latest_ledger : ℕ
  pub oldest_ledger : ℕ

-- The RPC server of Soroban.
pub record Rpc (Remote : Type 0) : Type 0 where
  pub get_events : EventsQuery → Remote → Reply EventsPage × Remote
  pub get_health : Remote → Reply LedgerBounds × Remote
  pub get_network : Remote → Reply String × Remote

abbrev pub max_ledger_range : ℕ
max_ledger_range = 100

-- if (response.cursor && response.events.length === 100)
abbrev pub next_cursor : EventsPage → Option String
next_cursor page = if length page.events == 100 then truthy page.cursor else none

abbrev pub events_query : String → ℕ → ℕ → Option String → EventsQuery
events_query contract_id start batch_end none = record {
  contract_id = contract_id;
  from = ledger start;
  end_ledger = batch_end + 1;
}
events_query contract_id start batch_end (some c) = record {
  contract_id = contract_id;
  from = cursor c;
  end_ledger = batch_end + 1;
}

abbrev pub in_range : ℕ → ℕ → SorobanEvent → Bool
in_range start end e = leb start e.ledger && leb e.ledger end

unfoldable pub latest_of : ℕ → List SorobanEvent → ℕ
latest_of end [] = end
latest_of end (e ∷ es) = latest_of e.ledger es

module _ ⦃E : Env⦄ where
  -- The ledgers that the next ingestion asks for.
  unfoldable pub start_ledger : Option LedgerCheckpoint → LedgerBounds → ℕ
  start_ledger (some c) bounds = max (c.last_processed_ledger + 1) bounds.oldest_ledger
  start_ledger none bounds = elim E.soroban_start_ledger [
    | some configured ↦ max configured bounds.oldest_ledger
    | none ↦ max (bounds.latest_ledger - 1000) bounds.oldest_ledger
  ]

  unfoldable pub end_ledger : ℕ → LedgerBounds → ℕ
  end_ledger start bounds = min bounds.latest_ledger (start + max_ledger_range - 1)

  unfoldable pub process_each : List SorobanEvent → Action (List ProcessedEvent)
  process_each [] = pure []
  process_each (e ∷ es) = do p ← process_event e; ps ← process_each es; pure (p ∷ ps)

  -- mapWithConcurrency with one group at a time: the results of a group that throws are left out.
  unfoldable pub process_groups : List (List SorobanEvent) → Action (List ProcessedEvent)
  unfolding process_each
  process_groups [] = pure []
  process_groups (g ∷ gs) = do
    ps ← try_catch (process_each g) (λ e. pure [])
    rest ← process_groups gs
    pure (ps ++ rest)

  unfoldable pub process_event_batch : List SorobanEvent → Action (List ProcessedEvent)
  unfolding process_groups batch_of
  process_event_batch events = do
    first ← process_each (batch_of events).unkeyed
    rest ← process_groups (values (batch_of events).keyed)
    pure (first ++ rest)

  -- finally { m }
  abbrev pub finally : {A : Type 0} → Action A → (World E.Remote → World E.Remote) → Action A
  finally m after w = ((m w).0, after (m w).1)

  module _ (R : Rpc E.Remote) where
    -- The `while` loop of fetchEvents; `fuel` bounds the requests.
    unfoldable pub fetch_pages : ℕ → String → ℕ → ℕ → Option String → Action (List SorobanEvent)
    unfolding truthy
    fetch_pages zero contract_id start end c = throw (plain "out of fuel")
    fetch_pages (suc fuel) contract_id start end c = when_else (ltb end start) (pure []) (do
      let batch_end = min (start + 99) end
      page ← ask (R.get_events (events_query contract_id start batch_end c))
      rest ← elim (next_cursor page) [
        | some c' ↦ fetch_pages fuel contract_id start end (some c')
        | none ↦ fetch_pages fuel contract_id (batch_end + 1) end none
      ]
      pure (page.events ++ rest))

    unfoldable pub fetch_events : ℕ → String → ℕ → ℕ → Action (List SorobanEvent)
    unfolding fetch_pages
    fetch_events fuel contract_id start end =
        try_catch
          (do
            events ← fetch_pages fuel contract_id start end none
            pure (keep (in_range start end) events))
          (λ e. do call (log_error "fetchEvents" (message e)); throw e)

    unfoldable pub get_ledger_bounds : Action LedgerBounds
    get_ledger_bounds = try_catch (ask R.get_health) (λ e. do
      call (log_error "getHealth" (message e))
      pure (record { latest_ledger = 0; oldest_ledger = 0 }))

    unfoldable pub get_network_hash : Action String
    get_network_hash =
        try_catch (ask R.get_network) (λ e. do call (log_error "getNetwork" (message e)); pure "")

    unfoldable pub ingest_range : ℕ → String → ℕ → ℕ → Action (List ProcessedEvent)
    unfolding latest_of
    ingest_range fuel contract_id start end = do
      events ← fetch_events fuel contract_id start end
      processed ← process_event_batch events
      network_hash ← get_network_hash
      update_cursor contract_id (latest_of end events)
          (E.number_text start <> "-" <> E.number_text end) network_hash
      pure processed

    -- The `try` block of ingestEvents.
    unfoldable pub ingest_next : ℕ → String → Action (List ProcessedEvent)
    unfolding start_ledger end_ledger ingest_range
    ingest_next fuel contract_id = do
      checkpoint ← get_cursor contract_id
      bounds ← get_ledger_bounds
      let start = start_ledger checkpoint bounds
      let end = end_ledger start bounds
      when_else (ltb end start) (pure []) (ingest_range fuel contract_id start end)

    unfoldable pub ingest_events : ℕ → String → Action (List ProcessedEvent)
    unfolding ingest_next
    ingest_events fuel contract_id w =
        when_else w.in_flight (pure [])
          (do
            modify (λ v. record v { in_flight = true })
            finally (ingest_next fuel contract_id) (λ v. record v { in_flight = false }))
          w

    unfoldable pub ingest_single_ledger : ℕ → String → ℕ → Action (List ProcessedEvent)
    ingest_single_ledger fuel contract_id number = do
      events ← fetch_events fuel contract_id number number
      processed ← process_event_batch events
      network_hash ← get_network_hash
      update_cursor contract_id number ("single-" <> E.number_text number) network_hash
      pure processed

    unfoldable pub start_polling : ℕ → Option String → Action (Unit {0})
    unfolding ingest_events truthy
    start_polling fuel contract_id w =
        when_else w.polling (pure tt)
          (do
            modify (λ v. record v { polling = true })
            ingest_events fuel (or_default (truthy contract_id) E.contract_id)
            pure tt)
          w

    -- The callback of setInterval.
    unfoldable pub polling_tick : ℕ → String → Action (Unit {0})
    unfolding ingest_events
    polling_tick fuel contract_id w =
        when_else w.in_flight (pure tt)
          (try_catch (do ingest_events fuel contract_id; pure tt)
            (λ e. call (log_error "polling" (message e))))
          w

  unfoldable pub stop_polling : Action (Unit {0})
  stop_polling = modify (λ w. record w { polling = false })

  -- A ledger sequence is at least 1, so `fromLedger - 1` is no negative number.
  unfoldable pub handle_reorg : String → ℕ → Action (Unit {0})
  handle_reorg contract_id from_ledger = do
    Log.clear_events_from_ledger from_ledger
    update_cursor contract_id (from_ledger - 1) ("reorg-" <> E.number_text from_ledger) ""

  unfoldable pub get_status : Action (Bool × Option LedgerCheckpoint × ℕ)
  get_status = do
    checkpoint ← get_cursor E.contract_id
    failed ← Log.get_failed_events
    running ← gets (λ w. w.polling)
    pure (running, checkpoint, length failed)

  abbrev pub retry_failed_events : Action (List ProcessedEvent)
  retry_failed_events = Log.retry_failed_events
