-- ===== src/Ingestion/Log.antt =====
-- The log of the processed events in `EventProcessorService`: queries, clearing and retries.
use trustflow_backend.Prelude.{
  ℕ, String, Option, none, some, List, [], ◌∷◌, ◌++◌, Bool, not, map, keep, ltb, leb, ◌==◌, is_some,
  length,
}
use trustflow_backend.Prelude.Exec.{plain, pure, throw, gets, modify, when_else, ◌>>=◌, ◌>>◌}
use trustflow_backend.Prelude.JsMap
use trustflow_backend.Prelude.JsMap.{JsMap, values}
use trustflow_backend.Redis.{Command, srem_many, del_many}
use trustflow_backend.World.{Env, Action, ask, with_redis}
use trustflow_backend.Data.Ingestion.{ProcessedEvent}
use trustflow_backend.Ingestion.Processor.{
  event_key, events_index_key, log_fallback, process_event, try_get,
}

-- The commands of a clearing: the DEL of all bodies and the SREM of all ids.
abbrev pub clear_commands : List String → List Command
clear_commands ids = del_many (map event_key ids) ∷ srem_many events_index_key ids ∷ []

unfoldable pub delete_all : List String → JsMap ProcessedEvent → JsMap ProcessedEvent
delete_all [] m = m
delete_all (id ∷ ids) m = delete_all ids (JsMap.delete id m)

module _ ⦃E : Env⦄ where
  unfoldable pub parse_all : List (Option String) → Action (List ProcessedEvent)
  parse_all [] = pure []
  parse_all (none ∷ rest) = parse_all rest
  parse_all (some raw ∷ rest) = elim (E.processed_json.parse raw) [
    | none ↦ throw (plain "SyntaxError")
    | some p ↦ do ps ← parse_all rest; pure (p ∷ ps)
  ]

  unfoldable pub fetch_bodies : List String → Action (List ProcessedEvent)
  unfolding parse_all
  fetch_bodies [] = pure []
  fetch_bodies (id ∷ ids) = do raw ← ask (E.mget (map event_key (id ∷ ids))); parse_all raw

  unfoldable pub fetch_all : Action (List ProcessedEvent)
  unfolding fetch_bodies
  fetch_all =
      with_redis (do ids ← ask (E.smembers events_index_key); fetch_bodies ids)
        (λ e. log_fallback "fetchAll") (gets (λ w. values w.processed))

  unfoldable pub is_event_processed : String → Action Bool
  is_event_processed id = do found ← try_get id; pure (is_some found)

  unfoldable pub get_processed_events_by_ledger : ℕ → Action (List ProcessedEvent)
  get_processed_events_by_ledger ledger = do
    all ← fetch_all
    pure (keep (λ p. p.ledger == ledger) all)

  unfoldable pub get_failed_events : Action (List ProcessedEvent)
  get_failed_events = do all ← fetch_all; pure (keep (λ p. not p.success) all)

  -- The results of EXEC are not looked at.
  abbrev remove : String → List String → Action (Unit {0})
  remove operation ids =
      with_redis (do ask (E.exec (clear_commands ids)); pure tt) (λ e. log_fallback operation)
        (modify (λ w. record w { processed = delete_all ids w.processed }))

  abbrev clear : String → (ProcessedEvent → Bool) → Action ℕ
  clear operation p = do
    all ← fetch_all
    let ids = map (λ e. e.event_id) (keep p all)
    when_else (length ids == 0) (pure tt) (remove operation ids)
    pure (length ids)

  unfoldable pub clear_events_before_ledger : ℕ → Action ℕ
  clear_events_before_ledger ledger = clear "clearEventsBeforeLedger" (λ e. ltb e.ledger ledger)

  unfoldable pub clear_events_from_ledger : ℕ → Action ℕ
  clear_events_from_ledger ledger = clear "clearEventsFromLedger" (λ e. leb ledger e.ledger)

  unfoldable pub clear_event_by_id : String → Action (Unit {0})
  clear_event_by_id id = remove "clearEventById" (id ∷ [])

  -- A failed record is cleared first, so that its event counts as new.
  unfoldable pub retry_one : ProcessedEvent → Action (List ProcessedEvent)
  retry_one p = elim p.original_event [
    | none ↦ pure []
    | some event ↦ do clear_event_by_id p.event_id; r ← process_event event; pure (r ∷ [])
  ]

  unfoldable pub retry_each : List ProcessedEvent → Action (List ProcessedEvent)
  retry_each [] = pure []
  retry_each (p ∷ ps) = do r ← retry_one p; rs ← retry_each ps; pure (r ++ rs)

  unfoldable pub retry_failed_events : Action (List ProcessedEvent)
  retry_failed_events = do failed ← get_failed_events; retry_each failed
