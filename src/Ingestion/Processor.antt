-- ===== src/Ingestion/Processor.antt =====
-- `EventProcessorService`: what each event of the contract does to the escrows, once.
use Prim.Native.Char.{code}
use trustflow_backend.Prelude.{
  ℕ, String, ◌<>◌, Option, none, some, List, [], ◌∷◌, Bool, true, not, ◌&&◌, ◌||◌, leb, ◌==◌,
  truthy, or_default, str_eq, is_some, if◌then◌else◌,
}
use trustflow_backend.Prelude.Exec.{
  plain, message, pure, throw, gets, modify, when_else, ◌>>=◌, ◌>>◌, throw_if, try_catch, or_throw,
}
use trustflow_backend.Prelude.JsMap
use trustflow_backend.Prelude.JsMap.{values}
use trustflow_backend.Redis.{set, sadd}
use trustflow_backend.World.{Env, World, Action, ask, get_now, increment, with_redis}
use trustflow_backend.Data.Escrow.{Escrow, pending}
use trustflow_backend.Data.Ingestion.{Field, absent, text, other, SorobanEvent, ProcessedEvent}
use trustflow_backend.Escrow.Store.{find_by_contract_escrow_id, create_from_chain_state}
use trustflow_backend.Escrow.Lifecycle.{fund, release, raise_dispute}
use trustflow_backend.Dispute.Escalation.{escalate_from_chain}
use trustflow_backend.Dispute.Store.{assert_transaction_ok}

abbrev pub event_key : String → String
event_key id = "processed-event:" <> id

abbrev pub events_index_key : String
events_index_key = "processed-events:index"

abbrev codes : String → List ℕ
codes String.[] = []
codes (String.◌∷◌ c s) = code c ∷ codes s

-- The code points that String.prototype.trim strips.
abbrev is_space : ℕ → Bool
is_space c =
    leb 9 c && leb c 13
    || c == 32
    || c == 0xa0
    || c == 0x1680
    || leb 0x2000 c && leb c 0x200a
    || c == 0x2028
    || c == 0x2029
    || c == 0x202f
    || c == 0x205f
    || c == 0x3000
    || c == 0xfeff

abbrev all_space : List ℕ → Bool
all_space [] = true
all_space (c ∷ cs) = is_space c && all_space cs

-- s.trim() === ''
unfoldable pub is_blank : String → Bool
is_blank s = all_space (codes s)

-- event.topic[1]
abbrev pub second_topic : List String → Option String
second_topic (a ∷ b ∷ rest) = some b
second_topic _ = none

-- The text that `getContractEscrowId` settles on, none if it is no text or blank.
unfoldable pub contract_id_of : SorobanEvent → Option String
unfolding is_blank
contract_id_of event =
    from event.value.contract_escrow_id
      (from event.value.escrow_id (usable (or_default (second_topic event.topic) event.id)))
  where
    usable : String → Option String
    usable s = if is_blank s then none else some s

    -- a ?? b
    from : Field → Option String → Option String
    from absent rest = rest
    from (text s) rest = usable s
    from other rest = none

module _ ⦃E : Env⦄ where
  unfoldable pub on_module_init : Action (Unit {0})
  on_module_init w =
      throw_if (not w.client && E.production)
        (plain "EventProcessorService requires REDIS_URL to be configured in production") w

  abbrev pub log_fallback : String → Action (Unit {0})
  log_fallback operation = increment ("event_processor_persistence_fallback_total:" <> operation)

  abbrev pub id_of : SorobanEvent → String
  id_of event = E.number_text event.ledger <> "-" <> event.id

  unfoldable pub parse_processed : Option String → Action (Option ProcessedEvent)
  parse_processed none = pure none
  parse_processed (some raw) = elim (E.processed_json.parse raw) [
    | none ↦ throw (plain "SyntaxError")
    | some p ↦ pure (some p)
  ]

  unfoldable pub try_get : String → Action (Option ProcessedEvent)
  unfolding parse_processed truthy
  try_get id =
      with_redis (do raw ← ask (E.get (event_key id)); parse_processed (truthy raw))
        (λ e. log_fallback "isEventProcessed") (gets (λ w. JsMap.get id w.processed))

  abbrev pub put_processed : ProcessedEvent → World E.Remote → World E.Remote
  put_processed p w = record w { processed = JsMap.set p.event_id p w.processed }

  -- `assertTransactionOk` reads as the one of the saga does.
  unfoldable pub persist : ProcessedEvent → Action (Unit {0})
  unfolding assert_transaction_ok
  persist p =
      with_redis
        (do
          results ← ask (
              E.exec (
                set (event_key p.event_id) (E.processed_json.stringify p)
                ∷ sadd events_index_key p.event_id
                ∷ []))
          assert_transaction_ok results)
        (λ e. log_fallback "persist") (modify (put_processed p))

  unfoldable pub get_contract_escrow_id : SorobanEvent → Action String
  get_contract_escrow_id event =
      or_throw (contract_id_of event)
        (plain ("Missing contract escrow id for " <> event.event_type <> " event " <> event.id))

  unfoldable pub resolve_escrow : SorobanEvent → Action Escrow
  resolve_escrow event = do
    contract_id ← get_contract_escrow_id event
    found ← find_by_contract_escrow_id contract_id
    l ← or_throw found (plain ("No DB escrow linked to contract escrow id " <> contract_id))
    pure l.value

  unfoldable pub handle_escrow_created : SorobanEvent → Action (Unit {0})
  handle_escrow_created event = do
    contract_id ← get_contract_escrow_id event
    existing ← find_by_contract_escrow_id contract_id
    when_else (is_some existing) (pure tt) (do
      create_from_chain_state (record {
        contract_escrow_id = contract_id;
        depositor = event.value.depositor;
        beneficiary = event.value.beneficiary;
        amount_xlm = event.value.amount;
        status = pending;
      })
      pure tt)

  unfoldable pub handle_escrow_funded : SorobanEvent → Action (Unit {0})
  handle_escrow_funded event = do e ← resolve_escrow event; fund e.id; pure tt

  unfoldable pub handle_escrow_released : SorobanEvent → Action (Unit {0})
  handle_escrow_released event = do e ← resolve_escrow event; release e.id; pure tt

  unfoldable pub handle_escrow_disputed : SorobanEvent → Action (Unit {0})
  handle_escrow_disputed event = do
    e ← resolve_escrow event
    let reason = or_default event.value.reason "Dispute raised on-chain"
    when_else E.has_saga (do escalate_from_chain e.id reason; pure tt)
        (do raise_dispute e.id (some reason); pure tt)

  -- An unknown type is logged and does nothing.
  unfoldable pub apply_event : SorobanEvent → Action (Unit {0})
  apply_event event =
      when_else (str_eq event.event_type "escrow_created") (handle_escrow_created event) (
        when_else (str_eq event.event_type "escrow_funded") (handle_escrow_funded event) (
          when_else (str_eq event.event_type "escrow_released") (handle_escrow_released event) (
            when_else (str_eq event.event_type "escrow_disputed") (handle_escrow_disputed event)
              (pure tt))))

  -- The record of an event that was applied, or failed with an error.
  abbrev pub outcome : SorobanEvent → Option String → String → ProcessedEvent
  outcome event error now = record {
    event_id = id_of event;
    ledger = event.ledger;
    success = not (is_some error);
    error = error;
    processed_at = now;
    original_event = some event;
  }

  unfoldable pub conclude : SorobanEvent → Option String → Action ProcessedEvent
  conclude event error = do
    now ← get_now
    persist (outcome event error now.iso)
    pure (outcome event error now.iso)

  unfoldable pub process_new : SorobanEvent → Action ProcessedEvent
  process_new event =
      try_catch (do apply_event event; conclude event none) (λ e. conclude event (some (message e)))

  abbrev pub process_found : SorobanEvent → Option ProcessedEvent → Action ProcessedEvent
  process_found event (some existing) = pure existing
  process_found event none = process_new event

  unfoldable pub process_event : SorobanEvent → Action ProcessedEvent
  process_event event = do existing ← try_get (id_of event); process_found event existing
