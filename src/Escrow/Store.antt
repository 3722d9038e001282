-- ===== src/Escrow/Store.antt =====
-- How `EscrowService` finds and writes escrows: in Redis while it answers, else in a map.
use trustflow_backend.Prelude.{
  ℕ, ◌+◌, String, ◌<>◌, Option, none, some, List, [], ◌∷◌, Bool, true, false, map, length, keep,
  take, drop, str_eq, truthy, or_default, find_first, not, ◌&&◌,
}
use trustflow_backend.Prelude.Exec.{
  Error, plain, transaction, unavailable, pure, throw, gets, modify, when_else, ◌>>=◌, ◌>>◌,
  throw_if, not_found, or_throw,
}
use trustflow_backend.Prelude.JsMap
use trustflow_backend.Prelude.JsMap.{JsMap, values}
use trustflow_backend.Redis.{Command, set, sadd, zadd, assert_transaction_applied}
use trustflow_backend.Data.Escrow.{Escrow, pending, ChainEscrowSeed}
use trustflow_backend.Data.Outbox.{OutboxEvent, of_escrow}
use trustflow_backend.World.{Env, World, Action, ask, get_now, random_uuid, increment, with_redis}
use trustflow_backend.Outbox.Queue as Outbox

abbrev pub escrow_key : String → String
escrow_key id = "escrow:" <> id

abbrev pub escrows_index_key : String
escrows_index_key = "escrows:index"

abbrev pub depositor_key : String → String
depositor_key address = "escrows:by-depositor:" <> address

abbrev pub contract_key : String → String
contract_key id = "escrow:contract:" <> id

-- An escrow in a caller's hand. One that comes from the map is the stored object itself (`live`),
-- so an assignment to its fields is a write to the map; one that comes from Redis is a copy.
pub record Loaded : Type 0 where
  pub value : Escrow
  pub live : Bool

abbrev pub stored : Escrow → Loaded
stored e = record { value = e; live = true }

abbrev pub copied : Escrow → Loaded
copied e = record { value = e; live = false }

abbrev pub value_of : Option Loaded → Option Escrow
value_of none = none
value_of (some l) = some l.value

abbrev stored? : Option Escrow → Option Loaded
stored? none = none
stored? (some e) = some (stored e)

-- The write of `persist`, before it stores the escrow.
abbrev pub bump : Escrow → Escrow
bump e = record e { version = some (or_default e.version 0 + 1) }

module _ ⦃E : Env⦄ where
  -- `onModuleInit` refuses to start in production with no Redis client.
  unfoldable pub on_module_init : Action (Unit {0})
  on_module_init w =
      throw_if (not w.client && E.production)
        (plain "EscrowService requires REDIS_URL to be configured in production") w

  abbrev pub log_fallback : String → Action (Unit {0})
  log_fallback operation = increment ("escrow_persistence_fallback_total:" <> operation)

  -- rethrowIfInconsistent
  unfoldable pub rethrow_if_inconsistent : String → Error → Action (Unit {0})
  rethrow_if_inconsistent operation (transaction reason m) = do
    increment ("escrow_transaction_inconsistent_total:" <> operation)
    throw (unavailable ("Redis transaction integrity failure in escrow." <> operation <> ": " <> m))
  rethrow_if_inconsistent operation _ = pure tt

  abbrev pub or_fallback : String → Error → Action (Unit {0})
  or_fallback operation e = do rethrow_if_inconsistent operation e; log_fallback operation

  -- JSON.parse(raw) as Escrow
  unfoldable pub parse_escrow : Option String → Action (Option Loaded)
  parse_escrow none = pure none
  parse_escrow (some raw) = elim (E.escrow_json.parse raw) [
    | none ↦ throw (plain "SyntaxError")
    | some e ↦ pure (some (copied e))
  ]

  unfoldable pub find_by_id : String → Action (Option Loaded)
  unfolding parse_escrow truthy
  find_by_id id =
      with_redis (do raw ← ask (E.get (escrow_key id)); parse_escrow (truthy raw))
        (λ e. log_fallback "findById") (gets (λ w. stored? (JsMap.get id w.escrows)))

  -- The entries that are there, parsed.
  unfoldable pub parse_all : List (Option String) → Action (List Escrow)
  parse_all [] = pure []
  parse_all (none ∷ rest) = parse_all rest
  parse_all (some raw ∷ rest) = elim (E.escrow_json.parse raw) [
    | none ↦ throw (plain "SyntaxError")
    | some e ↦ do es ← parse_all rest; pure (e ∷ es)
  ]

  unfoldable pub fetch_many : List String → Action (List Escrow)
  unfolding parse_all
  fetch_many [] = pure []
  fetch_many (id ∷ ids) = do raw ← ask (E.mget (map escrow_key (id ∷ ids))); parse_all raw

  abbrev pub of_depositor : String → Action (List Escrow)
  of_depositor address = gets (λ w. keep (λ e. str_eq e.depositor address) (values w.escrows))

  -- { data, total }
  unfoldable pub find_by_depositor : String → ℕ → ℕ → Action (List Escrow × ℕ)
  unfolding fetch_many
  find_by_depositor address offset limit = do
    all ←
        with_redis (do ids ← ask (E.smembers (depositor_key address)); fetch_many ids)
          (λ e. log_fallback "findByDepositor") (of_depositor address)
    pure (take limit (drop offset all), length all)

  unfoldable pub find_all : Action (List Loaded)
  unfolding fetch_many
  find_all =
      with_redis
        (do ids ← ask (E.zrange escrows_index_key); es ← fetch_many ids; pure (map copied es))
        (λ e. log_fallback "findAll") (gets (λ w. map stored (values w.escrows)))

  abbrev pub links_to : String → Escrow → Bool
  links_to contract_id e = elim e.contract_escrow_id [
    | none ↦ false
    | some c ↦ str_eq c contract_id
  ]

  abbrev find_linked : Option String → Action (Option Loaded)
  find_linked none = pure none
  find_linked (some id) = find_by_id id

  unfoldable pub find_by_contract_escrow_id : String → Action (Option Loaded)
  unfolding find_by_id truthy
  find_by_contract_escrow_id contract_id =
      with_redis (do id ← ask (E.get (contract_key contract_id)); find_linked (truthy id))
        (λ e. log_fallback "findByContractEscrowId")
        (gets (λ w. stored? (find_first (links_to contract_id) (values w.escrows))))

  abbrev pub put : Escrow → World E.Remote → World E.Remote
  put e w = record w { escrows = JsMap.set e.id e w.escrows }

  -- Assignments to the fields of an escrow in hand.
  unfoldable pub assign : Loaded → Escrow → Action Loaded
  assign l e = do
    when_else l.live (modify (put e)) (pure tt)
    pure (record { value = e; live = l.live })

  -- this.outbox?.create(kind, 'escrow', id, escrow)
  abbrev pub create_event : Option String → Escrow → Action (Option OutboxEvent)
  create_event none e = pure none
  create_event (some kind) e =
      when_else E.has_outbox
        (do event ← Outbox.create kind "escrow" e.id (of_escrow e); pure (some event)) (pure none)

  abbrev pub event_commands : Option OutboxEvent → List Command
  event_commands none = []
  event_commands (some event) = Outbox.append_commands event

  abbrev pub append_event : Option OutboxEvent → Action (Unit {0})
  append_event none = pure tt
  append_event (some event) = Outbox.append event

  abbrev pub set_escrow : Escrow → Command
  set_escrow e = set (escrow_key e.id) (E.escrow_json.stringify e)

  -- One MULTI of the given commands, or the map; `operation` names the caller.
  abbrev pub transact : String → List Command → Action (Unit {0}) → Action (Unit {0})
  transact operation commands local =
      with_redis (do results ← ask (E.exec commands); assert_transaction_applied results)
        (or_fallback operation) local

  -- The escrow and its event go to Redis in one MULTI; the version counts every write.
  unfoldable pub persist : Loaded → Option String → Action Loaded
  unfolding assign rethrow_if_inconsistent Outbox.create
  persist l kind = do
    l' ← assign l (bump l.value)
    event ← create_event kind l'.value
    transact "persist" (set_escrow l'.value ∷ event_commands event)
        (do modify (put l'.value); append_event event)
    pure l'

  unfoldable pub create : String → String → String → Action Escrow
  unfolding rethrow_if_inconsistent Outbox.create
  create depositor beneficiary amount_xlm = do
    id ← random_uuid
    now ← get_now
    let e : Escrow = record {
      id = id;
      depositor = depositor;
      beneficiary = beneficiary;
      amount_xlm = amount_xlm;
      status = pending;
      created_at = now.iso;
      dispute_reason = none;
      disputed_at = none;
      contract_escrow_id = none;
      split_percentage = none;
      requires_manual_review = none;
      version = none;
    }
    event ← create_event (some "escrow.created") e
    transact "create"
        (set_escrow e
          ∷ zadd escrows_index_key now.ms id
          ∷ sadd (depositor_key depositor) id
          ∷ event_commands event)
        (do modify (put e); append_event event)
    pure e

  unfoldable pub link_contract_escrow_id : String → String → Action Escrow
  unfolding find_by_id assign rethrow_if_inconsistent
  link_contract_escrow_id id contract_id = do
    found ← find_by_id id
    l ← or_throw found (not_found "Escrow not found")
    l' ← assign l (record (l.value) { contract_escrow_id = some contract_id })
    transact "linkContractEscrowId" (set_escrow l'.value ∷ set (contract_key contract_id) id ∷ [])
        (modify (put l'.value))
    pure l'.value

  unfoldable pub create_from_chain_state : ChainEscrowSeed → Action Escrow
  unfolding rethrow_if_inconsistent
  create_from_chain_state seed = do
    id ← random_uuid
    now ← get_now
    let e : Escrow = record {
      id = id;
      depositor = seed.depositor;
      beneficiary = seed.beneficiary;
      amount_xlm = seed.amount_xlm;
      status = seed.status;
      created_at = now.iso;
      dispute_reason = none;
      disputed_at = none;
      contract_escrow_id = some seed.contract_escrow_id;
      split_percentage = none;
      requires_manual_review = none;
      version = none;
    }
    transact "createFromChainState"
        (set_escrow e
          ∷ zadd escrows_index_key now.ms id
          ∷ sadd (depositor_key e.depositor) id
          ∷ set (contract_key seed.contract_escrow_id) id
          ∷ [])
        (modify (put e))
    pure e
