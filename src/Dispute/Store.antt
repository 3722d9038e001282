-- ===== src/Dispute/Store.antt =====
-- The persistence of `DisputeSagaService`, in Redis or in the fallback maps.
use trustflow_backend.Prelude.{
  String, ◌<>◌, Option, none, some, List, [], ◌∷◌, Bool, true, false, not, ◌&&◌, map, truthy,
}
use trustflow_backend.Prelude.Exec.{
  Error, plain, not_found, pure, throw, gets, modify, or_throw, when_else, throw_if, ◌>>=◌, ◌>>◌,
}
use trustflow_backend.Prelude.JsMap
use trustflow_backend.Prelude.JsMap.{JsMap, values}
use trustflow_backend.Redis.{ExecResults, set, sadd}
use trustflow_backend.Data.Dispute.{DisputeSaga}
use trustflow_backend.Data.Outbox.{of_saga}
use trustflow_backend.World.{Env, World, Action, ask, increment, with_redis}
use trustflow_backend.Outbox.Queue.{send_webhook}

abbrev saga_key : String → String
saga_key id = "saga:" <> id

abbrev sagas_index_key : String
sagas_index_key = "sagas:index"

abbrev escrow_index_key : String → String
escrow_index_key escrow_id = "sagas:by-escrow:" <> escrow_id

-- A saga in a caller's hand: the object of the fallback map itself (`live`), or a copy.
pub record Held : Type 0 where
  pub saga : DisputeSaga
  pub live : Bool

abbrev kept : Option DisputeSaga → Option Held
kept none = none
kept (some s) = some (record { saga = s; live = true })

module _ ⦃E : Env⦄ where
  unfoldable pub on_module_init : Action (Unit {0})
  on_module_init w =
      throw_if (not w.client && E.production)
        (plain "DisputeSagaService requires REDIS_URL to be configured in production") w

  abbrev pub log_fallback : String → Error → Action (Unit {0})
  log_fallback operation e = increment ("dispute_saga_persistence_fallback_total:" <> operation)

  unfoldable pub check_commands : List (Option String) → Action (Unit {0})
  check_commands [] = pure tt
  check_commands (none ∷ rs) = check_commands rs
  check_commands (some m ∷ rs) = throw (plain ("Redis transaction command failed: " <> m))

  -- assertTransactionOk
  unfoldable pub assert_transaction_ok : ExecResults → Action (Unit {0})
  unfolding check_commands
  assert_transaction_ok none =
      throw (plain "Redis transaction aborted (exec() returned null, e.g. a WATCH conflict)")
  assert_transaction_ok (some rs) = check_commands rs

  unfoldable pub parse_saga : Option String → Action (Option Held)
  parse_saga none = pure none
  parse_saga (some raw) = elim (E.saga_json.parse raw) [
    | none ↦ throw (plain "SyntaxError")
    | some s ↦ pure (some (record { saga = s; live = false }))
  ]

  unfoldable pub try_find_by_id : String → Action (Option Held)
  unfolding parse_saga truthy
  try_find_by_id id =
      with_redis (do raw ← ask (E.get (saga_key id)); parse_saga (truthy raw))
        (log_fallback "findById") (gets (λ w. kept (JsMap.get id w.sagas)))

  unfoldable pub find_by_id : String → Action Held
  unfolding try_find_by_id
  find_by_id id = do
    found ← try_find_by_id id
    or_throw found (not_found ("Dispute saga " <> id <> " not found"))

  abbrev find_indexed : Option String → Action (Option Held)
  find_indexed none = pure none
  find_indexed (some id) = try_find_by_id id

  abbrev lookup_index : Option String → World E.Remote → Option Held
  lookup_index none w = none
  lookup_index (some id) w = kept (JsMap.get id w.sagas)

  unfoldable pub find_by_escrow_id : String → Action (Option Held)
  unfolding try_find_by_id truthy
  find_by_escrow_id escrow_id =
      with_redis (do id ← ask (E.get (escrow_index_key escrow_id)); find_indexed (truthy id))
        (log_fallback "findByEscrowId")
        (gets (λ w. lookup_index (truthy (JsMap.get escrow_id w.escrow_index)) w))

  unfoldable pub parse_all : List (Option String) → Action (List DisputeSaga)
  parse_all [] = pure []
  parse_all (none ∷ rest) = parse_all rest
  parse_all (some raw ∷ rest) = elim (E.saga_json.parse raw) [
    | none ↦ throw (plain "SyntaxError")
    | some s ↦ do ss ← parse_all rest; pure (s ∷ ss)
  ]

  unfoldable pub fetch_all : List String → Action (List DisputeSaga)
  unfolding parse_all
  fetch_all [] = pure []
  fetch_all (id ∷ ids) = do raw ← ask (E.mget (map saga_key (id ∷ ids))); parse_all raw

  unfoldable pub find_all : Action (List DisputeSaga)
  unfolding fetch_all
  find_all =
      with_redis (do ids ← ask (E.smembers sagas_index_key); fetch_all ids) (log_fallback "findAll")
        (gets (λ w. values w.sagas))

  abbrev pub put_saga : DisputeSaga → World E.Remote → World E.Remote
  put_saga s w = record w { sagas = JsMap.set s.saga_id s w.sagas }

  -- The index entry goes with the first write. Whether the object itself is in the map afterwards
  -- is the result.
  unfoldable pub create_saga : DisputeSaga → Action Held
  unfolding assert_transaction_ok
  create_saga s =
      with_redis
        (do
          results ← ask (
              E.exec (
                set (saga_key s.saga_id) (E.saga_json.stringify s)
                ∷ sadd sagas_index_key s.saga_id
                ∷ set (escrow_index_key s.escrow_id) s.saga_id
                ∷ []))
          assert_transaction_ok results
          pure (record { saga = s; live = false }))
        (log_fallback "createSaga")
        (do
          modify (put_saga s)
          modify (λ w. record w { escrow_index = JsMap.set s.escrow_id s.saga_id w.escrow_index })
          pure (record { saga = s; live = true }))

  -- The assignments since the last write are in the map already if the object is live.
  unfoldable pub persist_saga : Held → Action (Unit {0})
  unfolding assert_transaction_ok
  persist_saga h = do
    when_else h.live (modify (put_saga h.saga)) (pure tt)
    with_redis
        (do
          results ← ask (
              E.exec (
                set (saga_key h.saga.saga_id) (E.saga_json.stringify h.saga)
                ∷ sadd sagas_index_key h.saga.saga_id
                ∷ []))
          assert_transaction_ok results)
        (log_fallback "persistSaga") (modify (put_saga h.saga))

  -- this.webhookService.dispatch(event, { sagaId, ... })
  unfoldable pub dispatch : String → DisputeSaga → Action (Unit {0})
  unfolding send_webhook
  dispatch event s = send_webhook event (of_saga s.saga_id) none
