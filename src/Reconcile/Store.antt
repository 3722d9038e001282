-- ===== src/Reconcile/Store.antt =====
-- `EscrowReconciliationStateStore`: the runs of the reconciliation, in Redis or in a map.
use trustflow_backend.Prelude.{
  String, ◌<>◌, Option, none, some, List, [], ◌∷◌, not, ◌&&◌, map, sort_by, truthy,
}
use trustflow_backend.Prelude.Exec.{plain, pure, throw, gets, modify, throw_if, ◌>>=◌}
use trustflow_backend.Prelude.JsMap
use trustflow_backend.Prelude.JsMap.{values}
use trustflow_backend.Redis.{set, zadd}
use trustflow_backend.Data.Reconciliation.{ReconciliationRun}
use trustflow_backend.World.{Env, Action, ask, increment, with_redis}
use trustflow_backend.Dispute.Store.{assert_transaction_ok}

abbrev pub run_key : String → String
run_key id = "escrow-reconciliation:run:" <> id

abbrev pub runs_index_key : String
runs_index_key = "escrow-reconciliation:runs:index"

module _ ⦃E : Env⦄ where
  unfoldable pub on_module_init : Action (Unit {0})
  on_module_init w =
      throw_if (not w.client && E.production)
        (plain "EscrowReconciliationStateStore requires REDIS_URL to be configured in production") w

  abbrev pub log_fallback : String → Action (Unit {0})
  log_fallback operation =
      increment ("escrow_reconciliation_persistence_fallback_total:" <> operation)

  -- `assertTransactionOk` reads as the one of the saga does.
  unfoldable pub save : ReconciliationRun → Action (Unit {0})
  unfolding assert_transaction_ok
  save run =
      with_redis
        (do
          results ← ask (
              E.exec (
                set (run_key run.run_id) (E.run_json.stringify run)
                ∷ zadd runs_index_key (E.time_of run.started_at) run.run_id
                ∷ []))
          assert_transaction_ok results)
        (λ e. log_fallback "save")
        (modify (λ w. record w { runs = JsMap.set run.run_id run w.runs }))

  unfoldable pub parse_run : Option String → Action (Option ReconciliationRun)
  parse_run none = pure none
  parse_run (some raw) = elim (E.run_json.parse raw) [
    | none ↦ throw (plain "SyntaxError")
    | some run ↦ pure (some run)
  ]

  unfoldable pub find_by_id : String → Action (Option ReconciliationRun)
  unfolding parse_run truthy
  find_by_id id =
      with_redis (do raw ← ask (E.get (run_key id)); parse_run (truthy raw))
        (λ e. log_fallback "findById") (gets (λ w. JsMap.get id w.runs))

  unfoldable pub parse_all : List (Option String) → Action (List ReconciliationRun)
  parse_all [] = pure []
  parse_all (none ∷ rest) = parse_all rest
  parse_all (some raw ∷ rest) = elim (E.run_json.parse raw) [
    | none ↦ throw (plain "SyntaxError")
    | some run ↦ do runs ← parse_all rest; pure (run ∷ runs)
  ]

  unfoldable pub fetch_many : List String → Action (List ReconciliationRun)
  unfolding parse_all
  fetch_many [] = pure []
  fetch_many (id ∷ ids) = do raw ← ask (E.mget (map run_key (id ∷ ids))); parse_all raw

  -- Newest first.
  abbrev pub newest : List ReconciliationRun → List ReconciliationRun
  newest = sort_by (λ a b. E.locale_after b.started_at a.started_at)

  unfoldable pub find_all : Action (List ReconciliationRun)
  unfolding fetch_many sort_by
  find_all =
      with_redis (do ids ← ask (E.zrange runs_index_key); runs ← fetch_many ids; pure (newest runs))
        (λ e. log_fallback "findAll") (gets (λ w. newest (values w.runs)))
