-- ===== src/Ingestion/Cursor.antt =====
-- `LedgerCursorService`: how far the events of a contract have been ingested.
use trustflow_backend.Prelude.{
  ℕ, ◌+◌, String, ◌<>◌, Option, none, some, Bool, false, not, ◌&&◌, truthy, leb,
}
use trustflow_backend.Prelude.Exec.{plain, pure, throw, gets, modify, when_else, ◌>>=◌, throw_if}
use trustflow_backend.Prelude.JsMap
use trustflow_backend.Redis.{set, del}
use trustflow_backend.World.{Env, World, Action, ask, get_now, increment, with_redis}
use trustflow_backend.Data.Ingestion.{LedgerCheckpoint}

abbrev pub cursor_key : String → String
cursor_key contract_id = "ledger_cursor:" <> contract_id

-- The existing cursor stands at the new ledger or behind it.
abbrev pub is_stale : Option LedgerCheckpoint → ℕ → Bool
is_stale none ledger = false
is_stale (some c) ledger = leb ledger c.last_processed_ledger

module _ ⦃E : Env⦄ where
  unfoldable pub on_module_init : Action (Unit {0})
  on_module_init w =
      throw_if (not w.client && E.production)
        (plain "LedgerCursorService requires REDIS_URL to be configured in production") w

  abbrev pub log_fallback : String → Action (Unit {0})
  log_fallback operation = increment ("ledger_cursor_persistence_fallback_total:" <> operation)

  unfoldable pub parse_checkpoint : Option String → Action (Option LedgerCheckpoint)
  parse_checkpoint none = pure none
  parse_checkpoint (some raw) = elim (E.checkpoint_json.parse raw) [
    | none ↦ throw (plain "SyntaxError")
    | some c ↦ pure (some c)
  ]

  unfoldable pub get_cursor : String → Action (Option LedgerCheckpoint)
  unfolding parse_checkpoint truthy
  get_cursor contract_id =
      with_redis (do raw ← ask (E.get (cursor_key contract_id)); parse_checkpoint (truthy raw))
        (λ e. log_fallback "getCursor")
        (gets (λ w. JsMap.get (cursor_key contract_id) w.checkpoints))

  abbrev pub put_checkpoint : String → LedgerCheckpoint → World E.Remote → World E.Remote
  put_checkpoint key c w = record w { checkpoints = JsMap.set key c w.checkpoints }

  -- The checkpoint that `updateCursor` writes.
  abbrev pub checkpoint_at : ℕ → String → String → String → LedgerCheckpoint
  checkpoint_at ledger position network_hash now = record {
    ledger_sequence = ledger;
    last_processed_ledger = ledger;
    cursor_position = position;
    updated_at = now;
    network_hash = network_hash;
  }

  unfoldable pub write_checkpoint : String → LedgerCheckpoint → Action (Unit {0})
  write_checkpoint contract_id c =
      with_redis (ask (E.command (set (cursor_key contract_id) (E.checkpoint_json.stringify c))))
        (λ e. log_fallback "updateCursor") (modify (put_checkpoint (cursor_key contract_id) c))

  unfoldable pub update_cursor : String → ℕ → String → String → Action (Unit {0})
  update_cursor contract_id ledger position network_hash = do
    existing ← get_cursor contract_id
    when_else (is_stale existing ledger) (pure tt) (do
      now ← get_now
      write_checkpoint contract_id (checkpoint_at ledger position network_hash now.iso))

  unfoldable pub reset_cursor : String → Action (Unit {0})
  reset_cursor contract_id =
      with_redis (ask (E.command (del (cursor_key contract_id)))) (λ e. log_fallback "resetCursor")
        (modify
          (λ w. record w { checkpoints = JsMap.delete (cursor_key contract_id) w.checkpoints }))

  unfoldable pub get_start_ledger : String → Action ℕ
  get_start_ledger contract_id = do
    checkpoint ← get_cursor contract_id
    pure (elim checkpoint [ none ↦ 0 | some c ↦ c.last_processed_ledger + 1 ])
