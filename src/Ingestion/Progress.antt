-- ===== src/Ingestion/Progress.antt =====
-- The progress of `LedgerCursorService` with no Redis client.
use trustflow_backend.Prelude.{
  ℕ, ◌≤◌, String, ◌≡◌, Option, none, some, false, arith, List, [], ◌∷◌, Bool-cases, Option-cases,
  inl, inr, str_eq, eq_iff,
}
use trustflow_backend.Prelude.Exec.{ok}
use trustflow_backend.Prelude.JsMap
use trustflow_backend.Prelude.JsMap.{get-set}
use trustflow_backend.World.{Env, World}
use trustflow_backend.Data.Ingestion.{LedgerCheckpoint}
use trustflow_backend.Ingestion.Cursor.{
  cursor_key, is_stale, get_cursor, write_checkpoint, checkpoint_at, update_cursor,
}

-- One call of `updateCursor`.
pub record Update : Type 0 where
  pub contract_id : String
  pub ledger : ℕ
  pub position : String
  pub network_hash : String

-- The ledger up to which the events under a key are processed.
abbrev pub reached : Option LedgerCheckpoint → ℕ
reached none = 0
reached (some c) = c.last_processed_ledger

module _ ⦃E : Env⦄ where
  unfoldable pub run_updates : List Update → World E.Remote → World E.Remote
  run_updates [] w = w
  run_updates (u ∷ us) w =
      run_updates us (update_cursor u.contract_id u.ledger u.position u.network_hash w).1

  -- The cursor is at the ledger or beyond it: nothing happens.
  pub update_cursor_stale :
      (w : World E.Remote) (contract_id : String) (ledger : ℕ) (position network_hash : String)
      {c : LedgerCheckpoint}
      → w.client ≡ false
      → JsMap.get (cursor_key contract_id) w.checkpoints ≡ some c
      → ledger ≤ c.last_processed_ledger
      → update_cursor contract_id ledger position network_hash w ≡ (ok tt, w)
  unfolding update_cursor get_cursor
  update_cursor_stale w contract_id ledger position network_hash off g le = ground (arith)

  update_cursor_frame :
      (w : World E.Remote) (u : Update) (key : String)
      → w.client ≡ false
      → ((update_cursor u.contract_id u.ledger u.position u.network_hash w).1.client ≡ false)
        × (reached (JsMap.get key w.checkpoints)
            ≤ reached (
                JsMap.get key
                  (update_cursor u.contract_id u.ledger u.position u.network_hash w).1.checkpoints))
  unfolding update_cursor get_cursor write_checkpoint
  update_cursor_frame w u key off =
      let written = checkpoint_at u.ledger u.position u.network_hash (E.clock w.ticks).iso in
      elim (Bool-cases (is_stale (JsMap.get (cursor_key u.contract_id) w.checkpoints) u.ledger)) [
        | inl stale ↦ (ground (arith), ground (arith))
        | inr fresh ↦ (
          ground (arith),
          (elim (Bool-cases (str_eq (cursor_key u.contract_id) key)) [
            | inl same ↦
                let here : cursor_key u.contract_id ≡ key =
                  ground (arith, eq_iff (cursor_key u.contract_id) key) in
                elim (Option-cases (JsMap.get key w.checkpoints)) [
                  | inl gone ↦ ground (arith, fresh)
                  | inr (c, g) ↦
                      ground
                        (arith, get-set (cursor_key u.contract_id) key written w.checkpoints, here)
                ]
            | inr other ↦
                ground (arith, get-set (cursor_key u.contract_id) key written w.checkpoints)
          ]),
        )
      ]

  -- With no client, no sequence of updates moves a cursor back, whatever ledgers they name and in
  -- whatever order they come.
  pub run_updates_monotone :
      (us : List Update) (w : World E.Remote) (key : String)
      → w.client ≡ false
      → reached (JsMap.get key w.checkpoints)
        ≤ reached (JsMap.get key (run_updates us w).checkpoints)
  unfolding run_updates
  run_updates_monotone [] w key off = omega arith
  run_updates_monotone (u ∷ us) w key off =
      let (off', step) = update_cursor_frame w u key off in
      omega (
        arith,
        step,
        run_updates_monotone us (update_cursor u.contract_id u.ledger u.position u.network_hash w).1
            key off',
      )
