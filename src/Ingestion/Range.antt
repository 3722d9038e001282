-- ===== src/Ingestion/Range.antt =====
-- A reorg and the cursor of `EventIngestionService`, and the flag that guards a round.
use trustflow_backend.Prelude.{
  ℕ, ◌+◌, ◌-◌, ◌≤◌, String, ◌<>◌, ◌≡◌, ap, ◌∙◌, map, length, some, false, arith, keep, leb,
}
use trustflow_backend.Prelude.Exec.{ok}
use trustflow_backend.Prelude.JsMap
use trustflow_backend.Prelude.JsMap.{values}
use trustflow_backend.World.{Env, World}
use trustflow_backend.Data.Ingestion.{LedgerCheckpoint}
use trustflow_backend.Ingestion.Cursor.{cursor_key, get_cursor, get_start_ledger}
use trustflow_backend.Ingestion.Log.{clear_events_from_ledger, fetch_all}
use trustflow_backend.Ingestion.Progress.{update_cursor_stale}
use trustflow_backend.Ingestion.Service.{Rpc, ingest_events, handle_reorg}

module _ ⦃E : Env⦄ where
  -- Whether it returns or throws, an ingestion leaves the flag of an ingestion in flight as it found
  -- it, whatever Redis and the network answer.
  pub ingest_events_unlocks :
      (R : Rpc E.Remote) (fuel : ℕ) (contract_id : String) (w : World E.Remote)
      → (ingest_events R fuel contract_id w).1.in_flight ≡ w.in_flight
  unfolding ingest_events
  ingest_events_unlocks R fuel contract_id w = ground arith

  clear_from :
      (from_ledger : ℕ) (w : World E.Remote)
      → w.client ≡ false
      → (n : ℕ) × (clear_events_from_ledger from_ledger w).0 ≡ ok n
        × (clear_events_from_ledger from_ledger w).1.client ≡ false
        × (clear_events_from_ledger from_ledger w).1.checkpoints ≡ w.checkpoints
  unfolding clear_events_from_ledger fetch_all
  clear_from from_ledger w off =
      let ids = map (λ e. e.event_id) (keep (λ p. leb from_ledger p.ledger) (values w.processed)) in
      (length ids, ground (arith), ground (arith), ground (arith))

  -- With no client and a cursor, a reorg from a ledger that is processed already, or from the next
  -- one, leaves the cursor where it is: the next round starts after the ledgers that were to be
  -- processed again.
  pub handle_reorg_keeps_cursor :
      (contract_id : String) (from_ledger : ℕ) (w : World E.Remote) {c : LedgerCheckpoint}
      → w.client ≡ false
      → JsMap.get (cursor_key contract_id) w.checkpoints ≡ some c
      → from_ledger ≤ c.last_processed_ledger + 1
      → (get_start_ledger contract_id (handle_reorg contract_id from_ledger w).1).0
        ≡ ok (c.last_processed_ledger + 1)
  unfolding handle_reorg get_start_ledger get_cursor
  handle_reorg_keeps_cursor contract_id from_ledger w {c} off g le =
      let (n, returned, off', same) = clear_from from_ledger w off in
      let v = (clear_events_from_ledger from_ledger w).1 in
      let there : JsMap.get (cursor_key contract_id) v.checkpoints ≡ some c =
        ap (JsMap.get (cursor_key contract_id)) same ∙ g in
      let stale =
        update_cursor_stale v contract_id (from_ledger - 1) ("reorg-" <> E.number_text from_ledger)
          "" off' there (omega (arith, le)) in
      rw (returned, stale, off', there)
