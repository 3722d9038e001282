-- ===== src/Tests/IngestionRuns.antt =====
-- The theorems on the ingestion of events at concrete states.
use trustflow_backend.Prelude.{
  ℕ, max, some, ◌⊎◌, ◌+◌, ◌≤◌, ◌<◌, ◌≡◌, refl, none, Bool, false, List, [], ◌∷◌, arith, length,
  keep, sort_by, insert_by, truthy, find_first,
}
use trustflow_backend.Prelude.Exec.{ok}
use trustflow_backend.Prelude.JsMap
use trustflow_backend.World.{World}
use trustflow_backend.Data.Ingestion.{text, absent, SorobanEvent, LedgerCheckpoint}
use trustflow_backend.Ingestion.Cursor.{get_start_ledger, get_cursor}
use trustflow_backend.Ingestion.Processor.{
  process_event, try_get, process_new, apply_event, handle_escrow_funded, resolve_escrow,
  get_contract_escrow_id, contract_id_of, is_blank, conclude, persist,
}
use trustflow_backend.Escrow.Store.{find_by_contract_escrow_id}
use trustflow_backend.Ingestion.Progress.{Update, run_updates, run_updates_monotone, reached}
use trustflow_backend.Ingestion.Once.{process_event_again}
use trustflow_backend.Ingestion.Batch.{batch_of, sort, group}
use trustflow_backend.Ingestion.Order.{Schedule, turn, finished, has_key, IsAscending, batch-order}
use trustflow_backend.Ingestion.Service.{
  LedgerBounds, Rpc, get_ledger_bounds, ingest_next, handle_reorg,
}
use trustflow_backend.Ingestion.Range.{handle_reorg_keeps_cursor}
use trustflow_backend.Ingestion.Round.{round_covers, gather, Covers}
use trustflow_backend.Redis.{replied}
use trustflow_backend.Tests.{down, off}

abbrev funded : SorobanEvent
funded = record {
  id = "0007-1";
  ledger = 7;
  contract_id = "CESCROW";
  event_type = "escrow_funded";
  topic = "escrow_funded" ∷ "c_1" ∷ [];
  value = record {
    depositor = "GDEP";
    beneficiary = "GBEN";
    amount = "250";
    contract_escrow_id = text "c_1";
    escrow_id = absent;
    reason = none;
  };
  xdr = "";
  created_at = "";
}

abbrev earlier : SorobanEvent
earlier = record funded { id = "0006-1"; ledger = 6 }

abbrev checkpoint : LedgerCheckpoint
checkpoint = record {
  ledger_sequence = 9;
  last_processed_ledger = 9;
  cursor_position = "1-9";
  updated_at = "";
  network_hash = "";
}

abbrev ingested : World (Unit {0})
ingested = record off { checkpoints = ("ledger_cursor:CESCROW", checkpoint) ∷ [] }

off_after : (process_event ⦃E = down⦄ funded off).1.client ≡ false
unfolding process_event try_get process_new apply_event handle_escrow_funded resolve_escrow
    get_contract_escrow_id contract_id_of is_blank find_by_contract_escrow_id find_first conclude
    persist JsMap.get
off_after = refl

process_event_again_example :
    process_event ⦃E = down⦄ funded (process_event ⦃E = down⦄ funded off).1
    ≡ process_event ⦃E = down⦄ funded off
process_event_again_example = process_event_again ⦃E = down⦄ funded off refl off_after

abbrev both : List SorobanEvent
both = funded ∷ earlier ∷ []

both-Schedule : Schedule (batch_of ⦃E = down⦄ both).keyed (earlier ∷ funded ∷ [])
unfolding batch_of sort sort_by insert_by group JsMap.get JsMap.set truthy
both-Schedule =
    turn "c_1" earlier (funded ∷ []) refl
      (turn "c_1" funded [] refl (finished (λ key. ground arith)))

batch-order_example :
    (keep (has_key "c_1") (earlier ∷ funded ∷ []) ≡ keep (has_key "c_1") (sort ⦃E = down⦄ both))
    × IsAscending (keep (has_key "c_1") (earlier ∷ funded ∷ []))
    × ((p : SorobanEvent → Bool)
        → length (keep p (keep (has_key "c_1") (earlier ∷ funded ∷ [])))
          ≡ length (keep p (keep (has_key "c_1") both)))
batch-order_example = batch-order ⦃E = down⦄ both "c_1" both-Schedule

abbrev back : List Update
back = record { contract_id = "CESCROW"; ledger = 4; position = "1-4"; network_hash = "" } ∷ []

run_updates_monotone_example :
    reached (JsMap.get "ledger_cursor:CESCROW" ingested.checkpoints)
    ≤ reached (JsMap.get "ledger_cursor:CESCROW" (run_updates ⦃E = down⦄ back ingested).checkpoints)
run_updates_monotone_example =
    run_updates_monotone ⦃E = down⦄ back ingested "ledger_cursor:CESCROW" refl

abbrev bounds : LedgerBounds
bounds = record { latest_ledger = 300; oldest_ledger = 50 }

-- A network with one ledger past the checkpoint that it still has, and no events.
abbrev quiet : Rpc (Unit {0})
quiet = record {
  get_events = λ query r. (replied (record { events = []; cursor = none }), r);
  get_health = λ r. (replied bounds, r);
  get_network = λ r. (replied "hash", r);
}

round_covers_example :
    let ready =
      (get_ledger_bounds ⦃E = down⦄ quiet (get_cursor ⦃E = down⦄ "CESCROW" ingested).1).1 in
    let out = ingest_next ⦃E = down⦄ quiet 5 "CESCROW" ingested in
    (first : ℕ) × (last : ℕ) × (first ≡ max 10 50)
    × (50 ≤ first)
    × (last < first + 100)
    × (last ≤ 300)
    × (((last < first) × (out ≡ (ok [], ready)))
        ⊎ ((first ≤ last)
            × Covers ⦃E = down⦄ quiet 5 "CESCROW" first last
                (gather ⦃E = down⦄ quiet 5 "CESCROW" first last ready)
                out))
unfolding get_cursor get_ledger_bounds JsMap.get
round_covers_example =
    round_covers ⦃E = down⦄ quiet 5 "CESCROW" ingested (some checkpoint) bounds refl refl

handle_reorg_keeps_cursor_example :
    (get_start_ledger ⦃E = down⦄ "CESCROW" (handle_reorg ⦃E = down⦄ "CESCROW" 5 ingested).1).0
    ≡ ok (9 + 1)
unfolding JsMap.get
handle_reorg_keeps_cursor_example =
    handle_reorg_keeps_cursor ⦃E = down⦄ "CESCROW" 5 ingested {c = checkpoint} refl refl
      (omega arith)
