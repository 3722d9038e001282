-- ===== src/Tests/EscrowRuns.antt =====
-- The theorems on escrows at concrete states.
use trustflow_backend.Prelude.{◌≡◌, refl, none, some, List, [], ◌∷◌}
use trustflow_backend.Prelude.Exec.{ok, err, redis}
use trustflow_backend.Prelude.JsMap
use trustflow_backend.Redis.{applied, check_results}
use trustflow_backend.Data.Escrow.{Escrow, Milestone, active, approved}
use trustflow_backend.Data.Outbox.{OutboxEvent, OutboxStatus, of_escrow}
use trustflow_backend.Escrow.Store.{persist, copied, bump}
use trustflow_backend.Escrow.Machine.{
  Move, to_fund, to_release, to_cancel, to_split, to_dispute, run_move, Holds, IsMoved,
  run_move_accepted,
}
use trustflow_backend.Escrow.Remote.{Applies, IsDown, persist_one_transaction, persist_outage}
use trustflow_backend.Escrow.Lifecycle.{apply_chain_state, load, patched_status}
use trustflow_backend.Escrow.Store.{assign}
use trustflow_backend.Escrow.Chain.{mismatch, apply_chain_state_once}
use trustflow_backend.Data.Escrow.{ChainStatePatch}
use trustflow_backend.Tests.{down, up, deal, design, off, on}

deal-Holds : Holds ⦃E = down⦄ off deal
unfolding JsMap.get
deal-Holds = record { off = refl; at = refl }

abbrev script : List Move
script = to_fund ∷ to_dispute (some "Late") ∷ to_release ∷ to_cancel ∷ to_split 50 ∷ []

run_move_accepted_example :
    IsMoved ⦃E = down⦄ to_fund off deal (run_move ⦃E = down⦄ to_fund "escrow_1" off)
run_move_accepted_example = run_move_accepted ⦃E = down⦄ to_fund off deal deal-Holds refl

up-Applies : Applies ⦃E = up⦄
unfolding applied check_results
up-Applies = record { exec = λ cs r. (_, refl, refl) }

persist_one_transaction_example :
    (event : OutboxEvent) × (event.kind ≡ "escrow.funded")
    × (event.aggregate_id ≡ "escrow_1")
    × (event.payload ≡ of_escrow (bump deal))
    × (event.status ≡ OutboxStatus.pending)
    × (event.attempts ≡ 0)
    × ((persist ⦃E = up⦄ (copied deal) (some "escrow.funded") on).0 ≡ ok (copied (bump deal)))
    × ((persist ⦃E = up⦄ (copied deal) (some "escrow.funded") on).1.remote ≡ tt)
    × ((persist ⦃E = up⦄ (copied deal) (some "escrow.funded") on).1.escrows ≡ on.escrows)
    × ((persist ⦃E = up⦄ (copied deal) (some "escrow.funded") on).1.memory ≡ on.memory)
persist_one_transaction_example =
    persist_one_transaction ⦃E = up⦄ on deal "escrow.funded" refl up-Applies refl

down-IsDown : IsDown ⦃E = down⦄ "ECONNREFUSED"
down-IsDown = record { exec = λ cs r. refl }

persist_outage_example :
    ((persist ⦃E = down⦄ (copied deal) (some "escrow.funded") on).0 ≡ err (redis "ECONNREFUSED"))
    × (JsMap.get "escrow_1" (persist ⦃E = down⦄ (copied deal) (some "escrow.funded") on).1.escrows
        ≡ some (bump deal))
persist_outage_example =
    persist_outage ⦃E = down⦄ on deal "escrow.funded" "ECONNREFUSED" refl down-IsDown refl

abbrev signed : Milestone
signed = record design {
  status = approved;
  approver = some "GDEP";
  approved_at = some "2026-01-01T00:00:00.000Z";
}

abbrev activate : ChainStatePatch
activate = record { status = some "active"; amount_xlm = none }

abbrev raise : ChainStatePatch
raise = record { status = none; amount_xlm = some "300" }

apply_chain_state_once_example :
    (apply_chain_state ⦃E = down⦄ "escrow_1" raise
      (some 1)
      (apply_chain_state ⦃E = down⦄ "escrow_1" activate (some 1) off).1).0
    ≡ err mismatch
unfolding apply_chain_state JsMap.get load patched_status assign persist
apply_chain_state_once_example =
    apply_chain_state_once ⦃E = down⦄ off deal activate raise 1
      {e1 = record deal { status = active; version = some 2 }} deal-Holds refl
