-- ===== src/Tests/DedupRuns.antt =====
-- The theorems on deduplication at concrete states.
use trustflow_backend.Prelude.{◌≡◌, ◌≤◌, refl, true, false, arith, length}
use trustflow_backend.Prelude.Exec.{ok}
use trustflow_backend.Prelude.JsMap
use trustflow_backend.Dedup.Gateway.{claim, local_max_entries}
use trustflow_backend.Dedup.Window.{claim_again}
use trustflow_backend.Dedup.Notifications.{claim_key, release_key}
use trustflow_backend.Dedup.Release.{release_key-claim_key}
use trustflow_backend.Tests.{down, off}

claim_again_example :
    (length (claim ⦃E = down⦄ "evt_1" off).1.deliveries ≤ local_max_entries)
    × ((claim ⦃E = down⦄ "evt_1" (claim ⦃E = down⦄ "evt_1" off).1).0 ≡ ok false)
unfolding claim JsMap.get
claim_again_example = claim_again ⦃E = down⦄ "evt_1" off refl refl (omega arith)

release_key-claim_key_example :
    ((claim_key ⦃E = down⦄ "9c56" off).0 ≡ ok true)
    × ((claim_key ⦃E = down⦄ "9c56" (claim_key ⦃E = down⦄ "9c56" off).1).0 ≡ ok false)
    × ((release_key ⦃E = down⦄ "9c56" (claim_key ⦃E = down⦄ "9c56" off).1).1.notified
        ≡ off.notified)
unfolding JsMap.get
release_key-claim_key_example = release_key-claim_key ⦃E = down⦄ "9c56" off refl refl (omega arith)
