-- ===== src/Tests/OutboxRuns.antt =====
-- The theorems on the outbox at concrete states.
use trustflow_backend.Prelude.{refl, List, [], ◌∷◌}
use trustflow_backend.Prelude.Exec.{throw, plain}
use trustflow_backend.Prelude.JsMap
use trustflow_backend.Prelude.JsSet
use trustflow_backend.World.{World}
use trustflow_backend.Outbox.Queue.{append, claim_due}
use trustflow_backend.Outbox.Delivery.{IsLocal, Reach, here, next, appended, claimed, Reach-IsLocal}
use trustflow_backend.Outbox.Relay.{RelayConfig, Handlers}
use trustflow_backend.Prelude.JsSet.{IsDistinct}
use trustflow_backend.Data.Outbox.{escrow_created}
use trustflow_backend.Outbox.Attempts.{Request, to_create, to_process, to_replay}
use trustflow_backend.Outbox.Queue.{claim_due}
use trustflow_backend.Tests.{down, shipped, off}

empty-IsLocal : IsLocal ⦃E = down⦄ off
unfolding JsMap.get JsSet.has
empty-IsLocal = record {
  off = refl;
  sound = record {
    keyed = λ id e h. cc;
    known = λ id h. cc;
    disjoint = λ id h. cc;
    exact = λ id e h. cc;
  };
}

abbrev shipped_world : World (Unit {0})
shipped_world = (append ⦃E = down⦄ shipped off).1

shipped-Reach : Reach ⦃E = down⦄ off (claim_due ⦃E = down⦄ "claim" 5 30 10 shipped_world).1
unfolding JsMap.get
shipped-Reach = next (next here (appended shipped refl refl)) (claimed "claim" 5 30 10)

Reach-IsLocal_example : IsLocal ⦃E = down⦄ (claim_due ⦃E = down⦄ "claim" 5 30 10 shipped_world).1
Reach-IsLocal_example = Reach-IsLocal ⦃E = down⦄ empty-IsLocal shipped-Reach

shipped-IsLocal : IsLocal ⦃E = down⦄ shipped_world
unfolding JsMap.get
shipped-IsLocal = Reach-IsLocal ⦃E = down⦄ empty-IsLocal (next here (appended shipped refl refl))

abbrev requests : List (Request ⦃E = down⦄)
requests = to_create escrow_created "{}" ∷ to_process "obx-12-7f3a" ∷ to_replay "obx-12-7f3a" ∷ []

abbrev relay : RelayConfig
relay = record {
  batch_size = 10;
  lease_ms = 30;
  queue_max_length = 1000;
  claim_script = "claim";
  reclaim_script = "reclaim";
}

-- A handler that always throws.
abbrev broken : Handlers ⦃E = down⦄
broken = ("*", (λ event. throw (plain "broken")) ∷ []) ∷ []
