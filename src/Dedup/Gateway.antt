-- ===== src/Dedup/Gateway.antt =====
-- `EventDedupService`: which replica broadcasts an outbox event.
use trustflow_backend.Prelude.{
  ℕ, suc, ◌+◌, ◌-◌, ◌*◌, String, ◌<>◌, Option, none, some, [], ◌∷◌, Bool, true, false,
  if◌then◌else◌, keep, length, leb, ltb, str_eq,
}
use trustflow_backend.Prelude.Exec.{pure, gets, modify, when_else, ◌>>=◌, ◌>>◌}
use trustflow_backend.Prelude.JsMap
use trustflow_backend.Prelude.JsMap.{JsMap}
use trustflow_backend.World.{Env, Action, ask, get_now, increment, with_redis}

abbrev pub gateway_dedup_ttl_seconds : ℕ
gateway_dedup_ttl_seconds = 10

abbrev pub key_prefix : String
key_prefix = "dedup:gateway:"

abbrev pub local_max_entries : ℕ
local_max_entries = 1000

-- Entries are deleted from the front, the oldest first.
unfoldable pub evict_oldest : ℕ → JsMap ℕ → JsMap ℕ
evict_oldest limit [] = []
evict_oldest limit (e ∷ rest) =
    let evicted = evict_oldest limit rest in
    if leb (suc (length rest)) limit then e ∷ rest else evicted

unfoldable pub prune_local : ℕ → JsMap ℕ → JsMap ℕ
unfolding keep evict_oldest
prune_local now local = evict_oldest local_max_entries (keep (λ e. ltb now e.1) local)

abbrev pub is_live : Option ℕ → ℕ → Bool
is_live none now = false
is_live (some expiry) now = ltb now expiry

unfoldable pub remember : String → ℕ → JsMap ℕ → JsMap ℕ
unfolding evict_oldest JsMap.set
remember event_id expiry local =
    JsMap.set event_id expiry (evict_oldest (local_max_entries - 1) local)

module _ ⦃E : Env⦄ where
  abbrev pub claim_remote : String → Action Bool
  claim_remote event_id =
      with_redis (ask (E.set_ex_nx (key_prefix <> event_id) "1" gateway_dedup_ttl_seconds))
        (λ e. increment "gateway_event_dedup_redis_error_total") (pure true)

  abbrev pub claim_new : String → ℕ → Action Bool
  claim_new event_id now = do
    won ← claim_remote event_id
    when_else won
        (do
          modify (λ w. record w {
            deliveries = remember event_id (now + gateway_dedup_ttl_seconds * 1000) w.deliveries;
          })
          increment "gateway_event_dedup_claimed_total"
          pure true)
        (do increment "gateway_event_dedup_duplicate_total:redis"; pure false)

  unfoldable pub claim : String → Action Bool
  unfolding prune_local remember
  claim event_id = when_else (str_eq event_id "") (pure true) (do
    now ← get_now
    modify (λ w. record w { deliveries = prune_local now.ms w.deliveries })
    found ← gets (λ w. JsMap.get event_id w.deliveries)
    when_else (is_live found now.ms)
        (do increment "gateway_event_dedup_duplicate_total:local"; pure false)
        (claim_new event_id now.ms))
