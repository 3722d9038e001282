-- ===== src/Tests/FailoverRuns.antt =====
-- The theorems on the failover of RPC endpoints at concrete states.
use trustflow_backend.Prelude.{◌+◌, ◌≡◌, refl, String, some, none, [], ◌∷◌, true, false, length}
use trustflow_backend.Stellar.Failover.{
  EndpointStatus, Pool, RpcFailover, endpoint_at, perform_health_checks,
}
use trustflow_backend.Stellar.Switching.{refusals, refusals_stay}

abbrev primary : EndpointStatus
primary = record {
  url = "https://a.example";
  healthy = false;
  last_checked = 0;
  failure_count = 2;
  last_error = none;
}

abbrev secondary : EndpointStatus
secondary = record primary { url = "https://b.example"; healthy = true; failure_count = 0 }

abbrev pair : Pool
pair = record { endpoints = primary ∷ secondary ∷ []; current = "https://a.example" }

abbrev service : RpcFailover
service = record { horizon = pair; soroban = pair }

refusals_stay_example :
    (after : EndpointStatus) × (endpoint_at
        (perform_health_checks (refusals ("503" ∷ "500" ∷ []) 9 0) service).horizon.endpoints
        0
      ≡ some after)
    × (after.healthy ≡ false)
    × (after.failure_count ≡ primary.failure_count + length {A = String} ("503" ∷ "500" ∷ []))
    × ((perform_health_checks (refusals ("503" ∷ "500" ∷ []) 9 0) service).horizon.current
        ≡ service.horizon.current)
    × (primary.url
        ≡ (perform_health_checks (refusals ("503" ∷ "500" ∷ []) 9 0) service).horizon.current)
unfolding endpoint_at
refusals_stay_example = refusals_stay "503" ("500" ∷ []) 9 0 service {e = primary} refl refl
