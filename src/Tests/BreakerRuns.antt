-- ===== src/Tests/BreakerRuns.antt =====
-- The theorem on circuit breakers at a breaker whose circuit is always closed.
use trustflow_backend.Prelude.{◌≡◌, refl, String, List, [], ◌∷◌, ◌++◌, some, none, false}
use trustflow_backend.Prelude.Exec.{Result, ok, Exec}
use trustflow_backend.Prelude.JsMap
use trustflow_backend.Breaker.Service.{Opossum, Breakers, CircuitBreakerOptions, execute}
use trustflow_backend.Breaker.Stale.{Job, serve, serve_all, execute_first}

abbrev passing : Opossum (List String) String
passing = record {
  Circuit = Unit {0};
  Stats = Unit {0};
  closed = λ settings. tt;
  fire = λ settings fallback fn circuit w. (fn w, circuit);
  opened = λ circuit. false;
  half_open = λ circuit. false;
  stats = λ circuit. tt;
}

-- Pinning a CID, with the CIDs pinned so far.
abbrev pin : String → Exec (List String) String
pin cid w = (ok cid, w ++ cid ∷ [])

abbrev minute : CircuitBreakerOptions (List String) String
minute = record {
  timeout = some 60000;
  error_threshold_percentage = none;
  reset_timeout = none;
  rolling_count_timeout = none;
  rolling_count_buckets = none;
  fallback = none;
}

abbrev pin_first : Job (List String) String
pin_first = record { name = "ipfs-pin-pinata"; fn = pin "bafyA"; options = minute }

abbrev none_yet : Breakers (List String) String (Unit {0})
none_yet = record { world = []; breakers = [] }

execute_first_example :
    let later = (serve ⦃O = passing⦄ pin_first none_yet).1 in
    let (result, after) = execute ⦃O = passing⦄ "ipfs-pin-pinata" (pin "bafyB") minute later in
    let expected : Result String × List String = (ok "bafyA", "bafyA" ∷ "bafyA" ∷ []) in
    Unit {0} × ((result, after.world) ≡ expected)
unfolding execute serve_all JsMap.get
execute_first_example = execute_first ⦃O = passing⦄ pin_first [] none_yet (pin "bafyB") minute refl
