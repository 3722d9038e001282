-- ===== src/Stellar/Switching.antt =====
-- When the endpoint in use changes, and when it does not.
use trustflow_backend.Prelude.{
  ℕ, zero, suc, ◌+◌, ◌≡◌, refl, ◌∙◌, sym, String, ◌<>◌, length, some, List, [], ◌∷◌, map, Bool,
  false, ◌&&◌, arith, str_eq,
}
use trustflow_backend.Stellar.Failover.{
  EndpointStatus, RpcFailover, faulty, HorizonReply, mark, update_at, endpoint_at, Arrival,
  at_horizon, arrive, perform_health_checks,
}

-- An endpoint with the URL is known to be healthy.
abbrev pub serves : String → EndpointStatus → Bool
serves url e = e.healthy && str_eq e.url url

endpoint_at-update_at :
    (i : ℕ) (f : EndpointStatus → EndpointStatus) (es : List EndpointStatus) {e : EndpointStatus}
    → endpoint_at es i ≡ some e
    → endpoint_at (update_at i f es) i ≡ some (f e)
unfolding endpoint_at update_at
endpoint_at-update_at i f [] h = cc
endpoint_at-update_at zero f (x ∷ es) h = cc
endpoint_at-update_at (suc i) f (x ∷ es) h = endpoint_at-update_at i f es h

-- A check of Horizon that was answered by an HTTP error.
abbrev pub refusals : List String → ℕ → ℕ → List Arrival
refusals codes now i = map (λ code. at_horizon (HorizonReply.status code) now i) codes

refused :
    (code : String) (now i : ℕ) (s : RpcFailover) {e : EndpointStatus}
    → endpoint_at s.horizon.endpoints i ≡ some e
    → (endpoint_at (arrive (at_horizon (HorizonReply.status code) now i) s).horizon.endpoints i
        ≡ some (record e {
          healthy = false;
          failure_count = e.failure_count + 1;
          last_error = some ("HTTP " <> code);
          last_checked = now;
        }))
      × ((arrive (at_horizon (HorizonReply.status code) now i) s).horizon.current
          ≡ s.horizon.current)
unfolding arrive mark
refused code now i s h = (
  endpoint_at-update_at i _ _
      (endpoint_at-update_at i (mark (faulty ("HTTP " <> code))) s.horizon.endpoints h),
  refl,
)

refused_on :
    (codes : List String) (now i : ℕ) (s : RpcFailover) {e : EndpointStatus}
    → endpoint_at s.horizon.endpoints i ≡ some e
    → e.healthy ≡ false
    → (after : EndpointStatus) × (endpoint_at
          (perform_health_checks (refusals codes now i) s).horizon.endpoints
          i
        ≡ some after)
      × (after.healthy ≡ false)
      × (after.failure_count ≡ e.failure_count + length codes)
      × ((perform_health_checks (refusals codes now i) s).horizon.current ≡ s.horizon.current)
unfolding perform_health_checks
refused_on [] now i s {e} h down = (e, h, down, omega arith, refl)
refused_on (code ∷ codes) now i s {e} h down =
    let (there, same) = refused code now i s h in
    let next = arrive (at_horizon (HorizonReply.status code) now i) s in
    let (after, at, down', count, stays) = refused_on codes now i next there refl in
    (after, at, down', omega (arith, count), stays ∙ same)

-- However often Horizon answers the checks of an endpoint by HTTP errors, the endpoint in use stays the same,
-- that one included: it is marked unhealthy and its failures are counted, but no check moves away from it.
pub refusals_stay :
    (code : String) (codes : List String) (now i : ℕ) (s : RpcFailover) {e : EndpointStatus}
    → endpoint_at s.horizon.endpoints i ≡ some e
    → e.url ≡ s.horizon.current
    → (after : EndpointStatus) × (endpoint_at
          (perform_health_checks (refusals (code ∷ codes) now i) s).horizon.endpoints
          i
        ≡ some after)
      × (after.healthy ≡ false)
      × (after.failure_count ≡ e.failure_count + length (code ∷ codes))
      × ((perform_health_checks (refusals (code ∷ codes) now i) s).horizon.current
          ≡ s.horizon.current)
      × (e.url ≡ (perform_health_checks (refusals (code ∷ codes) now i) s).horizon.current)
unfolding perform_health_checks
refusals_stay code codes now i s h used =
    let (there, same) = refused code now i s h in
    let next = arrive (at_horizon (HorizonReply.status code) now i) s in
    let (after, at, down, count, stays) = refused_on codes now i next there refl in
    (after, at, down, omega (arith, count), stays ∙ same, used ∙ sym (stays ∙ same))
