-- ===== src/Stellar/Failover.antt =====
-- stellar/rpc-failover.service.ts: `RpcFailoverService`.
use trustflow_backend.Prelude.{
  ℕ, zero, suc, ◌+◌, String, ◌<>◌, Option, none, some, List, [], ◌∷◌, map, Bool, true, false,
  if◌then◌else◌, ◌&&◌, leb, str_eq, find_first, truthy, or_default,
}

pub record EndpointStatus : Type 0 where
  pub url : String
  pub healthy : Bool
  pub last_checked : ℕ
  pub failure_count : ℕ
  pub last_error : Option String

-- The endpoints of one kind, and the one in use.
pub record Pool : Type 0 where
  pub endpoints : List EndpointStatus
  pub current : String

pub record RpcFailover : Type 0 where
  pub horizon : Pool
  pub soroban : Pool

-- How a request to Horizon settles: response.ok, another status, or an exception, a timeout included.
pub data HorizonReply : Type 0 where
  answered : HorizonReply
  status : String → HorizonReply
  threw : String → HorizonReply

-- The same for getHealth; of a body, result.status and the text of it all.
pub data SorobanReply : Type 0 where
  body : Option String → String → SorobanReply
  status : String → SorobanReply
  threw : String → SorobanReply

-- What a check finds: no fault, a fault in the answer, or no answer.
pub data Finding : Type 0 where
  fine : Finding
  faulty : String → Finding
  lost : String → Finding

abbrev pub max_failures_before_unhealthy : ℕ
max_failures_before_unhealthy = 3

unfoldable pub horizon_finding : HorizonReply → Finding
horizon_finding HorizonReply.answered = fine
horizon_finding (HorizonReply.status code) = faulty ("HTTP " <> code)
horizon_finding (HorizonReply.threw m) = lost m

abbrev pub is_healthy_text : Option String → Bool
is_healthy_text none = false
is_healthy_text (some text) = str_eq text "healthy"

unfoldable pub soroban_finding : SorobanReply → Finding
soroban_finding (SorobanReply.body text json) =
    if is_healthy_text text then fine else faulty ("Unhealthy status: " <> json)
soroban_finding (SorobanReply.status code) = faulty ("HTTP " <> code)
soroban_finding (SorobanReply.threw m) = lost m

abbrev pub failed_with : String → EndpointStatus → EndpointStatus
failed_with m endpoint = record endpoint {
  healthy = false;
  failure_count = endpoint.failure_count + 1;
  last_error = some m;
}

-- The assignments to the endpoint of a check.
unfoldable pub mark : Finding → EndpointStatus → EndpointStatus
mark fine endpoint = record endpoint { healthy = true; failure_count = 0; last_error = none }
mark (faulty m) endpoint = failed_with m endpoint
mark (lost m) endpoint = failed_with m endpoint

-- An assignment to the endpoint at an index: the objects of the list are those that the checks hold.
unfoldable pub update_at :
    ℕ → (EndpointStatus → EndpointStatus) → List EndpointStatus → List EndpointStatus
update_at i f [] = []
update_at zero f (e ∷ es) = f e ∷ es
update_at (suc i) f (e ∷ es) = e ∷ update_at i f es

unfoldable pub endpoint_at : List EndpointStatus → ℕ → Option EndpointStatus
endpoint_at [] i = none
endpoint_at (e ∷ es) zero = some e
endpoint_at (e ∷ es) (suc i) = endpoint_at es i

-- switchToHealthyHorizonEndpoint and switchToHealthySorobanEndpoint
abbrev pub chosen : Option EndpointStatus → String → String
chosen none current = current
chosen (some endpoint) current = endpoint.url

unfoldable pub switch_to_healthy : Pool → Pool
unfolding find_first
switch_to_healthy pool = record pool {
  current = chosen (find_first (λ e. e.healthy) pool.endpoints) pool.current;
}

-- The endpoint in use has failed often enough.
abbrev pub is_spent : Pool → Option EndpointStatus → Bool
is_spent pool none = false
is_spent pool (some endpoint) =
    str_eq endpoint.url pool.current && leb max_failures_before_unhealthy endpoint.failure_count

-- The end of the catch block.
unfoldable pub after_loss : ℕ → Pool → Pool
unfolding switch_to_healthy endpoint_at
after_loss i pool =
    if is_spent pool (endpoint_at pool.endpoints i) then switch_to_healthy pool else pool

abbrev pub if_lost : Finding → ℕ → Pool → Pool
if_lost fine i pool = pool
if_lost (faulty m) i pool = pool
if_lost (lost m) i pool = after_loss i pool

abbrev pub marked : Finding → ℕ → Pool → Pool
marked finding i pool = record pool { endpoints = update_at i (mark finding) pool.endpoints }

-- finally
abbrev pub checked_at : ℕ → ℕ → Pool → Pool
checked_at now i pool = record pool {
  endpoints = update_at i (λ e. record e { last_checked = now }) pool.endpoints;
}

-- A check of the endpoint at an index, from its answer on.
unfoldable pub settle : Finding → ℕ → ℕ → Pool → Pool
settle finding now i pool = checked_at now i (if_lost finding i (marked finding i pool))

unfoldable pub check_horizon_endpoint : HorizonReply → ℕ → ℕ → RpcFailover → RpcFailover
unfolding settle horizon_finding
check_horizon_endpoint reply now i s = record s {
  horizon = settle (horizon_finding reply) now i s.horizon;
}

unfoldable pub check_soroban_endpoint : SorobanReply → ℕ → ℕ → RpcFailover → RpcFailover
unfolding settle soroban_finding
check_soroban_endpoint reply now i s = record s {
  soroban = settle (soroban_finding reply) now i s.soroban;
}

-- An answer as it arrives: performHealthChecks makes all requests at once, and their checks go on in
-- the order of the answers.
pub data Arrival : Type 0 where
  at_horizon : HorizonReply → ℕ → ℕ → Arrival
  at_soroban : SorobanReply → ℕ → ℕ → Arrival

unfoldable pub arrive : Arrival → RpcFailover → RpcFailover
unfolding check_horizon_endpoint check_soroban_endpoint
arrive (at_horizon reply now i) s = check_horizon_endpoint reply now i s
arrive (at_soroban reply now i) s = check_soroban_endpoint reply now i s

unfoldable pub perform_health_checks : List Arrival → RpcFailover → RpcFailover
unfolding arrive
perform_health_checks [] s = s
perform_health_checks (a ∷ arrivals) s = perform_health_checks arrivals (arrive a s)

abbrev pub fresh : ℕ → String → EndpointStatus
fresh now url = record {
  url = url;
  healthy = true;
  last_checked = now;
  failure_count = 0;
  last_error = none;
}

-- The first endpoint with a URL that is not empty, or else the one of the network.
abbrev pub first_url : List EndpointStatus → String → String
first_url [] default = default
first_url (e ∷ es) default = or_default (truthy (some e.url)) default

unfoldable pub pool_of : ℕ → List String → String → Pool
unfolding truthy
pool_of now urls default =
    let endpoints = map (fresh now) urls in
    record { endpoints = endpoints; current = first_url endpoints default }

-- The URLs are those of the configuration, split at commas and trimmed.
unfoldable pub initialize_endpoints : ℕ → List String → String → List String → String → RpcFailover
unfolding pool_of
initialize_endpoints now horizon_urls horizon_url soroban_urls soroban_rpc_url = record {
  horizon = pool_of now horizon_urls horizon_url;
  soroban = pool_of now soroban_urls soroban_rpc_url;
}
