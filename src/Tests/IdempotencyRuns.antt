-- ===== src/Tests/IdempotencyRuns.antt =====
-- The theorems on idempotency at a Redis server that keeps one key.
use trustflow_backend.Prelude.{
  keep, any, ◌≡◌, refl, Option, some, none, [], ◌∷◌, Bool, true, false, String, truthy,
}
use trustflow_backend.Prelude.Exec.{Result, ok, err, plain, pure, throw}
use trustflow_backend.Redis.{Reply, replied, rejected, Command, set_ex, del}
use trustflow_backend.World.{Env, World}
use trustflow_backend.Data.Idempotency.{IdempotencyRecord, Request, Response}
use trustflow_backend.Idempotency.Keys.{claim, pending_record, completed_record}
use trustflow_backend.Idempotency.Interceptor.{
  intercept, handle_claimed, endpoint_of, captured_headers,
}
use trustflow_backend.Idempotency.Server.{IsServer, IsReadable}
use trustflow_backend.Idempotency.Taken.{IsKeyed, verdict, intercept_taken}
use trustflow_backend.Idempotency.Replay.{intercept_retry, begun}
use trustflow_backend.Idempotency.Again.{intercept_again}
use trustflow_backend.Tests.{no_json, process_at}

abbrev written : Command → Option String → Option String
written (set_ex k v ttl) r = some v
written (del k) r = none
written c r = r

abbrev put_free : String → Option String → Reply Bool × Option String
put_free v none = (replied true, some v)
put_free v (some u) = (replied false, some u)

-- The server, with JSON for one record.
abbrev one_key : IdempotencyRecord → Env
one_key known = record {
  Remote = Option String;
  get = λ k r. (replied r, r);
  exec = λ cs r. (replied (some []), r);
  command = λ c r. (replied tt, written c r);
  zrangebyscore = λ k n r. (rejected "ECONNREFUSED", r);
  smembers = λ k r. (rejected "ECONNREFUSED", r);
  zrange = λ k r. (rejected "ECONNREFUSED", r);
  mget = λ ks r. (rejected "ECONNREFUSED", r);
  eval = λ s ks args r. (rejected "ECONNREFUSED", r);
  pipeline_get = λ ks r. (rejected "ECONNREFUSED", r);
  eval_number = λ s ks args r. (rejected "ECONNREFUSED", r);
  set_nx = λ k v n r. (rejected "ECONNREFUSED", r);
  set_ex_nx = λ k v n r. put_free v r;
  exists = λ k r. (rejected "ECONNREFUSED", r);
  getdel = λ k r. (rejected "ECONNREFUSED", r);
  eval_text = λ s ks r. (rejected "ECONNREFUSED", r);
  pipeline = λ cs r. (rejected "ECONNREFUSED", r);
  keys = λ p r. (rejected "ECONNREFUSED", r);
  chain_status = λ id r. (replied none, r);
  archive = λ s r. (replied none, r);
  clock = λ n. record { ms = n; iso = "2026-01-01T00:00:00.000Z" };
  random = λ n. "7f3a";
  number_text = λ n. "12";
  iso_of = λ n. "2026-01-04T00:00:00.000Z";
  time_of = λ s. 0;
  amount_ge = λ a b. true;
  amount_le = λ a b. true;
  filter_hash = λ a b. "e3b0c44298fc1c14";
  is_no_amount = λ s. false;
  amount_sum = λ a b. "350";
  to_lower_case = λ s. s;
  sha256_hex = λ s. "e3b0c44298fc1c14";
  locale_after = λ a b. false;
  escrow_json = no_json;
  milestone_json = no_json;
  event_json = no_json;
  saga_json = no_json;
  processed_json = no_json;
  checkpoint_json = no_json;
  gig_json = no_json;
  page_json = no_json;
  run_json = no_json;
  token_json = no_json;
  profile_json = no_json;
  idempotency_json = record { stringify = λ known. "{}"; parse = λ raw. some known };
  idempotency_key_ttl_seconds = 86400;
  outbox_max_attempts = 10;
  outbox_delivered_ttl_seconds = 86400;
  soroban_start_ledger = none;
  gig_search_cache_ttl_seconds = none;
  gig_expiry_sweep_max_gigs = none;
  contract_id = "CESCROW";
  production = false;
  has_outbox = true;
  has_audit = true;
  has_discord = false;
  has_chain_client = false;
  has_saga = true;
}

one_key_server : (known : IdempotencyRecord) → IsServer (one_key known)
one_key_server known = record {
  value = λ k r. r;
  set_free = λ k v ttl r free. free_lem v r free;
  set_taken = λ k v u ttl r taken. taken_lem v u r taken;
  get_lem = λ k r. refl;
  set_lem = λ k v ttl r. (refl, refl);
  del_lem = λ k r. (refl, refl);
}
  where
    free_lem :
        (v : String) (r : Option String)
        → r ≡ none
        → ((put_free v r).0 ≡ replied true) × ((put_free v r).1 ≡ some v)
    free_lem v none free = (refl, refl)
    free_lem v (some u) free = cc

    taken_lem : (v u : String) (r : Option String) → r ≡ some u → put_free v r ≡ (replied false, r)
    taken_lem v u none taken = cc
    taken_lem v u (some w) taken = refl

-- JSON gives back the one record.
one_key-IsReadable : (known : IdempotencyRecord) → IsReadable (one_key known) known
unfolding truthy
one_key-IsReadable known = record { read_back = refl; not_empty = refl }

abbrev order : Request
order = record {
  method = "POST";
  idempotency_key = some "k1";
  sub = some "user_1";
  ip = none;
  route_path = some "/gigs";
  url = "/gigs";
  body = some "[1]";
}

order-IsKeyed : IsKeyed order "k1"
unfolding truthy
order-IsKeyed = record { changes = refl; given = refl }

abbrev waiting : IdempotencyRecord
waiting = pending_record "e3b0c44298fc1c14"

-- A handler that answers by 201, and one that throws.
abbrev created : Response
created = record { status = 201; body = some "[]"; headers = ("location", some "/gigs/1") ∷ [] }

abbrev create_gig : {R : Type 0} → World R → Result Response × World R
create_gig = pure created

abbrev crash : {R : Type 0} → World R → Result Response × World R
crash = throw (plain "boom")

intercept_taken_example :
    ((intercept ⦃E = one_key waiting⦄ true order create_gig (process_at (some "{}") true)).0
      ≡ verdict true waiting waiting.status)
    × ((intercept ⦃E = one_key waiting⦄ true order create_gig
          (process_at (some "{}") true)).1.remote
        ≡ some "{}")
unfolding one_key_server
intercept_taken_example =
    intercept_taken ⦃E = one_key waiting⦄ (one_key_server waiting) order "k1" waiting create_gig
      (process_at (some "{}") true) (one_key-IsReadable waiting) refl order-IsKeyed refl

abbrev cached : IdempotencyRecord
cached = completed_record "e3b0c44298fc1c14" 201 (some "[]") (("location", "/gigs/1") ∷ [])

intercept_again_example :
    let first = intercept ⦃E = one_key cached⦄ true order create_gig (process_at none true) in
    let second = intercept ⦃E = one_key cached⦄ true order crash first.1 in
    (first.0 ≡ ok created) × (second.0 ≡ ok created) × (second.1.remote ≡ first.1.remote)
unfolding claim captured_headers one_key_server keep any
intercept_again_example =
    intercept_again ⦃E = one_key cached⦄ (one_key_server cached) order order "k1" create_gig crash
      (process_at none true) created (one_key-IsReadable cached) refl order-IsKeyed order-IsKeyed
      refl refl refl refl refl

intercept_retry_example :
    let first = intercept ⦃E = one_key cached⦄ true order crash (process_at none true) in
    (first.0 ≡ err (plain "boom"))
    × (intercept ⦃E = one_key cached⦄ true order create_gig first.1
        ≡ handle_claimed ⦃E = one_key cached⦄
            (endpoint_of order)
            "k1"
            "e3b0c44298fc1c14"
            create_gig
            (begun ⦃E = one_key cached⦄ order "k1" first.1))
unfolding claim one_key_server
intercept_retry_example =
    intercept_retry ⦃E = one_key cached⦄ (one_key_server cached) order order "k1" crash create_gig
      (process_at none true) refl order-IsKeyed order-IsKeyed refl refl refl refl
