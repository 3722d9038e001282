-- ===== src/Idempotency/Server.antt =====
-- What the claims rely on of Redis while no key expires, and of JSON.
use trustflow_backend.Prelude.{ℕ, ◌≡◌, String, Option, none, some, true, false, truthy}
use trustflow_backend.Redis.{replied, set_ex, del}
use trustflow_backend.World.{Env}
use trustflow_backend.Data.Idempotency.{IdempotencyRecord}

-- `value` reads what a key holds.
pub record IsServer (E : Env) : Type 0 where
  pub value : String → E.Remote → Option String
  pub set_free :
      (k v : String) (ttl : ℕ) (r : E.Remote)
      → value k r ≡ none
      → ((E.set_ex_nx k v ttl r).0 ≡ replied true) × (value k (E.set_ex_nx k v ttl r).1 ≡ some v)
  pub set_taken :
      (k v u : String) (ttl : ℕ) (r : E.Remote)
      → value k r ≡ some u
      → E.set_ex_nx k v ttl r ≡ (replied false, r)
  pub get_lem : (k : String) (r : E.Remote) → E.get k r ≡ (replied (value k r), r)
  pub set_lem :
      (k v : String) (ttl : ℕ) (r : E.Remote)
      → ((E.command (set_ex k v ttl) r).0 ≡ replied tt)
        × (value k (E.command (set_ex k v ttl) r).1 ≡ some v)
  pub del_lem :
      (k : String) (r : E.Remote)
      → ((E.command (del k) r).0 ≡ replied tt) × (value k (E.command (del k) r).1 ≡ none)

-- A record that JSON gives back.
pub record IsReadable (E : Env) (known : IdempotencyRecord) : Type 0 where
  pub read_back : E.idempotency_json.parse (E.idempotency_json.stringify known) ≡ some known
  pub not_empty :
      truthy (some (E.idempotency_json.stringify known)) ≡ some (E.idempotency_json.stringify known)
