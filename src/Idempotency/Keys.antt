-- ===== src/Idempotency/Keys.antt =====
-- `IdempotencyKeyService`: the claim of a key by a request, and what becomes of it.
use trustflow_backend.Prelude.{ℕ, String, ◌<>◌, Option, none, some, Bool, true, truthy}
use trustflow_backend.Prelude.Exec.{Error, plain, pure, try_catch, when_else, or_throw, ◌>>=◌, ◌>>◌}
use trustflow_backend.Prelude.JsMap.{JsMap}
use trustflow_backend.Redis.{set_ex, del}
use trustflow_backend.World.{Env, Action, ask, increment, when_do}
use trustflow_backend.Data.Idempotency.{
  IdempotencyRecord, pending, completed, ClaimResult, claimed, unclaimed,
}

abbrev pub record_version : ℕ
record_version = 1

abbrev pub build_key : String → String → String
build_key endpoint key = "idempotency:" <> endpoint <> ":" <> key

abbrev pub pending_record : String → IdempotencyRecord
pending_record request_hash = record {
  version = record_version;
  request_hash = request_hash;
  status = pending;
  status_code = none;
  body = none;
  headers = none;
}

abbrev pub completed_record : String → ℕ → Option String → JsMap String → IdempotencyRecord
completed_record request_hash status_code body headers = record {
  version = record_version;
  request_hash = request_hash;
  status = completed;
  status_code = some status_code;
  body = body;
  headers = some headers;
}

module _ ⦃E : Env⦄ where
  -- JSON.stringify(body ?? {}), hashed
  abbrev pub hash_body : Option String → String
  hash_body none = E.sha256_hex "{}"
  hash_body (some body) = E.sha256_hex body

  abbrev pub redis_error : {A : Type 0} → A → Error → Action A
  redis_error a e = do increment "idempotency_redis_error_total"; pure a

  -- The first `try`: whether the caller may proceed.
  abbrev pub set_pending : String → String → Action Bool
  set_pending redis_key request_hash =
      try_catch
        (do
          stored ← ask (
              E.set_ex_nx redis_key (E.idempotency_json.stringify (pending_record request_hash))
                E.idempotency_key_ttl_seconds)
          when_do stored (increment "idempotency_cache_miss_total")
          pure stored)
        (redis_error true)

  abbrev pub read_record : Option String → Action ClaimResult
  read_record none = pure (unclaimed none)
  read_record (some raw) = do
    record_read ← or_throw (E.idempotency_json.parse raw) (plain "SyntaxError")
    pure (unclaimed (some record_read))

  -- The second `try`.
  abbrev pub look_up : String → Action ClaimResult
  look_up redis_key =
      try_catch
        (do
          raw ← ask (E.get redis_key)
          increment "idempotency_cache_hit_total"
          read_record (truthy raw))
        (redis_error claimed)

  abbrev pub try_claim : String → String → Action ClaimResult
  try_claim redis_key request_hash = do
    proceed ← set_pending redis_key request_hash
    when_else proceed (pure claimed) (look_up redis_key)

  unfoldable pub claim : String → String → String → Action ClaimResult
  unfolding truthy
  claim endpoint key request_hash s =
      when_else s.client (try_claim (build_key endpoint key) request_hash) (pure claimed) s

  unfoldable pub finalize :
      String → String → String → ℕ → Option String → JsMap String → Action (Unit {0})
  finalize endpoint key request_hash status_code body headers s =
      when_do s.client
        (try_catch
          (do
            ask (
                E.command (
                  set_ex (build_key endpoint key)
                    (E.idempotency_json.stringify
                      (completed_record request_hash status_code body headers))
                    E.idempotency_key_ttl_seconds))
            increment "idempotency_store_success_total")
          (redis_error tt))
        s

  unfoldable pub release : String → String → Action (Unit {0})
  release endpoint key s =
      when_do s.client (try_catch (ask (E.command (del (build_key endpoint key)))) (redis_error tt))
        s
