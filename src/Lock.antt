-- ===== src/Lock.antt =====
-- common/redis/distributed-lock.service.ts: a lock that is a Redis key with a token.
use trustflow_backend.Prelude.{
  ℕ, String, ◌<>◌, Option, none, some, [], ◌∷◌, Bool, true, ◌==◌, if◌then◌else◌,
}
use trustflow_backend.Prelude.Exec.{plain, message, pure, throw, try_catch, when_else, ◌>>=◌, ◌>>◌}
use trustflow_backend.World.{Env, Action, ask, random_uuid, when_do}

abbrev pub release_lua : String
release_lua =
    "\nif redis.call('GET', KEYS[1]) == ARGV[1] then\n  return redis.call('DEL', KEYS[1])\nend\nreturn 0\n"

abbrev pub renew_lua : String
renew_lua =
    "\nif redis.call('GET', KEYS[1]) == ARGV[1] then\n  return redis.call('PEXPIRE', KEYS[1], ARGV[2])\nend\nreturn 0\n"

module _ ⦃E : Env⦄ where
  -- With no client the lock is free for everyone.
  unfoldable pub try_acquire : String → ℕ → Action (Option String)
  try_acquire key ttl_ms w =
      when_else w.client
        (do
          token ← random_uuid
          won ← ask (E.set_nx key token ttl_ms)
          pure (if won then some token else none))
        (do token ← random_uuid; pure (some token)) w

  unfoldable pub release : String → String → Action (Unit {0})
  release key token w =
      when_do w.client
        (try_catch (do ask (E.eval_number release_lua (key ∷ []) (token ∷ [])); pure tt)
          (λ e. pure tt))
        w

  unfoldable pub renew_if_owned : String → String → ℕ → Action Bool
  renew_if_owned key token ttl_ms w =
      when_else w.client
        (try_catch
          (do
            result ← ask (E.eval_number renew_lua (key ∷ []) (token ∷ E.number_text ttl_ms ∷ []))
            pure (result == 1))
          (λ e. throw (plain ("Failed to renew lock " <> key <> ": " <> message e))))
        (pure true) w
