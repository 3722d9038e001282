-- ===== src/Auth/Nonces.antt =====
-- `NonceStoreService`: pending challenges and used nonces.
use trustflow_backend.Prelude.{
  ℕ, ◌+◌, ◌*◌, String, ◌<>◌, Option, none, some, [], ◌∷◌, Bool, true, false, not, keep, leb, ltb,
  ◌==◌, truthy, or_default,
}
use trustflow_backend.Prelude.Exec.{Error, pure, gets, modify, when_else, ◌>>=◌, ◌>>◌}
use trustflow_backend.Prelude.JsMap
use trustflow_backend.Data.Auth.{Challenge}
use trustflow_backend.World.{Env, World, Action, ask, get_now, with_redis}

abbrev pub nonce_ttl_seconds : ℕ
nonce_ttl_seconds = 60

abbrev pub consumed_ttl_seconds : ℕ
consumed_ttl_seconds = 300

abbrev pub getdel_lua : String
getdel_lua =
    "\nlocal val = redis.call('GET', KEYS[1])\nif val then\n  redis.call('DEL', KEYS[1])\nend\nreturn val\n"

abbrev pub challenge_key : String → String
challenge_key address = "auth:nonce:" <> address

abbrev pub nonce_key : String → String
nonce_key nonce = "auth:nonce:used:" <> nonce

-- The time of an entry is over.
abbrev pub is_expired : ℕ → ℕ → Bool
is_expired expires_at now = ltb expires_at now

abbrev pub drop_challenge : {R : Type 0} → String → World R → World R
drop_challenge key w = record w { challenges = JsMap.delete key w.challenges }

unfoldable pub without_expired : {R : Type 0} → ℕ → World R → World R
unfolding keep
without_expired now w = record w {
  challenges = keep (λ e. not (is_expired e.1.expires_at now)) w.challenges;
  consumed = keep (λ e. not (is_expired e.1 now)) w.consumed;
}

module _ ⦃E : Env⦄ where
  abbrev pub warn : Error → Action (Unit {0})
  warn e = pure tt

  unfoldable pub cleanup_expired_entries : Action (Unit {0})
  unfolding without_expired
  cleanup_expired_entries = do now ← get_now; modify (without_expired now.ms)

  -- The last SET NX of `store`, and what it falls back on.
  abbrev pub store_again : String → String → Action String
  store_again key challenge = do
    won ← ask (E.set_ex_nx key challenge nonce_ttl_seconds)
    when_else won (pure challenge)
        (do pending ← ask (E.get key); pure (or_default pending challenge))

  abbrev pub reuse : String → String → Option String → Action String
  reuse key challenge (some pending) = pure pending
  reuse key challenge none = store_again key challenge

  abbrev pub store_remote : String → String → Action String
  store_remote key challenge = do
    won ← ask (E.set_ex_nx key challenge nonce_ttl_seconds)
    when_else won (pure challenge)
        (do pending ← ask (E.get key); reuse key challenge (truthy pending))

  abbrev pub put_challenge : String → String → Action String
  put_challenge key challenge = do
    now ← get_now
    modify (λ w. record w {
      challenges =
          JsMap.set key
            (record { challenge = challenge; expires_at = now.ms + nonce_ttl_seconds * 1000 })
            w.challenges;
    })
    pure challenge

  abbrev pub store_found : String → String → Option Challenge → Action String
  store_found key challenge none = put_challenge key challenge
  store_found key challenge (some c) = do
    now ← get_now
    when_else (leb now.ms c.expires_at) (pure c.challenge) (put_challenge key challenge)

  unfoldable pub store : String → String → Action String
  unfolding cleanup_expired_entries truthy
  store address challenge = with_redis (store_remote (challenge_key address) challenge) warn (do
    cleanup_expired_entries
    pending ← gets (λ w. JsMap.get (challenge_key address) w.challenges)
    store_found (challenge_key address) challenge pending)

  abbrev pub consume_found : String → Option Challenge → Action (Option String)
  consume_found key none = pure none
  consume_found key (some c) = do
    now ← get_now
    modify (drop_challenge key)
    pure (elim (is_expired c.expires_at now.ms) [ true ↦ none | false ↦ some c.challenge ])

  unfoldable pub consume : String → Action (Option String)
  unfolding truthy
  consume address =
      with_redis
        (do
          result ← ask (E.eval_text getdel_lua (challenge_key address ∷ []))
          pure (truthy result))
        warn
        (do
          entry ← gets (λ w. JsMap.get (challenge_key address) w.challenges)
          consume_found (challenge_key address) entry)

  abbrev pub replay_found : String → Option ℕ → Action Bool
  replay_found key none = pure false
  replay_found key (some expires_at) = when_else (expires_at == 0) (pure false) (do
    now ← get_now
    when_else (is_expired expires_at now.ms)
        (do modify (λ w. record w { consumed = JsMap.delete key w.consumed }); pure false)
        (pure true))

  unfoldable pub is_nonce_replay : String → Action Bool
  is_nonce_replay nonce =
      with_redis (do n ← ask (E.exists (nonce_key nonce)); pure (n == 1)) warn
        (do
          found ← gets (λ w. JsMap.get (nonce_key nonce) w.consumed)
          replay_found (nonce_key nonce) found)

  abbrev pub already_used : Option ℕ → Action Bool
  already_used none = pure false
  already_used (some expires_at) = do now ← get_now; pure (leb now.ms expires_at)

  unfoldable pub mark_nonce_used : String → Action Bool
  mark_nonce_used nonce =
      with_redis (ask (E.set_ex_nx (nonce_key nonce) "1" consumed_ttl_seconds)) warn (do
        found ← gets (λ w. JsMap.get (nonce_key nonce) w.consumed)
        used ← already_used found
        when_else used (pure false) (do
          now ← get_now
          modify (λ w. record w {
            consumed =
                JsMap.set (nonce_key nonce) (now.ms + consumed_ttl_seconds * 1000) w.consumed;
          })
          pure true))

  abbrev pub active_found : String → Option Challenge → Action Bool
  active_found key none = pure false
  active_found key (some c) = do
    now ← get_now
    when_else (is_expired c.expires_at now.ms) (do modify (drop_challenge key); pure false)
        (pure true)

  unfoldable pub has_active_challenge : String → Action Bool
  has_active_challenge address =
      with_redis (do n ← ask (E.exists (challenge_key address)); pure (n == 1)) warn
        (do
          entry ← gets (λ w. JsMap.get (challenge_key address) w.challenges)
          active_found (challenge_key address) entry)
