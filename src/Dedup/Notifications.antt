-- ===== src/Dedup/Notifications.antt =====
-- `NotificationDeduplicationService`: a notification of a dispute is claimed before it is sent.
use trustflow_backend.Prelude.{
  ℕ, ◌+◌, ◌*◌, String, ◌<>◌, Option, none, some, Bool, true, false, ltb,
}
use trustflow_backend.Prelude.Exec.{Error, pure, gets, modify, when_else, ◌>>=◌, ◌>>◌}
use trustflow_backend.Prelude.JsMap
use trustflow_backend.Redis.{del}
use trustflow_backend.World.{Env, World, Action, ask, get_now, with_redis}

abbrev pub dedup_key_ttl_seconds : ℕ
dedup_key_ttl_seconds = 86400

abbrev pub redis_key : String → String
redis_key dedup_key = "notification-dedup:" <> dedup_key

abbrev pub forget : {R : Type 0} → String → World R → World R
forget key w = record w { notified = JsMap.delete key w.notified }

module _ ⦃E : Env⦄ where
  abbrev pub warn : Error → Action (Unit {0})
  warn e = pure tt

  -- createHash('sha256') of the parts, as hex
  abbrev pub generate_dedup_key : String → String → String → String
  generate_dedup_key kind dispute_id recipient_address =
      E.sha256_hex (kind <> ":" <> dispute_id <> ":" <> recipient_address)

  abbrev pub put_key : String → Action Bool
  put_key key = do
    now ← get_now
    modify (λ w. record w {
      notified = JsMap.set key (now.ms + dedup_key_ttl_seconds * 1000) w.notified;
    })
    pure true

  abbrev pub claim_found : String → Option ℕ → Action Bool
  claim_found key none = put_key key
  claim_found key (some expires_at) = do
    now ← get_now
    when_else (ltb expires_at now.ms) (do modify (forget key); put_key key) (pure false)

  unfoldable pub claim_key : String → Action Bool
  claim_key dedup_key =
      with_redis (ask (E.set_ex_nx (redis_key dedup_key) "1" dedup_key_ttl_seconds)) warn
        (do found ← gets (λ w. JsMap.get dedup_key w.notified); claim_found dedup_key found)

  unfoldable pub release_key : String → Action (Unit {0})
  release_key dedup_key =
      with_redis (ask (E.command (del (redis_key dedup_key)))) warn (modify (forget dedup_key))
