-- ===== src/Auth/Tokens.antt =====
-- `RefreshTokenStoreService`: refresh tokens, which are rotated on each use.
use trustflow_backend.Prelude.{
  ℕ, ◌+◌, ◌*◌, String, ◌<>◌, Option, none, some, List, [], ◌∷◌, ◌++◌, Bool, true, false, not, map,
  ltb, or_default, truthy, str_eq,
}
use trustflow_backend.Prelude.Exec.{Error, plain, pure, throw, gets, modify, when_else, ◌>>=◌, ◌>>◌}
use trustflow_backend.Prelude.JsMap
use trustflow_backend.Prelude.JsMap.{JsMap}
use trustflow_backend.Prelude.JsSet
use trustflow_backend.Prelude.JsSet.{JsSet}
use trustflow_backend.Redis.{Command, set_ex, sadd, del, expire}
use trustflow_backend.Data.Auth.{TokenEntry, TokenRecord, Rotation}
use trustflow_backend.World.{Env, World, Action, ask, get_now, random_uuid, with_redis}

abbrev pub refresh_token_ttl_seconds : ℕ
refresh_token_ttl_seconds = 604800

abbrev pub token_key : String → String
token_key token = "refresh-token:" <> token

abbrev pub tombstone_key : String → String
tombstone_key token = "refresh-tombstone:" <> token

abbrev pub family_key : String → String → String
family_key address family_id = "refresh-family:" <> address <> ":" <> family_id

abbrev pub refused : Rotation
refused = record { valid = false; new_token = none; should_revoke = false }

abbrev pub reused : Rotation
reused = record { valid = false; new_token = none; should_revoke = true }

abbrev pub rotated : String → Rotation
rotated token = record { valid = true; new_token = some token; should_revoke = false }

abbrev pub put_token : {R : Type 0} → String → TokenEntry → World R → World R
put_token token entry w = record w { tokens = JsMap.set token entry w.tokens }

abbrev pub drop_token : {R : Type 0} → String → World R → World R
drop_token token w = record w { tokens = JsMap.delete token w.tokens }

-- The time of a token is over.
abbrev pub is_stale : TokenEntry → ℕ → Bool
is_stale entry now = ltb (entry.issued_at + refresh_token_ttl_seconds * 1000) now

-- A token joins a family, which is made if it is not there.
abbrev pub join_family : {R : Type 0} → String → String → World R → World R
join_family key token w = record w {
  families = JsMap.set key (JsSet.add token (or_default (JsMap.get key w.families) [])) w.families;
}

unfoldable pub drop_tokens : List String → JsMap TokenEntry → JsMap TokenEntry
drop_tokens [] m = m
drop_tokens (t ∷ ts) m = drop_tokens ts (JsMap.delete t m)

module _ ⦃E : Env⦄ where
  abbrev pub warn : Error → Action (Unit {0})
  warn e = pure tt

  -- randomBytes(n).toString('hex')
  abbrev pub random_hex : Action String
  random_hex = random_uuid

  abbrev pub token_command : String → String → String → ℕ → Command
  token_command token address family_id now =
      set_ex (token_key token)
        (E.token_json.stringify
          (record { address = address; family_id = family_id; issued_at = now }))
        refresh_token_ttl_seconds

  unfoldable pub issue_refresh_token : String → Action String
  issue_refresh_token address = do
    token ← random_hex
    family_id ← random_hex
    let family = family_key address family_id
    with_redis
        (do
          now ← get_now
          ask (
              E.exec (
                token_command token address family_id now.ms
                ∷ sadd family token
                ∷ expire family refresh_token_ttl_seconds
                ∷ []))
          pure token)
        warn
        (do
          now ← get_now
          modify (put_token token (record { issued_at = now.ms; family_id = family_id }))
          modify (join_family family token)
          pure token)

  unfoldable pub revoke_refresh_token : String → Action (Unit {0})
  revoke_refresh_token token =
      with_redis (ask (E.command (del (token_key token)))) warn (modify (drop_token token))

  abbrev pub drop_members : String → List String → Action (Unit {0})
  drop_members family [] = pure tt
  drop_members family (t ∷ ts) =
      ask (E.pipeline (map (λ x. del (token_key x)) (t ∷ ts) ++ del family ∷ []))

  abbrev pub drop_family : {R : Type 0} → String → Option JsSet → World R → World R
  drop_family family none w = w
  drop_family family (some members) w = record w {
    tokens = drop_tokens members w.tokens;
    families = JsMap.delete family w.families;
  }

  unfoldable pub revoke_token_family : String → String → Action (Unit {0})
  unfolding drop_tokens
  revoke_token_family address family_id =
      with_redis
        (do
          members ← ask (E.smembers (family_key address family_id))
          drop_members (family_key address family_id) members)
        warn
        (modify (λ w.
          drop_family (family_key address family_id)
            (JsMap.get (family_key address family_id) w.families) w))

  abbrev pub parse_token : String → Action TokenRecord
  parse_token raw = elim (E.token_json.parse raw) [
    | none ↦ throw (plain "SyntaxError")
    | some t ↦ pure t
  ]

  -- A token that Redis had.
  abbrev pub rotate_data : String → String → Option String → Action Rotation
  rotate_data token address none = pure refused
  rotate_data token address (some raw) = do
    t ← parse_token raw
    when_else (not (str_eq t.address address)) (pure refused) (do
      ask (E.command (set_ex (tombstone_key token) raw 300))
      new_token ← random_hex
      now ← get_now
      ask (
          E.exec (
            token_command new_token address t.family_id now.ms
            ∷ sadd (family_key address t.family_id) new_token
            ∷ []))
      pure (rotated new_token))

  abbrev pub rotate_remote : String → String → Option String → Action Rotation
  rotate_remote token address (some tombstone) = do
    t ← parse_token tombstone
    revoke_token_family address t.family_id
    pure reused
  rotate_remote token address none = do
    raw ← ask (E.getdel (token_key token))
    rotate_data token address (truthy raw)

  abbrev pub rotate_into : String → String → TokenEntry → String → Option JsSet → Action Rotation
  rotate_into token address entry new_token none = pure refused
  rotate_into token address entry new_token (some members) = do
    modify (drop_token token)
    now ← get_now
    modify (put_token new_token (record { issued_at = now.ms; family_id = entry.family_id }))
    modify (join_family (family_key address entry.family_id) new_token)
    pure (rotated new_token)

  abbrev pub rotate_local : String → String → Option TokenEntry → Action Rotation
  rotate_local token address none = pure refused
  rotate_local token address (some entry) = do
    now ← get_now
    when_else (is_stale entry now.ms) (do modify (drop_token token); pure refused)
        (do
          new_token ← random_hex
          members ← gets (λ w. JsMap.get (family_key address entry.family_id) w.families)
          rotate_into token address entry new_token members)

  unfoldable pub validate_and_rotate_refresh_token : String → String → Action Rotation
  unfolding revoke_token_family truthy
  validate_and_rotate_refresh_token token address =
      with_redis
        (do
          tombstone ← ask (E.get (tombstone_key token))
          rotate_remote token address (truthy tombstone))
        warn (do entry ← gets (λ w. JsMap.get token w.tokens); rotate_local token address entry)
