-- ===== src/Auth/Once.antt =====
-- Challenges, nonces and refresh tokens are used once, with no Redis client.
use trustflow_backend.Prelude.{
  suc, String, ◌≡◌, ◌≢◌, none, true, false, arith, Bool-cases, Option-cases, inl, inr, eq_iff,
}
use trustflow_backend.Prelude.Exec.{ok}
use trustflow_backend.Prelude.JsMap
use trustflow_backend.Prelude.JsMap.{get-set, get-delete}
use trustflow_backend.World.{Env, World}
use trustflow_backend.Data.Auth.{TokenEntry, Rotation}
use trustflow_backend.Auth.Nonces.{consume, challenge_key}
use trustflow_backend.Auth.Tokens.{validate_and_rotate_refresh_token, refused, is_stale, family_key}

module _ ⦃E : Env⦄ where
  -- With no client, a challenge is consumed at most once: the call after one that consumed a challenge
  -- of the address, or found none, gets none.
  pub consume_once :
      (address : String) (w : World E.Remote)
      → w.client ≡ false
      → (consume address (consume address w).1).0 ≡ ok none
  unfolding consume
  consume_once address w off =
      elim (Option-cases (JsMap.get (challenge_key address) w.challenges)) [
        | inl gone ↦ ground (arith, off, gone)
        | inr (c, there) ↦ ground (
          arith,
          off,
          there,
          get-delete (challenge_key address) (challenge_key address) w.challenges,
          eq_iff (challenge_key address) (challenge_key address),
        )
      ]

  pub rotate_spent :
      (token address : String) (w : World E.Remote)
      → w.client ≡ false
      → JsMap.get token w.tokens ≡ none
      → (validate_and_rotate_refresh_token token address w).0 ≡ ok refused
  unfolding validate_and_rotate_refresh_token
  rotate_spent token address w off gone = ground (arith, off, gone)

  pub rotation_spends :
      (token address : String) (w : World E.Remote) {r : Rotation}
      → w.client ≡ false
      → E.random w.draws ≢ token
      → (validate_and_rotate_refresh_token token address w).0 ≡ ok r
      → r.valid ≡ true
      → ((validate_and_rotate_refresh_token token address w).1.client ≡ false)
        × (JsMap.get token (validate_and_rotate_refresh_token token address w).1.tokens ≡ none)
  unfolding validate_and_rotate_refresh_token
  rotation_spends token address w {r} off fresh answer valid =
      elim (Option-cases (JsMap.get token w.tokens)) [
        | inl gone ↦ (ground (arith, off, gone), ground (arith, off, gone))
        | inr (entry, there) ↦
            let dropped = get-delete token token w.tokens in
            let itself = eq_iff token token in
            let renewed : TokenEntry = record {
              issued_at = (E.clock (suc w.ticks)).ms;
              family_id = entry.family_id;
            } in
            let added = get-set (E.random w.draws) token renewed (JsMap.delete token w.tokens) in
            let apart = eq_iff (E.random w.draws) token in
            elim (Bool-cases (is_stale entry (E.clock w.ticks).ms)) [
              | inl old ↦ (
                ground (arith, off, there, old),
                ground (arith, off, there, old, dropped, itself),
              )
              | inr young ↦
                  elim (Option-cases (JsMap.get (family_key address entry.family_id) w.families)) [
                    | inl orphan ↦
                        let not_valid : (validate_and_rotate_refresh_token token address w).0
                            ≡ ok refused =
                          ground (arith, off, there, young, orphan) in
                        absurd (ground (arith, not_valid, answer, valid))
                    | inr (members, family) ↦ (
                      ground (arith, off, there, young, family),
                      ground
                          (arith, off, there, young, family, dropped, itself, added, apart, fresh),
                    )
                  ]
            ]
      ]
