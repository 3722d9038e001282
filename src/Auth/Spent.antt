-- ===== src/Auth/Spent.antt =====
-- A refresh token that is gone stays refused, whatever is done with the other tokens.
use trustflow_backend.Prelude.{String, ◌≡◌, none, false, List, [], ◌∷◌}
use trustflow_backend.Prelude.JsMap
use trustflow_backend.Prelude.JsMap.{JsMap}
use trustflow_backend.World.{Env, World}
use trustflow_backend.Auth.Tokens.{
  validate_and_rotate_refresh_token, issue_refresh_token, revoke_refresh_token, revoke_token_family,
}

-- A call of the store.
pub data Call : Type 0 where
  to_issue : String → Call
  to_revoke : String → Call
  to_revoke_family : String → String → Call
  to_rotate : String → String → Call

module _ ⦃E : Env⦄ where
  abbrev pub serve : Call → World E.Remote → World E.Remote
  serve (to_issue address) w = (issue_refresh_token address w).1
  serve (to_revoke token) w = (revoke_refresh_token token w).1
  serve (to_revoke_family address family_id) w = (revoke_token_family address family_id w).1
  serve (to_rotate token address) w = (validate_and_rotate_refresh_token token address w).1

  unfoldable pub serve_all : List Call → World E.Remote → World E.Remote
  serve_all [] w = w
  serve_all (c ∷ cs) w = serve_all cs (serve c w)

  -- There is no client, and the token is not in the store.
  record IsGone (token : String) (w : World E.Remote) : Type 0 where
    off : w.client ≡ false
    at : JsMap.get token w.tokens ≡ none
