-- ===== src/Data/Auth.antt =====
-- What the stores of auth/ keep.
use trustflow_backend.Prelude.{ℕ, String, Option, Bool}

-- A pending challenge of an address, in `inMemoryChallenges`.
pub record Challenge : Type 0 where
  pub challenge : String
  pub expires_at : ℕ

-- A refresh token in `inMemoryTokens`.
pub record TokenEntry : Type 0 where
  pub issued_at : ℕ
  pub family_id : String

-- A refresh token in Redis.
pub record TokenRecord : Type 0 where
  pub address : String
  pub family_id : String
  pub issued_at : ℕ

-- The result of validateAndRotateRefreshToken.
pub record Rotation : Type 0 where
  pub valid : Bool
  pub new_token : Option String
  pub should_revoke : Bool
