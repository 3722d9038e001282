-- ===== src/Tests/ProfileRuns.antt =====
-- The theorems on profiles at concrete states.
use trustflow_backend.Prelude.{◌+◌, ◌≤◌, ◌≡◌, refl, some, none, false, arith}
use trustflow_backend.Prelude.JsMap
use trustflow_backend.World.{Instant}
use trustflow_backend.Data.Profile.{UserProfile, UserType, UserStatus, CreateUserProfileDto}
use trustflow_backend.Profile.Index.{IsIndexed}
use trustflow_backend.Profile.Owners.{to_create, serve, serve-IsIndexed}
use trustflow_backend.Profile.Service.{with_rating}
use trustflow_backend.Profile.Ratings.{with_rating_bounds}
use trustflow_backend.Tests.{down, off}

abbrev signup : CreateUserProfileDto
signup = record {
  wallet_address = "GDEP";
  name = "Ada";
  bio = none;
  user_type = UserType.client;
  avatar_url = none;
  email = none;
  skills = none;
  social_links = none;
}

off-IsIndexed : IsIndexed off
unfolding JsMap.get
off-IsIndexed = record { by_wallet = λ wallet id at. cc; by_id = λ id p at. cc }

serve-IsIndexed_example : IsIndexed (serve ⦃E = down⦄ (to_create signup) off)
unfolding JsMap.get
serve-IsIndexed_example =
    serve-IsIndexed ⦃E = down⦄ (to_create signup) off refl refl refl off-IsIndexed

abbrev rated_once : UserProfile
rated_once = record {
  id = "p_1";
  wallet_address = "GDEP";
  name = "Ada";
  bio = none;
  user_type = UserType.client;
  avatar_url = none;
  email = none;
  rating = 450;
  rating_count = 1;
  completed_jobs = 0;
  status = UserStatus.active;
  skills = none;
  social_links = none;
  total_earned = some "0";
  total_spent = some "0";
  is_verified = false;
  created_at = "";
  updated_at = "";
  last_active_at = none;
}

abbrev noon : Instant
noon = record { ms = 5; iso = "2026-01-01T12:00:00.000Z" }

with_rating_bounds_example :
    (100 ≤ (with_rating 320 noon rated_once).rating)
    × ((with_rating 320 noon rated_once).rating ≤ 500)
    × ((with_rating 320 noon rated_once).rating_count ≡ rated_once.rating_count + 1)
with_rating_bounds_example =
    with_rating_bounds 100 500 320 noon rated_once (omega arith) (omega arith) (λ h. omega arith)
      (λ h. omega arith)
