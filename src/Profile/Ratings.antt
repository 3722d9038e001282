-- ===== src/Profile/Ratings.antt =====
-- The rating of a profile stays within the range of the ratings that it is given.
use native.Mathlib.Nat.{le-div_iff_mul-le, mul-div-le}
use trustflow_backend.Prelude.{ℕ, zero, suc, ◌+◌, ◌*◌, ◌≤◌, ◌<◌, ◌≡◌, arith, refl}
use trustflow_backend.Data.Profile.{UserProfile}
use trustflow_backend.World.{Instant}
use trustflow_backend.Profile.Service.{rounded, with_rating}

rounded-le : (a b k : ℕ) → 0 < b → a ≤ k * b → rounded a b ≤ k
unfolding rounded
rounded-le a b k pos h = grind (arith, mul-div-le (2 * a + b) (2 * b))

le-rounded : (a b k : ℕ) → 0 < b → k * b ≤ a → k ≤ rounded a b
unfolding rounded
le-rounded a b k pos h =
    (le-div_iff_mul-le {k = 2 * b} {x = k} {y = 2 * a + b} (grind arith)).1 (grind arith)

total-le :
    (hi rating old n : ℕ) → rating ≤ hi → (0 < n → old ≤ hi) → old * n + rating ≤ hi * (n + 1)
total-le hi rating old zero h k = omega (arith, h)
total-le hi rating old (suc n) h k =
    let bound : old ≤ hi = k (omega arith) in grind (arith, bound, h)

le-total :
    (lo rating old n : ℕ) → lo ≤ rating → (0 < n → lo ≤ old) → lo * (n + 1) ≤ old * n + rating
le-total lo rating old zero h k = omega (arith, h)
le-total lo rating old (suc n) h k =
    let bound : lo ≤ old = k (omega arith) in grind (arith, bound, h)

-- A rating between two bounds, given to a profile whose rating is between them if it has one, leaves the
-- rating of the profile between them, rounding included, and counts one rating more.
pub with_rating_bounds :
    (lo hi rating : ℕ) (now : Instant) (p : UserProfile)
    → lo ≤ rating
    → rating ≤ hi
    → (0 < p.rating_count → lo ≤ p.rating)
    → (0 < p.rating_count → p.rating ≤ hi)
    → (lo ≤ (with_rating rating now p).rating)
      × ((with_rating rating now p).rating ≤ hi)
      × ((with_rating rating now p).rating_count ≡ p.rating_count + 1)
unfolding with_rating
with_rating_bounds lo hi rating now p low high above below =
    let total = p.rating * p.rating_count + rating in
    let n = p.rating_count + 1 in
    (
      le-rounded total n lo (omega arith) (le-total lo rating p.rating p.rating_count low above),
      rounded-le total n hi (omega arith) (total-le hi rating p.rating p.rating_count high below),
      refl,
    )
