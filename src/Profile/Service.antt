-- ===== src/Profile/Service.antt =====
-- `UserProfileService`: the operations on profiles.
use trustflow_backend.Prelude.{
  ℕ, ◌+◌, ◌*◌, ◌/◌, String, Option, none, some, [], ◌∷◌, true, false, is_some, or_default, truthy,
}
use trustflow_backend.Prelude.Exec.{conflict, pure, modify, throw_if, ◌>>=◌, ◌>>◌}
use trustflow_backend.Prelude.JsMap
use trustflow_backend.Redis.{set, del, sadd, srem}
use trustflow_backend.Data.Profile.{
  UserProfile, active, SocialLinks, CreateUserProfileDto, UpdateUserProfileDto,
}
use trustflow_backend.World.{Env, World, Action, get_now, random_uuid, with_redis, Instant}
use trustflow_backend.Amounts.{parse_amount}
use trustflow_backend.Profile.Store.{
  profile_key, wallet_key, profiles_index_key, log_fallback, transact, try_find_by_wallet_address,
  find_by_id, persist, assign,
}

abbrev pub new_profile : CreateUserProfileDto → String → String → UserProfile
new_profile dto id now = record {
  id = id;
  wallet_address = dto.wallet_address;
  name = dto.name;
  bio = dto.bio;
  user_type = dto.user_type;
  avatar_url = dto.avatar_url;
  email = dto.email;
  rating = 0;
  rating_count = 0;
  completed_jobs = 0;
  status = active;
  skills = dto.skills;
  social_links = dto.social_links;
  total_earned = some "0";
  total_spent = some "0";
  is_verified = false;
  created_at = now;
  updated_at = now;
  last_active_at = some now;
}

abbrev pub store_local : {R : Type 0} → UserProfile → World R → World R
store_local p w = record w {
  profiles = JsMap.set p.id p w.profiles;
  wallet_index = JsMap.set p.wallet_address p.id w.wallet_index;
}

abbrev pub drop_local : {R : Type 0} → UserProfile → String → World R → World R
drop_local p id w = record w {
  wallet_index = JsMap.delete p.wallet_address w.wallet_index;
  profiles = JsMap.delete id w.profiles;
}

-- x = y ?? x, for a field that may be absent
abbrev pub or_kept {ℓ} : {A : Type ℓ} → Option A → Option A → Option A
or_kept (some new) old = some new
or_kept none old = old

abbrev pub no_links : SocialLinks
no_links = record { twitter = none; github = none; linkedin = none; website = none }

abbrev pub merged_links : Option SocialLinks → SocialLinks → SocialLinks
merged_links old new =
    let kept = or_default old no_links in
    record {
      twitter = or_kept new.twitter kept.twitter;
      github = or_kept new.github kept.github;
      linkedin = or_kept new.linkedin kept.linkedin;
      website = or_kept new.website kept.website;
    }

abbrev pub links_after : Option SocialLinks → Option SocialLinks → Option SocialLinks
links_after old none = old
links_after old (some new) = some (merged_links old new)

abbrev pub with_update : UpdateUserProfileDto → Instant → UserProfile → UserProfile
with_update dto now p = record p {
  name = or_default dto.name p.name;
  bio = or_kept dto.bio p.bio;
  user_type = or_default dto.user_type p.user_type;
  avatar_url = or_kept dto.avatar_url p.avatar_url;
  email = or_kept dto.email p.email;
  skills = or_kept dto.skills p.skills;
  social_links = links_after p.social_links dto.social_links;
  status = or_default dto.status p.status;
  updated_at = now.iso;
}

-- Math.round of a quotient: the nearest whole number, and the upper one of two.
unfoldable pub rounded : ℕ → ℕ → ℕ
rounded a b = (2 * a + b) / (2 * b)

-- The weighted average with one more rating, in hundredths.
unfoldable pub with_rating : ℕ → Instant → UserProfile → UserProfile
unfolding rounded
with_rating rating now p =
    let total_rating = p.rating * p.rating_count in
    let new_rating_count = p.rating_count + 1 in
    record p {
      rating = rounded (total_rating + rating) new_rating_count;
      rating_count = new_rating_count;
      updated_at = now.iso;
    }

module _ ⦃E : Env⦄ where
  unfoldable pub create : CreateUserProfileDto → Action UserProfile
  unfolding try_find_by_wallet_address JsMap.set
  create dto = do
    existing ← try_find_by_wallet_address dto.wallet_address
    throw_if (is_some existing) (conflict "Profile with this wallet address already exists")
    id ← random_uuid
    now ← get_now
    let p = new_profile dto id now.iso
    with_redis
        (transact (
          set (profile_key id) (E.profile_json.stringify p)
          ∷ sadd profiles_index_key id
          ∷ set (wallet_key dto.wallet_address) id
          ∷ []))
        (λ e. log_fallback "create") (modify (store_local p))
    pure p

  -- A profile is found, assigned to, stored and returned.
  unfoldable pub amend : String → (Instant → UserProfile → UserProfile) → Action UserProfile
  unfolding find_by_id persist
  amend id change = do
    found ← find_by_id id
    now ← get_now
    assign found (change now found.profile)
    persist (change now found.profile)
    pure (change now found.profile)

  abbrev pub update : String → UpdateUserProfileDto → Action UserProfile
  update id dto = amend id (with_update dto)

  abbrev pub rate_user : String → ℕ → Action UserProfile
  rate_user id rating = amend id (with_rating rating)

  abbrev pub increment_completed_jobs : String → Action UserProfile
  increment_completed_jobs id =
      amend id (λ now p. record p { completed_jobs = p.completed_jobs + 1; updated_at = now.iso })

  abbrev pub amount_or_zero : Option String → String
  amount_or_zero amount = or_default (truthy amount) "0"

  unfoldable pub update_total_earned : String → String → Action UserProfile
  unfolding find_by_id persist truthy
  update_total_earned id amount = do
    parse_amount amount
    found ← find_by_id id
    parse_amount (amount_or_zero found.profile.total_earned)
    now ← get_now
    let total = E.amount_sum (amount_or_zero found.profile.total_earned) amount
    let p = record found.profile { total_earned = some total; updated_at = now.iso }
    assign found p
    persist p
    pure p

  unfoldable pub update_total_spent : String → String → Action UserProfile
  unfolding find_by_id persist truthy
  update_total_spent id amount = do
    parse_amount amount
    found ← find_by_id id
    parse_amount (amount_or_zero found.profile.total_spent)
    now ← get_now
    let total = E.amount_sum (amount_or_zero found.profile.total_spent) amount
    let p = record found.profile { total_spent = some total; updated_at = now.iso }
    assign found p
    persist p
    pure p

  abbrev pub verify_user : String → Action UserProfile
  verify_user id = amend id (λ now p. record p { is_verified = true; updated_at = now.iso })

  abbrev pub update_last_active : String → Action (Unit {0})
  update_last_active id = do amend id (λ now p. record p { last_active_at = some now.iso }); pure tt

  unfoldable pub delete : String → Action (Unit {0})
  unfolding find_by_id JsMap.delete
  delete id = do
    found ← find_by_id id
    with_redis
        (transact (
          del (profile_key id)
          ∷ srem profiles_index_key id
          ∷ del (wallet_key found.profile.wallet_address)
          ∷ []))
        (λ e. log_fallback "delete") (modify (drop_local found.profile id))
