-- ===== src/Profile/Store.antt =====
-- How `UserProfileService` finds and writes profiles: in Redis while it answers, else in two maps.
use trustflow_backend.Prelude.{
  String, ◌<>◌, Option, none, some, List, [], ◌∷◌, Bool, true, false, not, ◌&&◌, map, truthy,
}
use trustflow_backend.Prelude.Exec.{
  plain, not_found, pure, throw, gets, modify, or_throw, throw_if, ◌>>=◌,
}
use trustflow_backend.Prelude.JsMap
use trustflow_backend.Prelude.JsMap.{values}
use trustflow_backend.Redis.{Command, set, ExecResults}
use trustflow_backend.Data.Profile.{UserProfile}
use trustflow_backend.World.{Env, World, Action, ask, increment, with_redis, when_do}

abbrev pub profile_key : String → String
profile_key id = "profile:" <> id

abbrev pub profiles_index_key : String
profiles_index_key = "profiles:index"

abbrev pub wallet_key : String → String
wallet_key wallet_address = "profiles:by-wallet:" <> wallet_address

-- A profile in a caller's hand: the object of the map itself (`live`), or a copy from Redis.
pub record FoundProfile : Type 0 where
  pub profile : UserProfile
  pub live : Bool

abbrev pub held : Option UserProfile → Option FoundProfile
held none = none
held (some p) = some (record { profile = p; live = true })

abbrev pub put : {R : Type 0} → UserProfile → World R → World R
put p w = record w { profiles = JsMap.set p.id p w.profiles }

-- The profile that an id of the index names.
abbrev pub indexed : {R : Type 0} → Option String → World R → Option FoundProfile
indexed none w = none
indexed (some id) w = held (JsMap.get id w.profiles)

module _ ⦃E : Env⦄ where
  unfoldable pub on_module_init : Action (Unit {0})
  on_module_init w =
      throw_if (not w.client && E.production)
        (plain "UserProfileService requires REDIS_URL to be configured in production") w

  abbrev pub log_fallback : String → Action (Unit {0})
  log_fallback operation = increment ("user_profile_persistence_fallback_total:" <> operation)

  -- results.find(([err]) => err)
  unfoldable pub check_replies : List (Option String) → Action (Unit {0})
  check_replies [] = pure tt
  check_replies (none ∷ rs) = check_replies rs
  check_replies (some m ∷ rs) = throw (plain ("Redis transaction command failed: " <> m))

  unfoldable pub assert_transaction_ok : ExecResults → Action (Unit {0})
  unfolding check_replies
  assert_transaction_ok none =
      throw (plain "Redis transaction aborted (exec() returned null, e.g. a WATCH conflict)")
  assert_transaction_ok (some rs) = check_replies rs

  abbrev pub transact : List Command → Action (Unit {0})
  transact commands = do results ← ask (E.exec commands); assert_transaction_ok results

  unfoldable pub parse_profile : Option String → Action (Option FoundProfile)
  parse_profile none = pure none
  parse_profile (some raw) = elim (E.profile_json.parse raw) [
    | none ↦ throw (plain "SyntaxError")
    | some p ↦ pure (some (record { profile = p; live = false }))
  ]

  unfoldable pub try_find_by_id : String → Action (Option FoundProfile)
  unfolding parse_profile truthy
  try_find_by_id id =
      with_redis (do raw ← ask (E.get (profile_key id)); parse_profile (truthy raw))
        (λ e. log_fallback "findById") (gets (λ w. held (JsMap.get id w.profiles)))

  abbrev pub try_find_linked : Option String → Action (Option FoundProfile)
  try_find_linked none = pure none
  try_find_linked (some id) = try_find_by_id id

  unfoldable pub try_find_by_wallet_address : String → Action (Option FoundProfile)
  unfolding try_find_by_id truthy
  try_find_by_wallet_address wallet_address =
      with_redis (do id ← ask (E.get (wallet_key wallet_address)); try_find_linked (truthy id))
        (λ e. log_fallback "findByWalletAddress")
        (gets (λ w. indexed (truthy (JsMap.get wallet_address w.wallet_index)) w))

  unfoldable pub find_by_id : String → Action FoundProfile
  unfolding try_find_by_id
  find_by_id id = do found ← try_find_by_id id; or_throw found (not_found "User profile not found")

  unfoldable pub find_by_wallet_address : String → Action FoundProfile
  unfolding try_find_by_wallet_address
  find_by_wallet_address wallet_address = do
    found ← try_find_by_wallet_address wallet_address
    or_throw found (not_found "User profile not found")

  unfoldable pub parse_all : List (Option String) → Action (List UserProfile)
  parse_all [] = pure []
  parse_all (none ∷ rest) = parse_all rest
  parse_all (some raw ∷ rest) = elim (E.profile_json.parse raw) [
    | none ↦ throw (plain "SyntaxError")
    | some p ↦ do ps ← parse_all rest; pure (p ∷ ps)
  ]

  unfoldable pub fetch_many : List String → Action (List UserProfile)
  unfolding parse_all
  fetch_many [] = pure []
  fetch_many (id ∷ ids) = do raw ← ask (E.mget (map profile_key (id ∷ ids))); parse_all raw

  unfoldable pub fetch_all : Action (List UserProfile)
  unfolding fetch_many
  fetch_all =
      with_redis (do ids ← ask (E.smembers profiles_index_key); fetch_many ids)
        (λ e. log_fallback "findAll") (gets (λ w. values w.profiles))

  unfoldable pub persist : UserProfile → Action (Unit {0})
  unfolding JsMap.set
  persist p =
      with_redis (transact (set (profile_key p.id) (E.profile_json.stringify p) ∷ []))
        (λ e. log_fallback "persist") (modify (put p))

  -- Assignments to the fields of a profile in hand.
  abbrev pub assign : FoundProfile → UserProfile → Action (Unit {0})
  assign found p = when_do found.live (modify (put p))
