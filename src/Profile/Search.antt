-- ===== src/Profile/Search.antt =====
-- `UserProfileService`: findAll and search.
use trustflow_backend.Prelude.{
  ℕ, String, Option, none, some, List, Bool, false, ◌||◌, if◌then◌else◌, keep, any, sort_by, take,
  drop, length, leb, ltb, or_default, includes, starts_with, str_eq,
}
use trustflow_backend.Prelude.Exec.{pure, ◌>>=◌}
use trustflow_backend.Data.Profile.{
  UserProfile, UserType, both, same_type, same_user_status, ProfileFilters, UserStatus,
}
use trustflow_backend.World.{Env, Action}
use trustflow_backend.Profile.Store.{fetch_all}

-- { data, total }
pub record ProfilePage : Type 0 where
  pub profiles : List UserProfile
  pub total : ℕ

abbrev pub page_of : Option ℕ → Option ℕ → List UserProfile → ProfilePage
page_of offset limit ps = record {
  profiles = take (or_default limit 20) (drop (or_default offset 0) ps);
  total = length ps;
}

abbrev pub type_filter : Option UserType → List UserProfile → List UserProfile
type_filter none ps = ps
type_filter (some t) ps = keep (λ p. same_type p.user_type t || same_type p.user_type both) ps

abbrev pub status_filter : Option UserStatus → List UserProfile → List UserProfile
status_filter none ps = ps
status_filter (some s) ps = keep (λ p. same_user_status p.status s) ps

abbrev pub rating_filter : Option ℕ → List UserProfile → List UserProfile
rating_filter none ps = ps
rating_filter (some least) ps = keep (λ p. leb least p.rating) ps

module _ ⦃E : Env⦄ where
  unfoldable pub find_all : ProfileFilters → Action ProfilePage
  unfolding fetch_all keep
  find_all filters = do
    all ← fetch_all
    pure (
        page_of filters.offset filters.limit (
          rating_filter filters.min_rating
            (status_filter filters.status (type_filter filters.user_type all))))

  abbrev pub text_matches : String → Option String → Bool
  text_matches lower_query none = false
  text_matches lower_query (some text) = includes (E.to_lower_case text) lower_query

  abbrev pub skills_match : String → Option (List String) → Bool
  skills_match lower_query none = false
  skills_match lower_query (some skills) =
      any (λ skill. includes (E.to_lower_case skill) lower_query) skills

  abbrev pub matches : String → UserProfile → Bool
  matches lower_query p =
      includes (E.to_lower_case p.name) lower_query
      || text_matches lower_query p.bio
      || skills_match lower_query p.skills

  unfoldable pub rank : String → UserProfile → ℕ
  rank lower_query p =
      let name_lower = E.to_lower_case p.name in
      if str_eq name_lower lower_query
      then 4
      else if starts_with name_lower lower_query
      then 3
      else if includes name_lower lower_query
      then 2
      else if text_matches lower_query p.bio
      then 1
      else 0

  unfoldable pub ranked : String → List UserProfile → List UserProfile
  unfolding keep sort_by any
  ranked lower_query ps =
      sort_by (λ a b. ltb (rank lower_query a) (rank lower_query b)) (keep (matches lower_query) ps)

  unfoldable pub search : String → Option ℕ → Option ℕ → Action ProfilePage
  unfolding fetch_all ranked
  search query offset limit = do
    all ← fetch_all
    pure (page_of offset limit (ranked (E.to_lower_case query) all))
