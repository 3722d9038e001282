-- ===== src/Data/Profile.antt =====
-- user-profile/user-profile.entity.ts, and the requests and profiles of the service.
use trustflow_backend.Prelude.{ℕ, String, Option, List, Bool, true, false}

pub data UserType : Type 0 where
  freelancer client both : UserType

pub data UserStatus : Type 0 where
  active inactive suspended : UserStatus

abbrev pub same_type : UserType → UserType → Bool
same_type freelancer freelancer = true
same_type client client = true
same_type both both = true
same_type _ _ = false

abbrev pub same_user_status : UserStatus → UserStatus → Bool
same_user_status active active = true
same_user_status inactive inactive = true
same_user_status suspended suspended = true
same_user_status _ _ = false

pub record SocialLinks : Type 0 where
  pub twitter : Option String
  pub github : Option String
  pub linkedin : Option String
  pub website : Option String

-- A rating is in hundredths.
pub record UserProfile : Type 0 where
  pub id : String
  pub wallet_address : String
  pub name : String
  pub bio : Option String
  pub user_type : UserType
  pub avatar_url : Option String
  pub email : Option String
  pub rating : ℕ
  pub rating_count : ℕ
  pub completed_jobs : ℕ
  pub status : UserStatus
  pub skills : Option (List String)
  pub social_links : Option SocialLinks
  pub total_earned : Option String
  pub total_spent : Option String
  pub is_verified : Bool
  pub created_at : String
  pub updated_at : String
  pub last_active_at : Option String

pub record CreateUserProfileDto : Type 0 where
  pub wallet_address : String
  pub name : String
  pub bio : Option String
  pub user_type : UserType
  pub avatar_url : Option String
  pub email : Option String
  pub skills : Option (List String)
  pub social_links : Option SocialLinks

pub record UpdateUserProfileDto : Type 0 where
  pub name : Option String
  pub bio : Option String
  pub user_type : Option UserType
  pub avatar_url : Option String
  pub email : Option String
  pub skills : Option (List String)
  pub social_links : Option SocialLinks
  pub status : Option UserStatus

-- The filters of findAll.
pub record ProfileFilters : Type 0 where
  pub user_type : Option UserType
  pub status : Option UserStatus
  pub min_rating : Option ℕ
  pub offset : Option ℕ
  pub limit : Option ℕ
