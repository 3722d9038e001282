-- ===== src/Data/Gig.antt =====
-- The types of gig/gig.entity.ts and gig/gig.dto.ts.
use trustflow_backend.Prelude.{ℕ, String, Option, Bool, str_eq}
use trustflow_backend.Data.Page.{PaginatedResponse, PaginationQuery}

pub data GigStatus : Type 0 where
  open_gig accepted expired cancelled : GigStatus

abbrev pub gig_status_text : GigStatus → String
gig_status_text open_gig = "open"
gig_status_text accepted = "accepted"
gig_status_text expired = "expired"
gig_status_text cancelled = "cancelled"

abbrev pub same_status : GigStatus → GigStatus → Bool
same_status s t = str_eq (gig_status_text s) (gig_status_text t)

pub record Gig : Type 0 where
  pub id : String
  pub creator : String
  pub title : String
  pub budget_xlm : String
  pub status : GigStatus
  pub created_at : String
  pub respond_by : String
  pub accepted_by : Option String
  pub accepted_at : Option String
  pub expired_at : Option String
  pub cancelled_at : Option String
  pub version : ℕ

abbrev pub PaginatedGigs : Type 0
PaginatedGigs = PaginatedResponse Gig

pub record CreateGigDto : Type 0 where
  pub creator : String
  pub title : String
  pub budget_xlm : String
  pub response_window_hours : Option ℕ

pub record UpdateGigDto : Type 0 where
  pub title : Option String
  pub budget_xlm : Option String
  pub response_window_hours : Option ℕ

pub record SearchGigsQuery : Type 0 where
  pub status : Option GigStatus
  pub paging : PaginationQuery
  pub min_budget_xlm : Option String
  pub max_budget_xlm : Option String

-- The options of findByCreator.
pub record CreatorOptions : Type 0 where
  pub status : Option GigStatus
  pub min_budget_xlm : Option String
  pub max_budget_xlm : Option String
  pub offset : Option ℕ
  pub limit : Option ℕ
