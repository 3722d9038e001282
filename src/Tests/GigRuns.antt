-- ===== src/Tests/GigRuns.antt =====
-- The theorems on gigs and pages at concrete states.
use trustflow_backend.Prelude.{ℕ, ◌≤◌, ◌≡◌, refl, none, some, List, [], ◌∷◌, arith}
use trustflow_backend.Prelude.JsMap
use trustflow_backend.World.{World}
use trustflow_backend.Data.Gig.{Gig, open_gig, expired}
use trustflow_backend.Data.Page.{PaginationQuery, whole, below_zero}
use trustflow_backend.Data.Paging.{first_pages, pages_cover}
use trustflow_backend.Gig.Machine.{HoldsGig}
use trustflow_backend.Gig.Resolution.{to_accept, to_cancel, to_expire, run_changes, resolved_once}
use trustflow_backend.Tests.{down, off}

abbrev logo : Gig
logo = record {
  id = "gig-1";
  creator = "GDEP";
  title = "Logo";
  budget_xlm = "50";
  status = open_gig;
  created_at = "";
  respond_by = "";
  accepted_by = none;
  accepted_at = none;
  expired_at = none;
  cancelled_at = none;
  version = 1;
}

abbrev late : Gig
late = record logo { id = "gig-2"; status = expired; version = 2 }

abbrev posted : World (Unit {0})
posted = record off { gigs = ("gig-1", logo) ∷ ("gig-2", late) ∷ [] }

logo-HoldsGig : HoldsGig ⦃E = down⦄ posted logo
unfolding JsMap.get
logo-HoldsGig = record { off = refl; at = refl }

late-HoldsGig : HoldsGig ⦃E = down⦄ posted late
unfolding JsMap.get
late-HoldsGig = record { off = refl; at = refl }

resolved_once_example :
    (run_changes ⦃E = down⦄ (to_accept "GRES" ∷ to_cancel ∷ to_expire ∷ []) "gig-1" posted).0 ≤ 1
resolved_once_example =
    resolved_once ⦃E = down⦄ (to_accept "GRES" ∷ to_cancel ∷ to_expire ∷ []) logo-HoldsGig

abbrev five : List ℕ
five = 1 ∷ 2 ∷ 3 ∷ 4 ∷ 5 ∷ []

pages_cover_example : first_pages 3 2 five ≡ five
pages_cover_example = pages_cover 3 2 five (omega arith) (omega arith) (omega arith)

abbrev odd_query : PaginationQuery
odd_query = record { page = some below_zero; limit = some (whole 1000) }
