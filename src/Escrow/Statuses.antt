-- ===== src/Escrow/Statuses.antt =====
-- Which operations `EscrowService` accepts in which status.
use trustflow_backend.Prelude.{String, ◌≡◌, ◌⊎◌, Bool, true, false}
use trustflow_backend.Prelude.Exec.{Error, ok, err, conflict, bad_request}
use trustflow_backend.World.{World}
use trustflow_backend.Data.Escrow.{Escrow, EscrowStatus, pending, active, released, cancelled}
use trustflow_backend.Escrow.Machine.{Move, to_fund, to_dispute, guard}

-- A pending escrow is funded, an active one disputed, and one that is not released or cancelled is
-- released, cancelled or split.
abbrev pub is_allowed : Move → EscrowStatus → Bool
is_allowed to_fund pending = true
is_allowed to_fund _ = false
is_allowed (to_dispute r) active = true
is_allowed (to_dispute r) _ = false
is_allowed _ released = false
is_allowed _ cancelled = false
is_allowed _ _ = true

-- 409 or 400.
abbrev pub IsRefusal : Error → Type 0
IsRefusal x = (reason : String) × ((x ≡ conflict reason) ⊎ (x ≡ bad_request reason))

abbrev Decided : Move → EscrowStatus → Type 0
Decided m s =
    ((is_allowed m s ≡ true) × (guard m s ≡ ok tt))
    ⊎ ((is_allowed m s ≡ false) × (x : Error) × (guard m s ≡ err x) × IsRefusal x)
