-- ===== src/Escrow/Settlement.antt =====
-- Sequences of operations of `EscrowService` on one escrow, and their payouts.
use trustflow_backend.Prelude.{ℕ, ◌+◌, String, Bool, true, false, List, [], ◌∷◌}
use trustflow_backend.Prelude.Exec.{Result, ok}
use trustflow_backend.World.{Env, World}
use trustflow_backend.Data.Escrow.{Escrow, EscrowStatus, released, cancelled}
use trustflow_backend.Escrow.Machine.{Move, to_release, to_cancel, to_split, run_move}

abbrev pub is_terminal : EscrowStatus → Bool
is_terminal released = true
is_terminal cancelled = true
is_terminal _ = false

-- The operations that pay the funds out or back.
abbrev pub is_settling : Move → Bool
is_settling to_release = true
is_settling to_cancel = true
is_settling (to_split n) = true
is_settling _ = false

abbrev pub succeeded : Bool → Result Escrow → ℕ
succeeded true (ok e) = 1
succeeded _ _ = 0

module _ ⦃E : Env⦄ where
  -- Runs operations on one escrow and counts the settlements that succeed.
  pub run_moves : List Move → String → World E.Remote → ℕ × World E.Remote
  run_moves [] id w = (0, w)
  run_moves (m ∷ ms) id w =
      let (r, w') = run_move m id w in
      let (n, w'') = run_moves ms id w' in (succeeded (is_settling m) r + n, w'')
