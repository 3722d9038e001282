-- ===== src/Dispute/Order.antt =====
-- The order of the steps of a saga, and the check for an active saga, in `DisputeSagaService`.
use trustflow_backend.Prelude.{ℕ, String, ◌<>◌, ◌≡◌, refl, Option, some, false, List, arith}
use trustflow_backend.Prelude.Exec.{Error, Result, ok, err, conflict}
use trustflow_backend.World.{Env, World, Action}
use trustflow_backend.Data.Dispute.{
  DisputeSaga, DisputeStep, juror_assignment, voting, payout, CastVoteDto, EscalateDisputeDto,
  Origin,
}
use trustflow_backend.Dispute.Saga.{assert_step, same_step, is_over}
use trustflow_backend.Dispute.Store.{Held, find_by_id, find_by_escrow_id}
use trustflow_backend.Dispute.Escalation.{check_escalation, escalate, escalate_from_chain}
use trustflow_backend.Dispute.Voting.{check_assignment, assign_jurors, check_vote, cast_vote}
use trustflow_backend.Dispute.Payout.{check_payout, execute_payout}

-- The operations on an open saga.
pub data Advance : Type 0 where
  to_assign : List String → Advance
  to_vote : CastVoteDto → Option String → Advance
  to_pay : Option ℕ → Advance

-- The step that an operation is for.
abbrev pub step_of : Advance → DisputeStep
step_of (to_assign jurors) = juror_assignment
step_of (to_vote dto caller) = voting
step_of (to_pay percentage) = payout

assert_step_refuses :
    (saga : DisputeSaga) (step : DisputeStep)
    → same_step saga.current_step step ≡ false
    → (x : Error) × (assert_step saga step ≡ err x)
unfolding assert_step
assert_step_refuses saga step h = go (assert_step saga step) refl
  where
    go :
        (r : Result (Unit {0}))
        → assert_step saga step ≡ r
        → (x : Error) × (assert_step saga step ≡ err x)
    go (err x) g = (x, g)
    go (ok tt) g = absurd (ground arith)

module _ ⦃E : Env⦄ where
  abbrev pub advance : Advance → String → Action DisputeSaga
  advance (to_assign jurors) id = assign_jurors id jurors
  advance (to_vote dto caller) id = cast_vote id dto caller
  advance (to_pay percentage) id = execute_payout id percentage

  -- Whatever Redis does, an operation on a saga that is at another step than the operation's throws,
  -- and does nothing but look the saga up.
  pub advance_out_of_order :
      (a : Advance) (id : String) (w : World E.Remote) {h : Held}
      → (find_by_id id w).0 ≡ ok h
      → same_step h.saga.current_step (step_of a) ≡ false
      → (x : Error) × (advance a id w ≡ (err x, (find_by_id id w).1))
  unfolding assign_jurors check_assignment cast_vote check_vote execute_payout check_payout
  advance_out_of_order (to_assign jurors) id w {h} found off =
      let (x, refused) = assert_step_refuses h.saga juror_assignment off in (x, ground arith)
  advance_out_of_order (to_vote dto caller) id w {h} found off =
      let (x, refused) = assert_step_refuses h.saga voting off in (x, ground arith)
  advance_out_of_order (to_pay percentage) id w {h} found off =
      let (x, refused) = assert_step_refuses h.saga payout off in (x, ground arith)

  -- Whatever Redis does, while the saga found for an escrow is neither completed nor failed, `escalate`
  -- is refused with a conflict, and `escalateFromChain` returns that saga; both do nothing but look
  -- the saga up.
  pub active_saga_blocks :
      (escrow_id : String) (dto : EscalateDisputeDto) (origin : Origin) (reason : String)
      (w : World E.Remote) {h : Held}
      → (find_by_escrow_id escrow_id w).0 ≡ ok (some h)
      → is_over h.saga.current_step ≡ false
      → (escalate escrow_id dto origin w ≡ (
        err (conflict ("An active dispute saga already exists for escrow " <> escrow_id)),
        (find_by_escrow_id escrow_id w).1,
      ))
        × (escalate_from_chain escrow_id reason w ≡ (ok h.saga, (find_by_escrow_id escrow_id w).1))
  unfolding escalate check_escalation escalate_from_chain
  active_saga_blocks escrow_id dto origin reason w {h} found active = (ground arith, ground arith)
