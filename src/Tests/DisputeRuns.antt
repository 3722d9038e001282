-- ===== src/Tests/DisputeRuns.antt =====
-- The theorems on the dispute saga at concrete states.
use trustflow_backend.Prelude.{◌<◌, ◌≡◌, ◌↔◌, refl, none, true, List, [], ◌∷◌, ◌++◌, any}
use trustflow_backend.Prelude.Exec.{ok}
use trustflow_backend.Prelude.JsMap
use trustflow_backend.Prelude.JsSet
use trustflow_backend.Data.Dispute.{
  DisputeSaga, JurorVote, Choice, CastVoteDto, depositor_wins, beneficiary_wins,
}
use trustflow_backend.Dispute.Saga.{compute_verdict, assert_step}
use trustflow_backend.Dispute.Verdict.{votes_for, compute_verdict_lem}
use trustflow_backend.Dispute.Store.{find_by_id}
use trustflow_backend.Dispute.Voting.{check_vote, cast_vote}
use trustflow_backend.Dispute.Ballot.{IsCounted, cast_vote-IsCounted}
use trustflow_backend.Dispute.Electorate.{IsBallot, voters, cast_vote-IsBallot}
use trustflow_backend.Dispute.Jurors.{IsSeated, assign_jurors-IsSeated}
use trustflow_backend.Dispute.Voting.{check_assignment, assign_jurors}
use trustflow_backend.Escrow.Store.{find_by_id as find_escrow}
use trustflow_backend.Prelude.{String}
use trustflow_backend.Prelude.JsSet.{IsDistinct}
use trustflow_backend.Tests.{down, ballot, opened, off, judged, closed}
use trustflow_backend.Prelude.{some}
use trustflow_backend.Prelude.Exec.{Error, err, conflict}
use trustflow_backend.Data.Escrow.{disputed}
use trustflow_backend.Dispute.Payout.{check_payout, execute_payout}
use trustflow_backend.Dispute.Order.{advance, to_pay, advance_out_of_order}
use trustflow_backend.Dispute.Reopen.{flagged, execute_payout_reopens}

abbrev three : List JurorVote
three = ballot.votes ++ record { juror_address = "GJ3"; vote = Choice.depositor; cast_at = "" } ∷ []

compute_verdict_lem_example :
    ((compute_verdict three ≡ depositor_wins) ↔ (
      (votes_for Choice.beneficiary three < votes_for Choice.depositor three)
      × (votes_for Choice.split three < votes_for Choice.depositor three)))
    × ((compute_verdict three ≡ beneficiary_wins) ↔ (
        (votes_for Choice.depositor three < votes_for Choice.beneficiary three)
        × (votes_for Choice.split three < votes_for Choice.beneficiary three)))
compute_verdict_lem_example = compute_verdict_lem three

abbrev third : CastVoteDto
third = record { juror_address = "GJ3"; vote = Choice.depositor }

cast_vote-IsCounted_example :
    (t : DisputeSaga) × ((cast_vote ⦃E = down⦄ "saga-1" third none off).0 ≡ ok t)
    × IsCounted ⦃E = down⦄ ballot third t
unfolding check_vote JsMap.get find_by_id assert_step any
cast_vote-IsCounted_example =
    cast_vote-IsCounted ⦃E = down⦄ "saga-1" third none off
      {h = record { saga = ballot; live = true }} refl

cast_vote-IsBallot_example :
    (t : DisputeSaga) × ((cast_vote ⦃E = down⦄ "saga-1" third none off).0 ≡ ok t)
    × IsBallot t
    × (t.assigned_jurors ≡ ballot.assigned_jurors)
    × (voters t.votes ≡ voters ballot.votes ++ "GJ3" ∷ [])
unfolding check_vote JsMap.get find_by_id assert_step any JsSet.has IsDistinct voters
cast_vote-IsBallot_example =
    cast_vote-IsBallot ⦃E = down⦄ "saga-1" third none off
      {h = record { saga = ballot; live = true }} refl
      (record { once = (refl, (refl, tt)); seated = (refl, (refl, tt)) })

abbrev asked : List String
asked = "GJ1" ∷ "GJ2" ∷ "GJ1" ∷ "GJ3" ∷ []

assign_jurors-IsSeated_example :
    (t : DisputeSaga) × ((assign_jurors ⦃E = down⦄ "saga-2" asked off).0 ≡ ok t)
    × IsSeated ⦃E = down⦄ opened asked t
unfolding check_assignment JsMap.get find_by_id assert_step any JsSet.has JsSet.add JsSet.from_list
    find_escrow
assign_jurors-IsSeated_example =
    assign_jurors-IsSeated ⦃E = down⦄ "saga-2" asked off {h = record { saga = opened; live = true }}
      {us = "GJ1" ∷ "GJ2" ∷ "GJ3" ∷ []} refl

execute_payout_reopens_example :
    ((execute_payout ⦃E = down⦄ "saga-3" none off).0 ≡ err (conflict "Escrow is already released"))
    × (JsMap.get "escrow_2" (execute_payout ⦃E = down⦄ "saga-3" none off).1.escrows
        ≡ some (flagged closed))
    × ((flagged closed).status ≡ disputed)
unfolding check_payout JsMap.get find_by_id assert_step
execute_payout_reopens_example =
    execute_payout_reopens ⦃E = down⦄ "saga-3" none off closed
      {h = record { saga = judged; live = true }} {v = beneficiary_wins} refl refl refl refl refl

advance_out_of_order_example :
    (x : Error) × (advance ⦃E = down⦄ (to_pay none) "saga-1" off
      ≡ (err x, (find_by_id ⦃E = down⦄ "saga-1" off).1))
unfolding find_by_id JsMap.get
advance_out_of_order_example =
    advance_out_of_order ⦃E = down⦄ (to_pay none) "saga-1" off
      {h = record { saga = ballot; live = true }} refl refl
