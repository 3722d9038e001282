-- ===== src/Dispute/Verdict.antt =====
-- What `computeVerdict` decides, in terms of how often each choice was made.

use trustflow_backend.Prelude.{
  ℕ, suc, ◌+◌, ◌%◌, ◌<◌, ◌≡◌, ◌≢◌, ◌↔◌, List, [], ◌∷◌, Bool, true, false, arith, length,
}
use trustflow_backend.Data.Dispute.{
  JurorVote, Choice, DisputeVerdict, depositor_wins, beneficiary_wins,
}
use trustflow_backend.Dispute.Saga.{Tally, count_vote, tally_votes, decide, compute_verdict}

abbrev is_choice : Choice → Choice → Bool
is_choice Choice.depositor Choice.depositor = true
is_choice Choice.beneficiary Choice.beneficiary = true
is_choice Choice.split Choice.split = true
is_choice _ _ = false

abbrev one_if : Bool → ℕ
one_if true = 1
one_if false = 0

-- How many of the votes are for a choice.
unfoldable pub votes_for : Choice → List JurorVote → ℕ
votes_for c [] = 0
votes_for c (v ∷ vs) = one_if (is_choice v.vote c) + votes_for c vs

record Counts (t : Tally) (votes : List JurorVote) (t' : Tally) : Type 0 where
  depositor : t'.depositor ≡ t.depositor + votes_for Choice.depositor votes
  beneficiary : t'.beneficiary ≡ t.beneficiary + votes_for Choice.beneficiary votes
  split : t'.split ≡ t.split + votes_for Choice.split votes

count_vote_lem :
    (c : Choice) (t : Tally)
    → ((count_vote c t).depositor ≡ t.depositor + one_if (is_choice c Choice.depositor))
      × ((count_vote c t).beneficiary ≡ t.beneficiary + one_if (is_choice c Choice.beneficiary))
      × ((count_vote c t).split ≡ t.split + one_if (is_choice c Choice.split))
count_vote_lem Choice.depositor t = omega arith
count_vote_lem Choice.beneficiary t = omega arith
count_vote_lem Choice.split t = omega arith

tally_votes-Counts : (votes : List JurorVote) (t : Tally) → Counts t votes (tally_votes votes t)
unfolding tally_votes votes_for
tally_votes-Counts [] t = omega arith
tally_votes-Counts (v ∷ vs) t =
    let ih = tally_votes-Counts vs (count_vote v.vote t) in
    let c = count_vote_lem v.vote t in
    record {
      depositor = omega (arith, ih.depositor, c.0);
      beneficiary = omega (arith, ih.beneficiary, c.1);
      split = omega (arith, ih.split, c.2);
    }

-- The verdict goes to the depositor exactly when more jurors chose the depositor than chose either
-- other outcome, and to the beneficiary exactly when more chose the beneficiary than either other.
pub compute_verdict_lem :
    (votes : List JurorVote)
    → ((compute_verdict votes ≡ depositor_wins) ↔ (
        (votes_for Choice.beneficiary votes < votes_for Choice.depositor votes)
        × (votes_for Choice.split votes < votes_for Choice.depositor votes)))
      × ((compute_verdict votes ≡ beneficiary_wins) ↔ (
          (votes_for Choice.depositor votes < votes_for Choice.beneficiary votes)
          × (votes_for Choice.split votes < votes_for Choice.beneficiary votes)))
unfolding compute_verdict decide
compute_verdict_lem votes =
    let c = tally_votes-Counts votes (record { depositor = 0; beneficiary = 0; split = 0 }) in
    let d = c.depositor in
    let b = c.beneficiary in
    let s = c.split in
    ((λ h. ground arith, λ h. ground arith), (λ h. ground arith, λ h. ground arith))

length_votes :
    (votes : List JurorVote)
    → length votes
      ≡ votes_for Choice.depositor votes
        + votes_for Choice.beneficiary votes
        + votes_for Choice.split votes
unfolding votes_for
length_votes [] = omega arith
length_votes (v ∷ vs) = one v.vote (length_votes vs)
  where
    one :
        (c : Choice)
        → length vs
          ≡ votes_for Choice.depositor vs
            + votes_for Choice.beneficiary vs
            + votes_for Choice.split vs
        → suc (length vs)
          ≡ (one_if (is_choice c Choice.depositor) + votes_for Choice.depositor vs)
            + (one_if (is_choice c Choice.beneficiary) + votes_for Choice.beneficiary vs)
            + (one_if (is_choice c Choice.split) + votes_for Choice.split vs)
    one Choice.depositor h = omega arith
    one Choice.beneficiary h = omega arith
    one Choice.split h = omega arith

-- An odd number of votes, none of them for a split, names a winner.
pub odd_votes_decide :
    (votes : List JurorVote)
    → length votes % 2 ≡ 1
    → votes_for Choice.split votes ≡ 0
    → compute_verdict votes ≢ DisputeVerdict.split
unfolding compute_verdict decide
odd_votes_decide votes odd none h =
    let c = tally_votes-Counts votes (record { depositor = 0; beneficiary = 0; split = 0 }) in
    let d = c.depositor in
    let b = c.beneficiary in let s = c.split in let n = length_votes votes in ground arith
