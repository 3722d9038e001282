-- ===== src/Dispute/Electorate.antt =====
-- The voters of a saga, as `castVote` of `DisputeSagaService` admits them.
use trustflow_backend.Prelude.{
  String, ◌≡◌, refl, Option, none, some, true, false, List, [], ◌∷◌, ◌++◌, arith, any, str_eq, not,
  All, ap, ◌∙◌, sym, truthy,
}
use trustflow_backend.Prelude.JsSet
use trustflow_backend.Prelude.JsSet.{IsDistinct, append-IsDistinct}
use trustflow_backend.Prelude.Exec.{ok, >>=-eq-ok, throw_if-passes, given-passes}
use trustflow_backend.World.{Env, World}
use trustflow_backend.Data.Dispute.{DisputeSaga, voting, CastVoteDto, JurorVote}
use trustflow_backend.Dispute.Saga.{assert_step, same_step}
use trustflow_backend.Dispute.Store.{Held, find_by_id}
use trustflow_backend.Dispute.Voting.{check_vote, cast_vote, has_voted, is_juror, is_impostor}
use trustflow_backend.Dispute.Jurors.{assert_step-passes}
use trustflow_backend.Dispute.Ballot.{cast_vote-IsCounted}

-- The jurors who have voted, in the order of their votes.
unfoldable pub voters : List JurorVote → List String
voters [] = []
voters (v ∷ vs) = v.juror_address ∷ voters vs

-- Each voter is on the panel, and has voted once.
pub record IsBallot (s : DisputeSaga) : Type 0 where
  pub once : IsDistinct (voters s.votes)
  pub seated : All (λ who. is_juror s who ≡ true) (voters s.votes)

voters-append :
    (vs : List JurorVote) (v : JurorVote)
    → voters (vs ++ v ∷ []) ≡ voters vs ++ v.juror_address ∷ []
unfolding voters
voters-append [] v = refl
voters-append (x ∷ vs) v = ap (λ r. x.juror_address ∷ r) (voters-append vs v)

has-voters :
    (who : String) (vs : List JurorVote)
    → JsSet.has who (voters vs) ≡ any (λ v. str_eq v.juror_address who) vs
unfolding voters JsSet.has any
has-voters who [] = refl
has-voters who (v ∷ vs) = rw (has-voters who vs) refl

is_juror-same :
    (s t : DisputeSaga) (who : String)
    → t.assigned_jurors ≡ s.assigned_jurors
    → is_juror t who ≡ is_juror s who
is_juror-same s t who e =
    ap (λ j. elim j [ none ↦ false | some jurors ↦ any (λ x. str_eq x who) jurors ]) e

-- The jurors `xs` of `s` and one more are jurors of `t`, which has the same panel.
All-is_juror :
    (s t : DisputeSaga) (xs : List String) (x : String)
    → t.assigned_jurors ≡ s.assigned_jurors
    → All (λ who. is_juror s who ≡ true) xs
    → is_juror s x ≡ true
    → All (λ who. is_juror t who ≡ true) (xs ++ x ∷ [])
All-is_juror s t [] x e a p = (is_juror-same s t x e ∙ p, tt)
All-is_juror s t (y ∷ xs) x e a p = (is_juror-same s t y e ∙ a.0, All-is_juror s t xs x e a.1 p)

module _ ⦃E : Env⦄ where
  check_vote_sound :
      (saga_id : String) (dto : CastVoteDto) (caller : Option String) (w : World E.Remote)
      (h : Held)
      → (check_vote saga_id dto caller w).0 ≡ ok h
      → (same_step h.saga.current_step voting ≡ true)
        × (is_impostor (truthy caller) dto.juror_address ≡ false)
        × (is_juror h.saga dto.juror_address ≡ true)
        × (has_voted h.saga dto.juror_address ≡ false)
  unfolding check_vote
  check_vote_sound saga_id dto caller w h ok_h =
      let (h', found, k) = >>=-eq-ok (find_by_id saga_id) _ w ok_h in
      let w1 = (find_by_id saga_id w).1 in
      let (step, k1) = given-passes (assert_step h'.saga voting) _ w1 k in
      let (own, k2) = throw_if-passes (is_impostor (truthy caller) dto.juror_address) _ _ w1 k1 in
      let (on, k3) = throw_if-passes (not (is_juror h'.saga dto.juror_address)) _ _ w1 k2 in
      let (first, k4) = throw_if-passes (has_voted h'.saga dto.juror_address) _ _ w1 k3 in
      let same : h' ≡ h = cc in
      (
        rw (sym same) (assert_step-passes h'.saga voting step),
        own,
        rw (sym same) (ground (arith, on)),
        rw (sym same) first,
      )

  -- If the checks of a vote pass on a saga whose voters are distinct jurors of its panel, then
  -- `castVote` returns the saga with one vote more, whose voters are again distinct jurors of the
  -- same panel.
  pub cast_vote-IsBallot :
      (saga_id : String) (dto : CastVoteDto) (caller : Option String) (w : World E.Remote)
      {h : Held}
      → (check_vote saga_id dto caller w).0 ≡ ok h
      → IsBallot h.saga
      → (t : DisputeSaga) × ((cast_vote saga_id dto caller w).0 ≡ ok t)
        × IsBallot t
        × (t.assigned_jurors ≡ h.saga.assigned_jurors)
        × (voters t.votes ≡ voters h.saga.votes ++ dto.juror_address ∷ [])
  cast_vote-IsBallot saga_id dto caller w {h} checked b =
      let (step, own, on, first) = check_vote_sound saga_id dto caller w h checked in
      let (t, done, c) = cast_vote-IsCounted saga_id dto caller w checked in
      let same : voters t.votes ≡ voters h.saga.votes ++ dto.juror_address ∷ [] =
        ap voters c.votes ∙ voters-append h.saga.votes _ in
      (
        t,
        done,
        record {
          once = rw same (
              append-IsDistinct dto.juror_address (voters h.saga.votes)
                (has-voters dto.juror_address h.saga.votes ∙ first) b.once);
          seated =
              rw same (
                All-is_juror h.saga t (voters h.saga.votes) dto.juror_address c.jurors b.seated on);
        },
        c.jurors,
        same,
      )
