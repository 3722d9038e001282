-- ===== src/Dispute/Ballot.antt =====
-- `castVote` of `DisputeSagaService` from its checks to its result.
use trustflow_backend.Prelude.{
  ◌+◌, String, ◌≡◌, refl, Option, none, some, List, [], ◌∷◌, ◌++◌, Bool, true, false, ◌&&◌, not,
  ◌==◌, is_some, or_default, length, length-append, if◌then◌else◌, ◌∙◌,
}
use trustflow_backend.Prelude.Exec.{pure, ok, ◌>>=◌, ◌>>◌, throw}
use trustflow_backend.Prelude.Total.{
  IsTotal, IsTotal-bind, IsTotal-pure, Yields, Yields-pure, Yields-bind, Yields-then, IsTotal-tried,
  resume-Yields, Yields-when_else, Yields-weaken,
}
use trustflow_backend.World.{Env, World, Action, get_now, Instant}
use trustflow_backend.Data.Dispute.{
  DisputeSaga, voting, payout, CastVoteDto, JurorVote, DisputeVerdict,
}
use trustflow_backend.Dispute.Saga.{compute_verdict, touch, record_step_start, record_step_complete}
use trustflow_backend.Escrow.Store.{find_by_id as find_escrow}
use trustflow_backend.Dispute.Store.{Held, dispatch, persist_saga}
use trustflow_backend.Dispute.Voting.{
  check_vote, cast_vote, conclude_voting, reach_verdict, with_vote, finish_vote, record_vote,
  guarded, compensate_voting, is_decided,
}
use trustflow_backend.Dispute.Total.{
  IsTotal-get_now, IsTotal-dispatch, IsTotal-persist_saga, IsTotal-find_escrow,
}
use trustflow_backend.Dispute.Fields.{
  Agrees, touch-Agrees, record_step_start-Agrees, record_step_complete-Agrees,
}

-- The juror's own vote.
abbrev pub own_vote : CastVoteDto → String → JurorVote
own_vote dto cast_at = record {
  juror_address = dto.juror_address;
  vote = dto.vote;
  cast_at = cast_at;
}

-- One more vote makes as many as there are jurors, and there is no verdict yet.
abbrev pub is_last : DisputeSaga → Bool
is_last s =
    (length s.votes + 1 == elim s.assigned_jurors [ none ↦ 0 | some jurors ↦ length jurors ])
    && elim s.verdict [ none ↦ true | some v ↦ false ]

is_decided-with_vote :
    (s : DisputeSaga) (dto : CastVoteDto) (now : String)
    → is_decided (with_vote s dto now) ≡ is_last s
is_decided-with_vote s dto now =
    go s.assigned_jurors s.verdict (length-append s.votes (own_vote dto now ∷ []))
  where
    go :
        (jurors : Option (List String)) (verdict : Option DisputeVerdict)
        → length (s.votes ++ own_vote dto now ∷ []) ≡ length s.votes + 1
        → (length (s.votes ++ own_vote dto now ∷ []) == length (or_default jurors [])
            && not (is_some verdict))
          ≡ ((length s.votes + 1 == elim jurors [ none ↦ 0 | some js ↦ length js ])
              && elim verdict [ none ↦ true | some v ↦ false ])
    go none none e = rw e refl
    go none (some v) e = rw e refl
    go (some js) none e = rw e refl
    go (some js) (some v) e = rw e refl

module _ ⦃E : Env⦄ where
  -- What a vote makes of the saga `s`, with the vote cast at some time.
  pub record IsCounted (s : DisputeSaga) (dto : CastVoteDto) (t : DisputeSaga) : Type 0 where
    pub cast_at : String
    pub votes : t.votes ≡ s.votes ++ own_vote dto cast_at ∷ []
    pub verdict : t.verdict ≡ (
        if is_last s
        then some (compute_verdict (s.votes ++ own_vote dto cast_at ∷ []))
        else s.verdict)
    pub jurors : t.assigned_jurors ≡ s.assigned_jurors
    pub current_step : t.current_step ≡ (if is_last s then payout else s.current_step)

  abbrev Concluded : DisputeSaga → DisputeSaga → Type 0
  Concluded s t =
      (t.votes ≡ s.votes)
      × (t.verdict ≡ (if is_decided s then some (compute_verdict s.votes) else s.verdict))
      × (t.current_step ≡ (if is_decided s then payout else s.current_step))
      × (t.assigned_jurors ≡ s.assigned_jurors)

  announce-IsTotal :
      (event : String) (s : DisputeSaga)
      → IsTotal (do dispatch event s; find_escrow s.escrow_id; pure tt)
  announce-IsTotal event s =
      IsTotal-bind (dispatch event s) (λ _. do find_escrow s.escrow_id; pure tt)
        (IsTotal-dispatch event s)
        λ _.
          IsTotal-bind (find_escrow s.escrow_id) (λ _. pure tt) (IsTotal-find_escrow s.escrow_id)
            λ _. IsTotal-pure tt

  guarded-IsTotal :
      (h : Held) (juror : String) (m : Action (Unit {0})) → IsTotal m → IsTotal (guarded h juror m)
  guarded-IsTotal h juror m t = IsTotal-tried m (λ e. do compensate_voting h juror e; throw e) t

  -- What a verdict on all votes makes of `s`.
  abbrev Decided : DisputeSaga → DisputeSaga → Type 0
  Decided s t =
      (t.votes ≡ s.votes)
      × (t.verdict ≡ some (compute_verdict s.votes))
      × (t.current_step ≡ payout)
      × (t.assigned_jurors ≡ s.assigned_jurors)

  reach_verdict-Yields :
      (h : Held) (juror : String) → Yields (Decided h.saga) (reach_verdict h juror)
  unfolding reach_verdict
  reach_verdict-Yields h juror =
      let decided : DisputeSaga = record (h.saga) {
        verdict = some (compute_verdict h.saga.votes);
      } in
      let announced : DisputeSaga → Action (Unit {0}) = λ s.
        guarded (record h { saga = s }) juror
          (do dispatch "dispute.verdict_reached" s; find_escrow s.escrow_id; pure tt) in
      Yields-bind (Agrees decided) (Decided h.saga) (record_step_complete decided voting)
        (λ s. do
          announced (record s { current_step = payout })
          pure (record s { current_step = payout }))
        (record_step_complete-Agrees decided voting)
        λ s a.
          Yields-then (Decided h.saga) (announced (record s { current_step = payout }))
            (λ _. pure (record s { current_step = payout }))
            (guarded-IsTotal (record h { saga = record s { current_step = payout } }) juror _
              (announce-IsTotal "dispute.verdict_reached" (record s { current_step = payout })))
            λ _.
              Yields-pure (Decided h.saga) (record s { current_step = payout })
                (a.votes, a.verdict, refl, a.assigned_jurors)

  conclude_voting-Yields :
      (h : Held) (juror : String) → Yields (Concluded h.saga) (conclude_voting h juror)
  unfolding conclude_voting
  conclude_voting-Yields h juror =
      Yields-when_else (Concluded h.saga) (is_decided h.saga) (reach_verdict h juror) (pure h.saga)
        (λ done.
          Yields-weaken (reach_verdict h juror) (λ t d. (d.0, rw done d.1, rw done d.2, d.3))
            (reach_verdict-Yields h juror))
        (λ more. Yields-pure (Concluded h.saga) h.saga (refl, rw more refl, rw more refl, refl))

  finish_vote-Yields : (h : Held) (juror : String) → Yields (Concluded h.saga) (finish_vote h juror)
  unfolding finish_vote
  finish_vote-Yields h juror =
      Yields-bind (Concluded h.saga) (Concluded h.saga) (conclude_voting h juror)
        (λ s. do
          guarded (record h { saga = s }) juror (persist_saga (record h { saga = s }))
          pure s)
        (conclude_voting-Yields h juror)
        λ s c.
          Yields-then (Concluded h.saga)
            (guarded (record h { saga = s }) juror (persist_saga (record h { saga = s })))
            (λ _. pure s)
            (guarded-IsTotal (record h { saga = s }) juror (persist_saga (record h { saga = s }))
              (IsTotal-persist_saga (record h { saga = s })))
            λ _. Yields-pure (Concluded h.saga) s c

  counted :
      (h : Held) (dto : CastVoteDto) (now : String) (s0 s1 s2 : DisputeSaga)
      → Agrees h.saga s0
      → Agrees (with_vote s0 dto now) s1
      → Concluded s1 s2
      → IsCounted h.saga dto s2
  counted h dto now s0 s1 s2 a0 a1 c =
      let j : s1.assigned_jurors ≡ h.saga.assigned_jurors =
        a1.assigned_jurors ∙ a0.assigned_jurors in
      let v : s1.votes ≡ (with_vote h.saga dto now).votes = rw a1.votes (rw a0.votes refl) in
      let d : s1.verdict ≡ h.saga.verdict = a1.verdict ∙ a0.verdict in
      let k : s1.current_step ≡ h.saga.current_step = a1.current_step ∙ a0.current_step in
      let b : is_decided s1 ≡ is_decided (with_vote h.saga dto now) = rw v (rw j (rw d refl)) in
      let last : is_decided s1 ≡ is_last h.saga = b ∙ is_decided-with_vote h.saga dto now in
      record {
        cast_at = now;
        votes = c.0 ∙ v;
        verdict = c.1 ∙ rw last (rw v (rw d refl));
        jurors = c.3 ∙ j;
        current_step = c.2 ∙ rw last (rw k refl);
      }

  record_vote-Yields :
      (h : Held) (dto : CastVoteDto) → Yields (IsCounted h.saga dto) (record_vote h dto)
  unfolding record_vote
  record_vote-Yields h dto =
      let P : DisputeSaga → Type 0 = IsCounted h.saga dto in
      let announced : DisputeSaga → Action (Unit {0}) = λ s1.
        guarded (record h { saga = s1 }) dto.juror_address (dispatch "dispute.vote_cast" s1) in
      let finish : DisputeSaga → Action DisputeSaga =
        λ s1. finish_vote (record h { saga = s1 }) dto.juror_address in
      let add : DisputeSaga → Instant → Action DisputeSaga =
        λ s0 now. (do s1 ← touch (with_vote s0 dto now.iso); announced s1; finish s1) in
      Yields-bind (Agrees h.saga) P (record_step_start h.saga voting)
        (λ s0. do now ← get_now; add s0 now) (record_step_start-Agrees h.saga voting)
        λ s0 a0. Yields-then P get_now (add s0) IsTotal-get_now λ now.
          Yields-bind (Agrees (with_vote s0 dto now.iso)) P (touch (with_vote s0 dto now.iso))
            (λ s1. do announced s1; finish s1) (touch-Agrees (with_vote s0 dto now.iso))
            λ s1 a1.
              Yields-then P (announced s1) (λ _. finish s1)
                (guarded-IsTotal (record h { saga = s1 }) dto.juror_address
                  (dispatch "dispute.vote_cast" s1) (IsTotal-dispatch "dispute.vote_cast" s1))
                λ _.
                  Yields-weaken (finish s1) (λ s2 c. counted h dto now.iso s0 s1 s2 a0 a1 c)
                    (finish_vote-Yields (record h { saga = s1 }) dto.juror_address)

  -- A vote whose checks pass is cast, whatever Redis does: `castVote` returns the saga with the vote of the
  -- juror at the end of its votes, the same panel, and, if that makes as many votes as there are jurors
  -- and there was no verdict, with the verdict on all votes and at the payout.
  pub cast_vote-IsCounted :
      (saga_id : String) (dto : CastVoteDto) (caller : Option String) (w : World E.Remote)
      {h : Held}
      → (check_vote saga_id dto caller w).0 ≡ ok h
      → (t : DisputeSaga) × ((cast_vote saga_id dto caller w).0 ≡ ok t) × IsCounted h.saga dto t
  unfolding cast_vote
  cast_vote-IsCounted saga_id dto caller w {h} checked =
      resume-Yields (IsCounted h.saga dto) (check_vote saga_id dto caller w).0
        (λ g. record_vote g dto) (check_vote saga_id dto caller w).1 h checked
        (record_vote-Yields h dto)
