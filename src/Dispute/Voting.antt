-- ===== src/Dispute/Voting.antt =====
-- Steps 2 and 3 of the saga: the assignment of jurors, their votes, and the compensations. The
-- keyed mutex runs the transitions of one saga one after another.
use trustflow_backend.Prelude.{
  ◌%◌, String, ◌<>◌, Option, none, some, List, [], ◌∷◌, ◌++◌, Bool, false, not, ◌&&◌, ◌==◌, ltb,
  str_eq, any, keep, is_some, length, truthy, or_default,
}
use trustflow_backend.Prelude.Exec.{
  Error, bad_request, conflict, forbidden, message, pure, throw, try_catch, when_else, throw_if,
  ◌>>=◌, ◌>>◌,
}
use trustflow_backend.Prelude.JsSet
use trustflow_backend.Data.Dispute.{
  DisputeSaga, juror_assignment, voting, payout, JurorVote, CastVoteDto,
}
use trustflow_backend.World.{Env, Action, get_now}
use trustflow_backend.Escrow.Store.{Loaded, find_by_id as find_escrow}
use trustflow_backend.Escrow.Lifecycle.{check}
use trustflow_backend.Dispute.Saga.{
  assert_step, compute_verdict, touch, mark_failed, record_step_start, record_step_complete,
  record_step_failed, record_step_compensated,
}
use trustflow_backend.Dispute.Store.{Held, find_by_id, persist_saga, dispatch}
use trustflow_backend.Dispute.Escalation.{is_party}

-- [...new Set(dto.jurors)]
abbrev pub unique : List String → List String
unique jurors = JsSet.from_list jurors []

-- A party of the escrow among the jurors.
abbrev pub has_party : Option Loaded → List String → Bool
has_party none jurors = false
has_party (some l) jurors = any (λ j. is_party j l.value) jurors

abbrev pub is_juror : DisputeSaga → String → Bool
is_juror saga who = elim saga.assigned_jurors [
  | none ↦ false
  | some jurors ↦ any (λ j. str_eq j who) jurors
]

abbrev pub has_voted : DisputeSaga → String → Bool
has_voted saga who = any (λ v. str_eq v.juror_address who) saga.votes

abbrev pub jurors_of : DisputeSaga → List String
jurors_of saga = or_default saga.assigned_jurors []

-- saga.votes.length === saga.assignedJurors.length && !saga.verdict
abbrev pub is_decided : DisputeSaga → Bool
is_decided saga = length saga.votes == length (jurors_of saga) && not (is_some saga.verdict)

abbrev pub with_vote : DisputeSaga → CastVoteDto → String → DisputeSaga
with_vote saga dto now = record saga {
  votes =
      saga.votes
      ++ (let v : JurorVote = record {
        juror_address = dto.juror_address;
        vote = dto.vote;
        cast_at = now;
      } in
          v)
        ∷ [];
}

abbrev pub without_votes_of : String → DisputeSaga → DisputeSaga
without_votes_of who saga = record saga {
  votes = keep (λ v. not (str_eq v.juror_address who)) saga.votes;
  verdict = none;
}

-- callerAddress && callerAddress !== dto.jurorAddress
abbrev pub is_impostor : Option String → String → Bool
is_impostor none who = false
is_impostor (some caller) who = not (str_eq caller who)

module _ ⦃E : Env⦄ where
  unfoldable pub compensate_juror_assignment : Held → Error → Action (Unit {0})
  compensate_juror_assignment h e = do
    saga1 ← record_step_failed h.saga juror_assignment (message e)
    saga2 ←
        record_step_compensated
          (record saga1 {
            assigned_jurors = none;
            current_step = juror_assignment;
            compensation_reason = some (message e);
          })
          juror_assignment
    saga3 ← mark_failed saga2 (message e)
    persist_saga (record h { saga = saga3 })
    dispatch "dispute.saga_compensating" saga3

  -- The checks of assignJurors, in order, with the list of the distinct jurors.
  unfoldable pub check_assignment : String → List String → Action (Held × List String)
  check_assignment saga_id jurors = do
    h ← find_by_id saga_id
    check (assert_step h.saga juror_assignment)
    throw_if (ltb (length (unique jurors)) 3)
        (bad_request "At least 3 distinct juror addresses are required")
    throw_if (length (unique jurors) % 2 == 0)
        (bad_request "Juror count must be odd to prevent vote ties")
    e ← find_escrow h.saga.escrow_id
    throw_if (has_party e (unique jurors))
        (bad_request "Escrow parties (depositor and beneficiary) cannot be assigned as jurors")
    pure (h, unique jurors)

  -- An assignment whose checks have passed.
  unfoldable pub seat_jurors : Held → List String → Action DisputeSaga
  seat_jurors h jurors = do
    saga0 ← record_step_start h.saga juror_assignment
    saga1 ← record_step_complete (record saga0 { assigned_jurors = some jurors }) juror_assignment
    saga2 ← touch (record saga1 { current_step = voting })
    try_catch
        (do persist_saga (record h { saga = saga2 }); dispatch "dispute.jurors_assigned" saga2)
        (λ e. do compensate_juror_assignment (record h { saga = saga2 }) e; throw e)
    pure saga2

  unfoldable pub assign_jurors : String → List String → Action DisputeSaga
  assign_jurors saga_id jurors = do
    checked ← check_assignment saga_id jurors
    seat_jurors checked.0 checked.1

  unfoldable pub compensate_voting : Held → String → Error → Action (Unit {0})
  compensate_voting h juror e = do
    saga1 ← record_step_failed h.saga voting (message e)
    saga2 ← record_step_compensated (without_votes_of juror saga1) voting
    persist_saga (record h { saga = saga2 })
    dispatch "dispute.saga_compensating" saga2

  abbrev pub guarded : Held → String → Action (Unit {0}) → Action (Unit {0})
  guarded h juror m = try_catch m (λ e. do compensate_voting h juror e; throw e)

  -- The checks of castVote, in order.
  unfoldable pub check_vote : String → CastVoteDto → Option String → Action Held
  check_vote saga_id dto caller = do
    h ← find_by_id saga_id
    check (assert_step h.saga voting)
    throw_if (is_impostor (truthy caller) dto.juror_address)
        (forbidden "Authenticated wallet does not match juror address")
    throw_if (not (is_juror h.saga dto.juror_address))
        (bad_request (dto.juror_address <> " is not an assigned juror for this saga"))
    throw_if (has_voted h.saga dto.juror_address)
        (conflict ("Juror " <> dto.juror_address <> " has already voted"))
    pure h

  -- The verdict on all votes, and the move to the payout.
  unfoldable pub reach_verdict : Held → String → Action DisputeSaga
  reach_verdict h juror = do
    saga1 ←
        record_step_complete (record (h.saga) { verdict = some (compute_verdict h.saga.votes) })
          voting
    let saga2 = record saga1 { current_step = payout }
    guarded (record h { saga = saga2 }) juror
        (do dispatch "dispute.verdict_reached" saga2; find_escrow saga2.escrow_id; pure tt)
    pure saga2

  -- The verdict, once every juror has voted.
  unfoldable pub conclude_voting : Held → String → Action DisputeSaga
  conclude_voting h juror = when_else (is_decided h.saga) (reach_verdict h juror) (pure h.saga)

  -- The end of castVote: the verdict if it is due, then the saga is stored.
  unfoldable pub finish_vote : Held → String → Action DisputeSaga
  finish_vote h juror = do
    saga2 ← conclude_voting h juror
    guarded (record h { saga = saga2 }) juror (persist_saga (record h { saga = saga2 }))
    pure saga2

  -- A vote whose checks have passed.
  unfoldable pub record_vote : Held → CastVoteDto → Action DisputeSaga
  record_vote h dto = do
    saga0 ← record_step_start h.saga voting
    now ← get_now
    saga1 ← touch (with_vote saga0 dto now.iso)
    guarded (record h { saga = saga1 }) dto.juror_address (dispatch "dispute.vote_cast" saga1)
    finish_vote (record h { saga = saga1 }) dto.juror_address

  unfoldable pub cast_vote : String → CastVoteDto → Option String → Action DisputeSaga
  cast_vote saga_id dto caller = do h ← check_vote saga_id dto caller; record_vote h dto
