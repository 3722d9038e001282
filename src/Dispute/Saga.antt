-- ===== src/Dispute/Saga.antt =====
-- The helpers of `DisputeSagaService` on one saga: its step, its step history, its verdict.
use trustflow_backend.Prelude.{
  ℕ, suc, String, ◌<>◌, none, some, List, [], ◌∷◌, ◌++◌, Bool, true, false, not, ◌&&◌, ◌==◌, ltb,
  any, keep, is_some, if◌then◌else◌,
}
use trustflow_backend.Prelude.Exec.{Result, ok, err, bad_request, pure, when_else, ◌>>=◌}
use trustflow_backend.Data.Dispute.{
  DisputeStep, pending, escalation, juror_assignment, voting, payout, completed, compensating,
  failed, step_text, DisputeSaga, SagaStepRecord, JurorVote, Choice, DisputeVerdict, depositor_wins,
  beneficiary_wins,
}
use trustflow_backend.World.{Env, Action, get_now}

abbrev pub step_index : DisputeStep → ℕ
step_index pending = 0
step_index escalation = 1
step_index juror_assignment = 2
step_index voting = 3
step_index payout = 4
step_index completed = 5
step_index compensating = 6
step_index failed = 7

abbrev pub same_step : DisputeStep → DisputeStep → Bool
same_step s t = step_index s == step_index t

-- A saga that no one can advance any more.
abbrev pub is_over : DisputeStep → Bool
is_over failed = true
is_over completed = true
is_over _ = false

-- assertStep
unfoldable pub assert_step : DisputeSaga → DisputeStep → Result (Unit {0})
assert_step saga expected =
    if same_step saga.current_step failed
    then err (bad_request ("Saga " <> saga.saga_id <> " has failed and cannot be advanced"))
    else if same_step saga.current_step completed
    then err (bad_request ("Saga " <> saga.saga_id <> " is already completed"))
    else if not (same_step saga.current_step expected)
    then err (
        bad_request (
          "Saga "
          <> saga.saga_id
          <> " is at step "
          <> step_text saga.current_step
          <> ", expected "
          <> step_text expected))
    else ok tt

-- The record that `lastRecord` finds is the last one of the step.
unfoldable pub update_last :
    (SagaStepRecord → SagaStepRecord) → DisputeStep → List SagaStepRecord → List SagaStepRecord
update_last f step [] = []
update_last f step (r ∷ rs) =
    let rest = update_last f step rs in
    if any (λ x. same_step x.step step) rs
    then r ∷ rest
    else if same_step r.step step
    then f r ∷ rs
    else r ∷ rs

abbrev pub has_record : DisputeSaga → DisputeStep → Bool
has_record saga step = any (λ r. same_step r.step step) saga.step_history

abbrev pub incomplete : DisputeStep → SagaStepRecord → Bool
incomplete step r = same_step r.step step && not (is_some r.completed_at)

unfoldable pub begin_step : DisputeStep → String → DisputeSaga → DisputeSaga
begin_step step now saga = record saga {
  step_history =
      keep (λ r. not (incomplete step r)) saga.step_history
      ++ (let opened : SagaStepRecord = record {
        step = step;
        started_at = now;
        completed_at = none;
        failed_at = none;
        compensated_at = none;
        error = none;
      } in
          opened)
        ∷ [];
}

unfoldable pub update_record :
    (SagaStepRecord → SagaStepRecord) → DisputeStep → DisputeSaga → DisputeSaga
unfolding update_last
update_record f step saga = record saga { step_history = update_last f step saga.step_history }

-- computeVerdict: the tally, and the strict majority over each other choice.
pub record Tally : Type 0 where
  pub depositor : ℕ
  pub beneficiary : ℕ
  pub split : ℕ

abbrev pub count_vote : Choice → Tally → Tally
count_vote Choice.depositor t = record t { depositor = suc t.depositor }
count_vote Choice.beneficiary t = record t { beneficiary = suc t.beneficiary }
count_vote Choice.split t = record t { split = suc t.split }

unfoldable pub tally_votes : List JurorVote → Tally → Tally
tally_votes [] t = t
tally_votes (v ∷ vs) t = tally_votes vs (count_vote v.vote t)

unfoldable pub decide : Tally → DisputeVerdict
decide t =
    if ltb t.beneficiary t.depositor && ltb t.split t.depositor
    then depositor_wins
    else if ltb t.depositor t.beneficiary && ltb t.split t.beneficiary
    then beneficiary_wins
    else DisputeVerdict.split

unfoldable pub compute_verdict : List JurorVote → DisputeVerdict
unfolding tally_votes decide
compute_verdict votes =
    decide (tally_votes votes (record { depositor = 0; beneficiary = 0; split = 0 }))

module _ ⦃E : Env⦄ where
  abbrev pub touch : DisputeSaga → Action DisputeSaga
  touch saga = do now ← get_now; pure (record saga { updated_at = now.iso })

  unfoldable pub mark_failed : DisputeSaga → String → Action DisputeSaga
  mark_failed saga reason = do
    now ← get_now
    touch (record saga {
      current_step = failed;
      failed_at = some now.iso;
      compensation_reason = some reason;
    })

  unfoldable pub record_step_start : DisputeSaga → DisputeStep → Action DisputeSaga
  unfolding begin_step
  record_step_start saga step = do now ← get_now; pure (begin_step step now.iso saga)

  -- The clock is read only if there is a record of the step.
  abbrev on_record :
      DisputeSaga → DisputeStep → (String → SagaStepRecord → SagaStepRecord) → Action DisputeSaga
  on_record saga step f =
      when_else (has_record saga step)
        (do now ← get_now; pure (update_record (f now.iso) step saga)) (pure saga)

  unfoldable pub record_step_complete : DisputeSaga → DisputeStep → Action DisputeSaga
  unfolding update_record
  record_step_complete saga step =
      on_record saga step (λ now r. record r { completed_at = some now })

  unfoldable pub record_step_failed : DisputeSaga → DisputeStep → String → Action DisputeSaga
  unfolding update_record
  record_step_failed saga step reason =
      on_record saga step (λ now r. record r { failed_at = some now; error = some reason })

  unfoldable pub record_step_compensated : DisputeSaga → DisputeStep → Action DisputeSaga
  unfolding update_record
  record_step_compensated saga step =
      on_record saga step (λ now r. record r { compensated_at = some now })
