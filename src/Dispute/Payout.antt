-- ===== src/Dispute/Payout.antt =====
-- Step 4 of the saga: the payout by the verdict, and its compensation.
use trustflow_backend.Prelude.{
  ℕ, String, ◌<>◌, Option, none, some, true, false, is_some, truthy, or_default,
}
use trustflow_backend.Prelude.Exec.{
  Error, bad_request, conflict, message, pure, throw, try_catch, or_throw, throw_if, ◌>>=◌, ◌>>◌,
}
use trustflow_backend.Data.Escrow.{disputed}
use trustflow_backend.Data.Dispute.{
  DisputeSaga, payout, completed, compensating, DisputeVerdict, depositor_wins, beneficiary_wins,
}
use trustflow_backend.World.{Env, Action, ask, get_now, call, audit, when_do}
use trustflow_backend.Escrow.Store.{Loaded, find_by_id as find_escrow}
use trustflow_backend.Escrow.Lifecycle.{release, cancel, split, correct_status, check}
use trustflow_backend.Dispute.Saga.{
  assert_step, touch, mark_failed, record_step_start, record_step_complete, record_step_failed,
  record_step_compensated,
}
use trustflow_backend.Dispute.Store.{Held, find_by_id, persist_saga, dispatch}
use trustflow_backend.Dispute.Escalation.{log_failure}

module _ ⦃E : Env⦄ where
  -- applyPayout
  unfoldable pub apply_payout : DisputeSaga → DisputeVerdict → Option ℕ → Action (Unit {0})
  apply_payout saga beneficiary_wins percentage = do release saga.escrow_id; pure tt
  apply_payout saga depositor_wins percentage = do cancel saga.escrow_id; pure tt
  apply_payout saga DisputeVerdict.split percentage = do
    split saga.escrow_id (or_default percentage 50)
    pure tt

  -- The escrow goes back to `disputed` and is flagged, if it is there.
  abbrev pub flag_escrow : String → Option Loaded → Action (Unit {0})
  flag_escrow id none = pure tt
  flag_escrow id (some l) = do
    correct_status id (record {
      status = some disputed;
      requires_manual_review = some true;
      clear_dispute = false;
    })
    pure tt

  -- The `try` block of compensatePayout.
  unfoldable pub revert_payout : DisputeSaga → Action DisputeSaga
  revert_payout saga =
      try_catch
        (do
          e ← find_escrow saga.escrow_id
          flag_escrow saga.escrow_id e
          record_step_compensated (record saga { current_step = payout }) payout)
        (λ e. do log_failure "compensate" e; pure saga)

  unfoldable pub compensate_payout : Held → Error → Action (Unit {0})
  compensate_payout h e = do
    saga1 ← record_step_failed h.saga payout (message e)
    saga2 ←
        revert_payout
          (record saga1 { current_step = compensating; compensation_reason = some (message e) })
    saga3 ← mark_failed saga2 (message e)
    persist_saga (record h { saga = saga3 })
    dispatch "dispute.saga_failed" saga3

  abbrev pub guarded : {A : Type 0} → Held → Action A → Action A
  guarded h m = try_catch m (λ e. do compensate_payout h e; throw e)

  -- The checks of executePayout, in order, with the verdict.
  unfoldable pub check_payout : String → Action (Held × DisputeVerdict)
  check_payout saga_id = do
    h ← find_by_id saga_id
    check (assert_step h.saga payout)
    verdict ←
        or_throw h.saga.verdict (bad_request "Cannot execute payout: no verdict has been recorded")
    throw_if (is_some (truthy h.saga.payout_tx_hash))
        (conflict "Payout has already been executed for this saga")
    pure (h, verdict)

  abbrev archived : Held → Option String → Action DisputeSaga
  archived h none = pure h.saga
  archived h (some tx) = do
    persist_saga (record h { saga = record (h.saga) { arweave_tx_id = some tx } })
    pure (record (h.saga) { arweave_tx_id = some tx })

  -- The `try` block around the archive.
  unfoldable pub archive_dispute : Held → Action DisputeSaga
  archive_dispute h =
      try_catch (do tx ← ask (E.archive h.saga); archived h (truthy tx))
        (λ e. do log_failure "archive" e; pure h.saga)

  -- What executePayout does once the escrow is paid out.
  unfoldable pub complete_payout : String → Held → Action DisputeSaga
  complete_payout saga_id h0 = do
    stamp ← get_now
    saga1 ←
        record_step_complete
          (record (h0.saga) {
            payout_tx_hash = some ("payout-tx-" <> saga_id <> "-" <> E.number_text stamp.ms);
          })
          payout
    now ← get_now
    saga2 ← touch (record saga1 { current_step = completed; completed_at = some now.iso })
    let h2 = record h0 { saga = saga2 }
    guarded h2 (do
      persist_saga h2
      when_do E.has_audit (call (audit "DISPUTE_PAYOUT" saga_id))
      dispatch "dispute.payout_executed" saga2
      dispatch "dispute.saga_completed" saga2)
    saga3 ← archive_dispute h2
    guarded (record h2 { saga = saga3 }) (do find_escrow saga3.escrow_id; pure tt)
    pure saga3

  -- A payout whose checks have passed.
  unfoldable pub pay_out : String → Option ℕ → Held → DisputeVerdict → Action DisputeSaga
  pay_out saga_id percentage h verdict = do
    saga0 ← record_step_start h.saga payout
    guarded (record h { saga = saga0 }) (apply_payout saga0 verdict percentage)
    complete_payout saga_id (record h { saga = saga0 })

  unfoldable pub execute_payout : String → Option ℕ → Action DisputeSaga
  execute_payout saga_id percentage = do
    checked ← check_payout saga_id
    pay_out saga_id percentage checked.0 checked.1
