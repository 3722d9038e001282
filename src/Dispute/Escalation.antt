-- ===== src/Dispute/Escalation.antt =====
-- Step 1 of the saga, `escalate`, with its compensation. The keyed mutex runs the escalations of
-- one escrow one after another, so each is one action here.
use trustflow_backend.Prelude.{
  String, ◌<>◌, Option, none, some, Bool, true, false, not, ◌&&◌, ◌||◌, str_eq, find_first, [],
}
use trustflow_backend.Prelude.Exec.{
  Error, not_found, bad_request, conflict, forbidden, message, pure, throw, gets, try_catch,
  or_throw, when_else, throw_if, ◌>>=◌, ◌>>◌,
}
use trustflow_backend.Prelude.JsMap
use trustflow_backend.Data.Escrow.{Escrow, EscrowStatus, active, disputed, status_text}
use trustflow_backend.Data.Dispute.{
  DisputeSaga, escalation, juror_assignment, compensating, Origin, api, chain, EscalateDisputeDto,
}
use trustflow_backend.World.{
  Env, Action, ask, get_now, random_uuid, call, audit, discord, notify, log_error, when_do,
}
use trustflow_backend.Escrow.Store.{Loaded, links_to, find_all, find_by_id as find_escrow}
use trustflow_backend.Escrow.Lifecycle.{raise_dispute, apply_chain_state, correct_status}
use trustflow_backend.Dispute.Saga.{
  is_over, touch, mark_failed, record_step_start, record_step_complete, record_step_failed,
  record_step_compensated,
}
use trustflow_backend.Dispute.Store.{Held, find_by_escrow_id, create_saga, persist_saga, dispatch}

abbrev pub chain_dispute_initiator : String
chain_dispute_initiator = "chain:unknown"

abbrev pub is_disputed : EscrowStatus → Bool
is_disputed disputed = true
is_disputed _ = false

-- The statuses from which an escalation starts.
abbrev pub can_escalate : EscrowStatus → Bool
can_escalate active = true
can_escalate disputed = true
can_escalate _ = false

abbrev pub is_chain : Origin → Bool
is_chain chain = true
is_chain api = false

abbrev pub is_party : String → Escrow → Bool
is_party who e = str_eq who e.depositor || str_eq who e.beneficiary

-- The initiators that an escalation accepts.
abbrev pub may_initiate : String → Origin → Escrow → Bool
may_initiate who origin e = is_chain origin && str_eq who chain_dispute_initiator || is_party who e

abbrev same_time : Option String → Option String → Bool
same_time none none = true
same_time (some a) (some b) = str_eq a b
same_time _ _ = false

-- The dispute that the saga raised is still the one on the escrow.
abbrev pub still_ours : Escrow → Escrow → Bool
still_ours current frozen =
    is_disputed current.status && same_time current.disputed_at frozen.disputed_at

abbrev pub blocks : Option Held → Bool
blocks none = false
blocks (some h) = not (is_over h.saga.current_step)

module _ ⦃E : Env⦄ where
  abbrev pub log_failure : String → Error → Action (Unit {0})
  log_failure what e = call (log_error what (message e))

  -- The status that an object from `findAll` shows now: a live one shows later writes.
  abbrev status_now : Loaded → Action EscrowStatus
  status_now l = gets (λ w. elim l.live [
    | false ↦ l.value.status
    | true ↦ elim (JsMap.get l.value.id w.escrows) [ none ↦ l.value.status | some e ↦ e.status ]
  ])

  abbrev apply_status : String → String → Action (Unit {0})
  apply_status id text = do
    apply_chain_state id (record { status = some text; amount_xlm = none }) none
    pure tt

  unfoldable pub sync_found : Loaded → String → Action (Unit {0})
  sync_found l text = do
    when_do (not (str_eq (status_text l.value.status) text)) (apply_status l.value.id text)
    status ← status_now l
    when_do (str_eq text "disputed" && not (is_disputed status))
        (apply_status l.value.id "disputed")

  abbrev sync_linked : Option Loaded → String → Action (Unit {0})
  sync_linked none text = pure tt
  sync_linked (some l) text = sync_found l text

  abbrev sync_answer : String → Option String → Action (Unit {0})
  sync_answer contract_id none = pure tt
  sync_answer contract_id (some text) = do
    escrows ← find_all
    sync_linked (find_first (λ l. links_to contract_id l.value) escrows) text

  -- syncEscrowFromChain
  unfoldable pub sync_escrow_from_chain : String → Action (Unit {0})
  unfolding sync_found
  sync_escrow_from_chain contract_id =
      when_do E.has_chain_client
        (do answer ← ask (E.chain_status contract_id); sync_answer contract_id answer)

  abbrev sync_contract : Option String → Action (Unit {0})
  sync_contract none = pure tt
  sync_contract (some contract_id) =
      when_do (E.has_chain_client && not (str_eq contract_id ""))
        (try_catch (sync_escrow_from_chain contract_id) (log_failure "sync"))

  abbrev sync_if_linked : Option Loaded → Action (Unit {0})
  sync_if_linked none = pure tt
  sync_if_linked (some l) = sync_contract l.value.contract_escrow_id

  -- Restores the status that the saga recorded, if its own dispute is still the one on the escrow.
  abbrev restore : DisputeSaga → Escrow → Option Loaded → Action (Unit {0})
  restore saga frozen none = pure tt
  restore saga frozen (some current) =
      when_do (still_ours current.value frozen) (restore_prior saga.prior_escrow_status)
    where
      restore_prior : Option EscrowStatus → Action (Unit {0})
      restore_prior none = pure tt
      restore_prior (some prior) = do
        correct_status saga.escrow_id
            (record { status = some prior; requires_manual_review = none; clear_dispute = true })
        pure tt

  abbrev unfreeze : DisputeSaga → Option Escrow → Action (Unit {0})
  unfreeze saga none = pure tt
  unfreeze saga (some frozen) = do current ← find_escrow saga.escrow_id; restore saga frozen current

  -- The `try` block of compensateEscalation.
  unfoldable pub revert_escalation : DisputeSaga → Option Escrow → Action DisputeSaga
  unfolding sync_escrow_from_chain record_step_compensated
  revert_escalation saga frozen =
      try_catch
        (do
          escrow ← find_escrow saga.escrow_id
          sync_if_linked escrow
          unfreeze saga frozen
          record_step_compensated saga escalation)
        (λ e. do log_failure "compensate" e; pure saga)

  unfoldable pub compensate_escalation : Held → Error → Option Escrow → Action (Unit {0})
  unfolding revert_escalation record_step_failed mark_failed persist_saga dispatch
  compensate_escalation h e frozen = do
    saga1 ← record_step_failed h.saga escalation (message e)
    let saga2 = record saga1 { current_step = compensating; compensation_reason = some (message e) }
    saga3 ← revert_escalation saga2 frozen
    saga4 ← mark_failed saga3 (message e)
    try_catch (persist_saga (record h { saga = saga4 })) (log_failure "persist")
    dispatch "dispute.saga_failed" saga4

  abbrev guarded : {A : Type 0} → Held → Option Escrow → Action A → Action A
  guarded h frozen m = try_catch m (λ e. do compensate_escalation h e frozen; throw e)

  -- Step 2 of escalate: an escrow that is already disputed is adopted as it is.
  abbrev freeze : String → Escrow → EscalateDisputeDto → Action (Option Escrow)
  freeze escrow_id e dto =
      when_else (is_disputed e.status) (pure none)
        (do frozen ← raise_dispute escrow_id (some dto.reason); pure (some frozen))

  abbrev require_escrow : String → Action Loaded
  require_escrow escrow_id = do
    found ← find_escrow escrow_id
    or_throw found (not_found ("Escrow " <> escrow_id <> " not found"))

  abbrev pub open_saga :
      String → String → Escrow → EscalateDisputeDto → Origin → String → DisputeSaga
  open_saga id escrow_id e dto origin now = record {
    saga_id = id;
    escrow_id = escrow_id;
    initiator = dto.initiator;
    origin = origin;
    reason = dto.reason;
    prior_escrow_status = some e.status;
    current_step = escalation;
    escalation_tx_hash = none;
    assigned_jurors = none;
    votes = [];
    verdict = none;
    payout_tx_hash = none;
    arweave_tx_id = none;
    step_history = [];
    created_at = now;
    updated_at = now;
    completed_at = none;
    failed_at = none;
    compensation_reason = none;
  }

  -- From the opening of the saga to its commit at JUROR_ASSIGNMENT.
  unfoldable pub commit_escalation :
      String → Escrow → EscalateDisputeDto → Origin → Action (DisputeSaga × Escrow)
  commit_escalation escrow_id e dto origin = do
    stamp ← get_now
    suffix ← random_uuid
    now ← get_now
    saga0 ←
        record_step_start
          (open_saga ("saga-" <> E.number_text stamp.ms <> "-" <> suffix) escrow_id e dto origin
            now.iso)
          escalation
    h ← create_saga saga0
    frozen ← guarded h none (freeze escrow_id e dto)
    saga1 ←
        record_step_complete
          (record saga0 { escalation_tx_hash = some ("escalation-tx-" <> saga0.saga_id) })
          escalation
    saga2 ← touch (record saga1 { current_step = juror_assignment })
    guarded (record h { saga = saga2 }) frozen (persist_saga (record h { saga = saga2 }))
    pure (saga2, elim frozen [ none ↦ e | some f ↦ f ])

  abbrev best_effort : String → Action (Unit {0}) → Action (Unit {0})
  best_effort what m = try_catch m (log_failure what)

  unfoldable pub after_escalation : DisputeSaga → Escrow → Action (Unit {0})
  unfolding dispatch
  after_escalation saga e = do
    when_do E.has_audit (best_effort "audit log" (call (audit "DISPUTE_ESCALATE" saga.saga_id)))
    best_effort "dispute.raised" (dispatch "dispute.raised" saga)
    best_effort "dispute.escalated" (dispatch "dispute.escalated" saga)
    when_do E.has_discord
        (best_effort "Discord notification" (call (discord "jurors" saga.escrow_id)))
    best_effort "in-app notification" (call (notify "escalation" saga.escrow_id))

  -- The checks of escalate, in order.
  unfoldable pub check_escalation : String → EscalateDisputeDto → Origin → Action Escrow
  check_escalation escrow_id dto origin = do
    existing ← find_by_escrow_id escrow_id
    throw_if (blocks existing)
        (conflict ("An active dispute saga already exists for escrow " <> escrow_id))
    l ← require_escrow escrow_id
    throw_if (not (can_escalate l.value.status))
        (bad_request ("Cannot dispute a " <> status_text l.value.status <> " escrow"))
    throw_if (not (may_initiate dto.initiator origin l.value))
        (forbidden "Only the depositor or beneficiary can escalate a dispute for this escrow")
    pure l.value

  unfoldable pub escalate : String → EscalateDisputeDto → Origin → Action DisputeSaga
  escalate escrow_id dto origin = do
    e ← check_escalation escrow_id dto origin
    committed ← commit_escalation escrow_id e dto origin
    after_escalation (committed.0) (committed.1)
    pure committed.0

  abbrev from_chain : Option Held → String → String → Action DisputeSaga
  from_chain none escrow_id reason =
      escalate escrow_id (record { initiator = chain_dispute_initiator; reason = reason }) chain
  from_chain (some h) escrow_id reason =
      when_else (is_over h.saga.current_step)
        (escalate escrow_id (record { initiator = chain_dispute_initiator; reason = reason }) chain)
        (pure h.saga)

  -- Delivered again, the event finds the active saga and returns it.
  unfoldable pub escalate_from_chain : String → String → Action DisputeSaga
  escalate_from_chain escrow_id reason = do
    existing ← find_by_escrow_id escrow_id
    from_chain existing escrow_id reason
