-- ===== src/Reconcile/Service.antt =====
-- `EscrowReconciliationService`: the escrows of the database against those of the chain.
use trustflow_backend.Prelude.{
  ℕ, ◌+◌, String, ◌<>◌, Option, none, some, List, [], ◌∷◌, ◌++◌, Bool, true, false, not, map, keep,
  any, length, ltb, str_eq, truthy, or_default,
}
use trustflow_backend.Prelude.Exec.{Result, message, pure, gets, try_catch, when_else, ◌>>=◌, ◌>>◌}
use trustflow_backend.Prelude.JsMap
use trustflow_backend.Data.Escrow.{Escrow, status_text}
use trustflow_backend.Data.Outbox.{of_run, of_backfill}
use trustflow_backend.Data.Reconciliation.{
  DriftType, status_mismatch, amount_mismatch, missing_in_db, missing_on_chain, invalid_chain_data,
  ChainEscrowRecord, PartialRecord, DriftRecord, ReconciliationError, ReconciliationRun,
}
use trustflow_backend.World.{Env, Action, get_now, random_uuid, when_do}
use trustflow_backend.Amounts.{amounts_equal}
use trustflow_backend.Outbox.Queue.{send_webhook}
use trustflow_backend.Escrow.Store.{Loaded, find_all, create_from_chain_state}
use trustflow_backend.Escrow.Lifecycle.{apply_chain_state}
use trustflow_backend.Reconcile.Store.{save}

-- What `chainClient.getEscrow` comes to: a record or none, data that does not validate, or another error.
pub data ChainRead : Type 0 where
  found : ChainEscrowRecord → ChainRead
  absent : ChainRead
  invalid : String → ChainRead
  failed : String → ChainRead

-- The chain client, and the comparison of BigNumber behind `amountsEqual`, on texts that are numbers.
pub record Chain (Remote : Type 0) : Type 0 where
  pub read : String → Remote → ChainRead × Remote
  pub amounts_equal : String → String → Bool

pub record Target : Type 0 where
  pub contract_escrow_id : String
  pub escrow : Option Loaded

-- What a run finds: its drifts and its errors.
pub record Findings : Type 0 where
  pub drifts : List DriftRecord
  pub errors : List ReconciliationError

abbrev pub nothing_found : Findings
nothing_found = record { drifts = []; errors = [] }

abbrev pub both : Findings → Findings → Findings
both a b = record { drifts = a.drifts ++ b.drifts; errors = a.errors ++ b.errors }

abbrev pub no_fields : PartialRecord
no_fields = record {
  contract_escrow_id = none;
  depositor = none;
  beneficiary = none;
  amount_xlm = none;
  status = none;
}

abbrev pub all_fields : ChainEscrowRecord → PartialRecord
all_fields r = record {
  contract_escrow_id = some r.contract_escrow_id;
  depositor = some r.depositor;
  beneficiary = some r.beneficiary;
  amount_xlm = some r.amount_xlm;
  status = some r.status;
}

abbrev pub drift :
    DriftType → String → Option PartialRecord → Option PartialRecord → String → DriftRecord
drift kind id db chain now = record {
  contract_escrow_id = id;
  drift_type = kind;
  db_value = db;
  chain_value = chain;
  repaired = false;
  repair_error = none;
  detected_at = now;
}

abbrev pub as_repaired : DriftRecord → DriftRecord
as_repaired d = record d { repaired = true }

abbrev pub as_failed : String → DriftRecord → DriftRecord
as_failed reason d = record d { repair_error = some reason }

abbrev pub contract_of : Loaded → Option String
contract_of l = truthy l.value.contract_escrow_id

unfoldable pub linked_targets : List Loaded → List Target
unfolding truthy
linked_targets [] = []
linked_targets (l ∷ ls) =
    let rest = linked_targets ls in
    elim (contract_of l) [
      | none ↦ rest
      | some id ↦ record { contract_escrow_id = id; escrow = some l } ∷ rest
    ]

abbrev pub knows : List Target → String → Bool
knows ts id = any (λ t. str_eq t.contract_escrow_id id) ts

unfoldable pub targets_of : List Loaded → List String → List Target
unfolding linked_targets
targets_of all extra =
    let linked = linked_targets all in
    linked
    ++ map (λ id. record { contract_escrow_id = id; escrow = none })
        (keep (λ id. not (knows linked id)) extra)

module _ ⦃E : Env⦄ where
  abbrev pub record_drift :
      DriftType → String → Option PartialRecord → Option PartialRecord → Action DriftRecord
  record_drift kind id db chain = do now ← get_now; pure (drift kind id db chain now.iso)

  -- The fields of a live escrow as they are now.
  abbrev pub value_now : Loaded → Action Escrow
  value_now l = gets (λ w. elim l.live [
    | false ↦ l.value
    | true ↦ or_default (JsMap.get l.value.id w.escrows) l.value
  ])

  -- The drifts with the outcome of their repair.
  unfoldable pub repair :
      List DriftRecord → String → ChainEscrowRecord → Option ℕ → Action (List DriftRecord)
  repair drifts id r version =
      try_catch
        (do
          apply_chain_state id
              (record { status = some (status_text r.status); amount_xlm = some r.amount_xlm })
              version
          pure (map as_repaired drifts))
        (λ e. pure (map (as_failed (message e)) drifts))

  unfoldable pub repair_missing_in_db : DriftRecord → ChainEscrowRecord → Action DriftRecord
  repair_missing_in_db d r =
      try_catch
        (do
          created ← create_from_chain_state (record {
            contract_escrow_id = r.contract_escrow_id;
            depositor = r.depositor;
            beneficiary = r.beneficiary;
            amount_xlm = r.amount_xlm;
            status = r.status;
          })
          send_webhook "escrow_reconciliation.escrow_backfilled"
              (of_backfill created.id r.contract_escrow_id) none
          pure (as_repaired d))
        (λ e. pure (as_failed (message e) d))

  module _ (C : Chain E.Remote) where
    abbrev pub read_chain : String → Action ChainRead
    read_chain id w =
        let (r, remote) = C.read id w.remote in (Result.ok r, record w { remote = remote })

    unfoldable pub read_all : List Target → Action (List (Target × ChainRead))
    read_all [] = pure []
    read_all (t ∷ ts) = do r ← read_chain t.contract_escrow_id; rs ← read_all ts; pure ((t, r) ∷ rs)

    abbrev pub status_drift : String → Escrow → ChainEscrowRecord → Action (List DriftRecord)
    status_drift id e r =
        when_else (str_eq (status_text r.status) (status_text e.status)) (pure []) (do
          d ←
              record_drift status_mismatch id (some (record no_fields { status = some e.status }))
                (some (record no_fields { status = some r.status }))
          pure (d ∷ []))

    abbrev pub amount_drift : String → Escrow → ChainEscrowRecord → Action (List DriftRecord)
    amount_drift id e r = do
      equal ← amounts_equal C.amounts_equal r.amount_xlm e.amount_xlm
      when_else equal (pure []) (do
        d ←
            record_drift amount_mismatch id
              (some (record no_fields { amount_xlm = some e.amount_xlm }))
              (some (record no_fields { amount_xlm = some r.amount_xlm }))
        pure (d ∷ []))

    abbrev pub repair_drifts :
        List DriftRecord → Escrow → ChainEscrowRecord → Action (List DriftRecord)
    repair_drifts [] e r = pure []
    repair_drifts (d ∷ ds) e r = repair (d ∷ ds) e.id r e.version

    abbrev pub compare_values : String → ChainEscrowRecord → Escrow → Action Findings
    compare_values id r e = do
      s ← status_drift id e r
      a ← amount_drift id e r
      drifts ← repair_drifts (s ++ a) e r
      pure (record { drifts = drifts; errors = [] })

    -- An escrow on both sides.
    unfoldable pub compare_fields : String → Loaded → ChainEscrowRecord → Action Findings
    unfolding repair
    compare_fields id l r = value_now l >>= compare_values id r

    abbrev one_drift : Action DriftRecord → Action Findings
    one_drift m = do d ← m; pure (record { drifts = d ∷ []; errors = [] })

    unfoldable pub examine : Target → ChainRead → Action Findings
    unfolding compare_fields repair_missing_in_db
    examine t (failed m) = do
      now ← get_now
      pure (record {
        drifts = [];
        errors =
            record { contract_escrow_id = t.contract_escrow_id; message = m; occurred_at = now.iso }
            ∷ [];
      })
    examine t (invalid reason) = one_drift (do
      d ← record_drift invalid_chain_data t.contract_escrow_id none none
      pure (as_failed reason d))
    examine t absent = elim t.escrow [
      | none ↦ pure nothing_found
      | some l ↦ do
        e ← value_now l
        one_drift (
            record_drift missing_on_chain t.contract_escrow_id
              (some (record no_fields { status = some e.status; amount_xlm = some e.amount_xlm }))
              none)
    ]
    examine t (found r) = elim t.escrow [
      | none ↦ one_drift (do
        d ← record_drift missing_in_db t.contract_escrow_id none (some (all_fields r))
        repair_missing_in_db d r)
      | some l ↦ compare_fields t.contract_escrow_id l r
    ]

    unfoldable pub examine_all : List (Target × ChainRead) → Action Findings
    unfolding examine
    examine_all [] = pure nothing_found
    examine_all ((t, r) ∷ rest) = do
      first ← examine t r
      others ← examine_all rest
      pure (both first others)

    unfoldable pub reconcile : List String → Action ReconciliationRun
    unfolding targets_of read_all examine_all save
    reconcile extra = do
      stamp ← get_now
      suffix ← random_uuid
      started ← get_now
      all ← find_all
      let targets = targets_of all extra
      reads ← read_all targets
      findings ← examine_all reads
      completed ← get_now
      let run : ReconciliationRun = record {
        run_id = "recon-" <> E.number_text stamp.ms <> "-" <> suffix;
        started_at = started.iso;
        completed_at = completed.iso;
        checked = length targets;
        drift_count = length findings.drifts;
        repaired_count = length (keep (λ d. d.repaired) findings.drifts);
        drifts = findings.drifts;
        error_count = length findings.errors;
        errors = findings.errors;
      }
      save run
      when_do (ltb 0 (length findings.drifts + length findings.errors))
          (send_webhook "escrow_reconciliation.drift_detected" (of_run run.run_id) none)
      pure run
