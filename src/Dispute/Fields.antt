-- ===== src/Dispute/Fields.antt =====
-- The bookkeeping of `DisputeSagaService` on a saga, field by field.
use trustflow_backend.Prelude.{String, ◌≡◌, refl, List, Bool-cases, inl, inr}
use trustflow_backend.Prelude.Total.{Yields}
use trustflow_backend.World.{Env}
use trustflow_backend.Data.Dispute.{DisputeSaga, DisputeStep, SagaStepRecord}
use trustflow_backend.Dispute.Saga.{
  touch, record_step_start, record_step_complete, record_step_failed, has_record, begin_step,
  update_record,
}

-- `t` agrees with `s` on what the steps of the saga are decided by.
pub record Agrees (s t : DisputeSaga) : Type 0 where
  pub saga_id : t.saga_id ≡ s.saga_id
  pub escrow_id : t.escrow_id ≡ s.escrow_id
  pub current_step : t.current_step ≡ s.current_step
  pub assigned_jurors : t.assigned_jurors ≡ s.assigned_jurors
  pub votes : t.votes ≡ s.votes
  pub verdict : t.verdict ≡ s.verdict
  pub payout_tx_hash : t.payout_tx_hash ≡ s.payout_tx_hash
  pub prior : t.prior_escrow_status ≡ s.prior_escrow_status

pub rewritten-Agrees :
    (s : DisputeSaga) (history : List SagaStepRecord) (updated : String)
    → Agrees s (record s { step_history = history; updated_at = updated })
rewritten-Agrees s history updated = record {
  saga_id = refl;
  escrow_id = refl;
  current_step = refl;
  assigned_jurors = refl;
  votes = refl;
  verdict = refl;
  payout_tx_hash = refl;
  prior = refl;
}

module _ ⦃E : Env⦄ (saga : DisputeSaga) where
  pub touch-Agrees : Yields (Agrees saga) (touch saga)
  touch-Agrees = record { at = λ w. (_, refl, rewritten-Agrees saga _ _) }

  pub record_step_start-Agrees :
      (step : DisputeStep) → Yields (Agrees saga) (record_step_start saga step)
  unfolding record_step_start begin_step
  record_step_start-Agrees step = record { at = λ w. (_, refl, rewritten-Agrees saga _ _) }

  pub record_step_complete-Agrees :
      (step : DisputeStep) → Yields (Agrees saga) (record_step_complete saga step)
  unfolding record_step_complete update_record
  record_step_complete-Agrees step = record {
    at = λ w. elim (Bool-cases (has_record saga step)) [
      | inl there ↦ rw there (_, refl, rewritten-Agrees saga _ _)
      | inr none ↦ rw none (saga, refl, rewritten-Agrees saga _ _)
    ];
  }

  pub record_step_failed-Agrees :
      (step : DisputeStep) (reason : String)
      → Yields (Agrees saga) (record_step_failed saga step reason)
  unfolding record_step_failed update_record
  record_step_failed-Agrees step reason = record {
    at = λ w. elim (Bool-cases (has_record saga step)) [
      | inl there ↦ rw there (_, refl, rewritten-Agrees saga _ _)
      | inr none ↦ rw none (saga, refl, rewritten-Agrees saga _ _)
    ];
  }
