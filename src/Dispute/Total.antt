-- ===== src/Dispute/Total.antt =====
-- Termination without an exception, for the persistence and the notifications of
-- `DisputeSagaService`.
use trustflow_backend.Prelude.{String, refl, Option, none}
use trustflow_backend.Prelude.Exec.{Error}
use trustflow_backend.Prelude.Total.{
  IsTotal, IsTotal-pure, IsTotal-gets, IsTotal-modify, IsTotal-when_else, IsTotal-try_catch,
  IsTotal-bind, total_rules,
}
use trustflow_backend.World.{Env, Action, get_now, random_uuid, increment, call, Call, with_redis}
use trustflow_backend.Outbox.Queue as Outbox
use trustflow_backend.Data.Outbox.{Payload}
use trustflow_backend.Data.Dispute.{DisputeSaga, DisputeStep}
use trustflow_backend.Escrow.Store as Escrow
use trustflow_backend.Dispute.Saga.{
  touch, mark_failed, record_step_start, record_step_complete, record_step_failed,
  record_step_compensated,
}
use trustflow_backend.Dispute.Store.{
  Held, try_find_by_id, find_by_escrow_id, create_saga, persist_saga, dispatch,
}

module _ ⦃E : Env⦄ where
  pub IsTotal-get_now : IsTotal get_now
  IsTotal-get_now = record { at = λ w. (_, refl) }

  pub IsTotal-random_uuid : IsTotal random_uuid
  IsTotal-random_uuid = record { at = λ w. (_, refl) }

  pub IsTotal-increment : (name : String) → IsTotal (increment name)
  IsTotal-increment name = record { at = λ w. (_, refl) }

  pub IsTotal-call : (c : Call) → IsTotal (call c)
  IsTotal-call c = record { at = λ w. (_, refl) }

  pub IsTotal-with_redis :
      {A : Type 0} (remote : Action A) (handle : Error → Action (Unit {0})) (local : Action A)
      → ((e : Error) → IsTotal (handle e))
      → IsTotal local
      → IsTotal (with_redis remote handle local)
  IsTotal-with_redis remote handle local hh hl = record {
    at = λ w.
        (IsTotal-when_else w.client _ local
            (IsTotal-try_catch remote _ (λ e. IsTotal-bind (handle e) _ (hh e) (λ _. hl))) hl).at
          w;
  }

  ruleset world_total = (
    total_rules, IsTotal-get_now, IsTotal-random_uuid, IsTotal-increment, IsTotal-call,
    IsTotal-with_redis,
  )

  IsTotal-create : (a b c : String) (p : Payload) → IsTotal (Outbox.create a b c p)
  unfolding Outbox.create
  IsTotal-create a b c p = search world_total depth 12

  pub IsTotal-send_webhook :
      (kind : String) (p : Payload) (k : Option String) → IsTotal (Outbox.send_webhook kind p k)
  unfolding Outbox.send_webhook
  IsTotal-send_webhook kind p k = search (world_total, IsTotal-create) depth 8

  -- Finding an escrow or a saga never throws, whatever Redis does.
  pub IsTotal-find_escrow : (id : String) → IsTotal (Escrow.find_by_id id)
  unfolding Escrow.find_by_id
  IsTotal-find_escrow id = search world_total depth 8

  pub IsTotal-try_find_by_id : (id : String) → IsTotal (try_find_by_id id)
  unfolding try_find_by_id
  IsTotal-try_find_by_id id = search world_total depth 8

  pub IsTotal-find_by_escrow_id : (id : String) → IsTotal (find_by_escrow_id id)
  unfolding find_by_escrow_id
  IsTotal-find_by_escrow_id id = search world_total depth 8

  pub IsTotal-create_saga : (s : DisputeSaga) → IsTotal (create_saga s)
  unfolding create_saga
  IsTotal-create_saga s = search world_total depth 8

  pub IsTotal-persist_saga : (h : Held) → IsTotal (persist_saga h)
  unfolding persist_saga
  IsTotal-persist_saga h = search world_total depth 8

  pub IsTotal-dispatch : (event : String) (s : DisputeSaga) → IsTotal (dispatch event s)
  unfolding dispatch
  IsTotal-dispatch event s = IsTotal-send_webhook event _ none

  pub IsTotal-touch : (s : DisputeSaga) → IsTotal (touch s)
  IsTotal-touch s = search world_total depth 8

  pub IsTotal-mark_failed : (s : DisputeSaga) (reason : String) → IsTotal (mark_failed s reason)
  unfolding mark_failed
  IsTotal-mark_failed s reason = search world_total depth 8

  pub IsTotal-record_step_start :
      (s : DisputeSaga) (step : DisputeStep) → IsTotal (record_step_start s step)
  unfolding record_step_start
  IsTotal-record_step_start s step = search world_total depth 8

  pub IsTotal-record_step_complete :
      (s : DisputeSaga) (step : DisputeStep) → IsTotal (record_step_complete s step)
  unfolding record_step_complete
  IsTotal-record_step_complete s step = search world_total depth 8

  pub IsTotal-record_step_failed :
      (s : DisputeSaga) (step : DisputeStep) (reason : String)
      → IsTotal (record_step_failed s step reason)
  unfolding record_step_failed
  IsTotal-record_step_failed s step reason = search world_total depth 8

  pub IsTotal-record_step_compensated :
      (s : DisputeSaga) (step : DisputeStep) → IsTotal (record_step_compensated s step)
  unfolding record_step_compensated
  IsTotal-record_step_compensated s step = search world_total depth 8

  pub ruleset saga_total = (
    total_rules, IsTotal-get_now, IsTotal-random_uuid, IsTotal-call, IsTotal-find_escrow,
    IsTotal-try_find_by_id, IsTotal-find_by_escrow_id, IsTotal-create_saga, IsTotal-persist_saga,
    IsTotal-dispatch, IsTotal-touch, IsTotal-mark_failed, IsTotal-record_step_start,
    IsTotal-record_step_complete, IsTotal-record_step_failed, IsTotal-record_step_compensated,
  )
