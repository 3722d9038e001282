-- ===== src/Dispute/Calm.antt =====
-- `DisputeSagaService` with no Redis client: its actions that do not touch the escrows.
use trustflow_backend.Prelude.{String, ◌≡◌, refl, Bool, true, false, ◌∙◌, sym, subst}
use trustflow_backend.Prelude.Exec.{
  Error, Result, ok, err, ◌>>=◌, ◌>>◌, pure, try_catch, when_else, resume, recover, when_else_off,
  modify,
}
use trustflow_backend.World.{Env, World, Action, get_now, random_uuid, call, Call, with_redis}
use trustflow_backend.Prelude.JsMap.{JsMap}
use trustflow_backend.Data.Escrow.{Escrow}
use trustflow_backend.Data.Outbox.{Payload, OutboxEvent}
use trustflow_backend.Data.Dispute.{DisputeSaga, DisputeStep}
use trustflow_backend.Outbox.Queue.{create, append, remember, send_webhook}
use trustflow_backend.Dispute.Saga.{
  mark_failed, record_step_start, record_step_failed, record_step_compensated,
}
use trustflow_backend.Dispute.Store.{Held, put_saga, persist_saga, dispatch}

module _ ⦃E : Env⦄ where
  -- The action returns, and leaves the client off and the escrows as they are.
  pub record IsCalm {A : Type 0} (m : Action A) : Type 0 where
    pub at :
        (w : World E.Remote)
        → w.client ≡ false
        → (a : A) × ((m w).0 ≡ ok a) × ((m w).1.client ≡ false) × ((m w).1.escrows ≡ w.escrows)

  module _ {A B : Type 0} where
    resume_calm :
        (r : Result A) (f : A → Action B) (w : World E.Remote) (a : A) (es : JsMap Escrow)
        → r ≡ ok a
        → w.client ≡ false
        → w.escrows ≡ es
        → ((a : A) → IsCalm (f a))
        → (b : B) × ((resume r f w).0 ≡ ok b)
          × ((resume r f w).1.client ≡ false)
          × ((resume r f w).1.escrows ≡ es)
    resume_calm (ok a) f w a' es e off same k =
        let (b, done, off', same') = (k a).at w off in (b, done, off', same' ∙ same)
    resume_calm (err x) f w a' es e off same k = cc

    pub IsCalm-bind :
        (m : Action A) (f : A → Action B) → IsCalm m → ((a : A) → IsCalm (f a)) → IsCalm (m >>= f)
    IsCalm-bind m f hm hf = record {
      at = λ w off.
          let (a, e, off', same) = hm.at w off in
          resume_calm (m w).0 f (m w).1 a w.escrows e off' same hf;
    }

  module _ {A : Type 0} where
    pub IsCalm-pure : (a : A) → IsCalm (pure a)
    IsCalm-pure a = record { at = λ w off. (a, refl, off, refl) }

    IsCalm-when_else : (b : Bool) (m n : Action A) → IsCalm m → IsCalm n → IsCalm (when_else b m n)
    IsCalm-when_else true m n hm hn = hm
    IsCalm-when_else false m n hm hn = hn

    -- Without a client only the local part runs.
    IsCalm-with_redis :
        (remote : Action A) (handle : Error → Action (Unit {0})) (local : Action A)
        → IsCalm local
        → IsCalm (with_redis remote handle local)
    IsCalm-with_redis remote handle local h = record {
      at = λ w off.
          subst (λ r. (a : A) × (r.0 ≡ ok a) × (r.1.client ≡ false) × (r.1.escrows ≡ w.escrows))
            (sym (when_else_off w.client (try_catch remote (λ e. handle e >> local)) local w off))
            (h.at w off);
    }

    recover_calm :
        (r : Result A) (h : Error → Action A) (w : World E.Remote) (a : A)
        → r ≡ ok a
        → recover r h w ≡ (ok a, w)
    recover_calm (ok b) h w a e = cc
    recover_calm (err x) h w a e = cc

    pub IsCalm-try_catch : (m : Action A) (h : Error → Action A) → IsCalm m → IsCalm (try_catch m h)
    IsCalm-try_catch m h k = record {
      at = λ w off.
          let (a, e, off', same) = k.at w off in
          subst (λ r. (b : A) × (r.0 ≡ ok b) × (r.1.client ≡ false) × (r.1.escrows ≡ w.escrows))
            (sym (recover_calm (m w).0 h (m w).1 a e)) (a, refl, off', same);
    }

  pub IsCalm-get_now : IsCalm get_now
  IsCalm-get_now = record { at = λ w off. (_, refl, off, refl) }

  IsCalm-random_uuid : IsCalm random_uuid
  IsCalm-random_uuid = record { at = λ w off. (_, refl, off, refl) }

  IsCalm-call : (c : Call) → IsCalm (call c)
  IsCalm-call c = record { at = λ w off. (_, refl, off, refl) }

  IsCalm-put_saga : (s : DisputeSaga) → IsCalm (modify (put_saga s))
  IsCalm-put_saga s = record { at = λ w off. (_, refl, off, refl) }

  IsCalm-remember : (e : OutboxEvent) → IsCalm (modify (remember e))
  IsCalm-remember e = record { at = λ w off. (_, refl, off, refl) }

  ruleset calm_rules = (
    IsCalm-bind, IsCalm-pure, IsCalm-when_else, IsCalm-with_redis, IsCalm-try_catch, IsCalm-get_now,
    IsCalm-random_uuid, IsCalm-call, IsCalm-put_saga, IsCalm-remember,
  )

  IsCalm-create : (a b c : String) (p : Payload) → IsCalm (create a b c p)
  unfolding create
  IsCalm-create a b c p = search calm_rules depth 12

  IsCalm-append : (e : OutboxEvent) → IsCalm (append e)
  unfolding append
  IsCalm-append e = record {
    at = λ w off.
        subst
          (λ r. (a : Unit {0}) × (r.0 ≡ ok a) × (r.1.client ≡ false) × (r.1.escrows ≡ w.escrows))
          (sym (when_else_off w.client _ (modify (remember e)) w off)) (tt, refl, off, refl);
  }

  pub IsCalm-dispatch : (event : String) (s : DisputeSaga) → IsCalm (dispatch event s)
  unfolding dispatch send_webhook
  IsCalm-dispatch event s = search (calm_rules, IsCalm-create, IsCalm-append) depth 8

  pub IsCalm-persist_saga : (h : Held) → IsCalm (persist_saga h)
  unfolding persist_saga
  IsCalm-persist_saga h = search calm_rules depth 8

  pub IsCalm-mark_failed : (s : DisputeSaga) (reason : String) → IsCalm (mark_failed s reason)
  unfolding mark_failed
  IsCalm-mark_failed s reason = search calm_rules depth 8

  pub IsCalm-record_step_start :
      (s : DisputeSaga) (step : DisputeStep) → IsCalm (record_step_start s step)
  unfolding record_step_start
  IsCalm-record_step_start s step = search calm_rules depth 8

  pub IsCalm-record_step_failed :
      (s : DisputeSaga) (step : DisputeStep) (reason : String)
      → IsCalm (record_step_failed s step reason)
  unfolding record_step_failed
  IsCalm-record_step_failed s step reason = search calm_rules depth 8

  pub IsCalm-record_step_compensated :
      (s : DisputeSaga) (step : DisputeStep) → IsCalm (record_step_compensated s step)
  unfolding record_step_compensated
  IsCalm-record_step_compensated s step = search calm_rules depth 8
