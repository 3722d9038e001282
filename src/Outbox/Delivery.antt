-- ===== src/Outbox/Delivery.antt =====
-- The operations of `OutboxService` with no Redis client, on the whole state.
use trustflow_backend.Prelude.{
  ℕ, zero, suc, min, ◌+◌, ◌-◌, ◌≤◌, ◌<◌, String, ◌≡◌, none, some, List, [], ◌∷◌, true, false, arith,
  eq_iff, length, refl, All, Bool-cases, inl, inr, subst, sym, ◌∙◌,
}
use trustflow_backend.Prelude.Exec.{Error, ok, err, Result, when_else_off}
use trustflow_backend.Prelude.JsMap
use trustflow_backend.Prelude.JsMap.{JsMap, get-set_self}
use trustflow_backend.Prelude.JsSet
use trustflow_backend.Prelude.JsSet.{JsSet, has-delete}
use trustflow_backend.World.{Env, World}
use trustflow_backend.Data.Outbox.{OutboxEvent}
use trustflow_backend.Outbox.Queue.{
  append, claim_due, reclaim_expired, mark_delivered, retry, backoff_ms, gives_up, claim_memory,
}
use trustflow_backend.Outbox.Invariant.{
  IsSound, is_queued, is_open, enqueue-IsSound, settle-IsSound, append-IsSound, give_up-IsSound,
}
use trustflow_backend.Outbox.Claims.{
  Queued, claim_loop-IsSound, claim_loop-due, length-claim_loop-le, claim_loop-takes,
  reclaim_loop-IsSound, pending-claim_loop,
}

-- The queue of a process that has no Redis client, in a sound state.
pub record IsLocal ⦃E : Env⦄ (w : World E.Remote) : Type 0 where
  pub off : w.client ≡ false
  pub sound : IsSound w.memory w.pending w.processing

HasSelf : (p q : JsSet) (ids : List String) → Type 0
HasSelf p q ids = (id : String) → JsSet.has id ids ≡ true → is_queued id p q ≡ true

Queued-of_has : (p q : JsSet) (ids : List String) → HasSelf p q ids → Queued p q ids
unfolding HasSelf JsSet.has
Queued-of_has p q [] h = tt
Queued-of_has p q (id ∷ ids) h =
    (h id (ground (arith, eq_iff id id)), Queued-of_has p q ids (λ j k. h j (ground arith)))

pending-Queued : (p q : JsSet) → Queued p q p
unfolding HasSelf
pending-Queued p q = Queued-of_has p q p (λ id h. ground arith)

processing-Queued : (p q : JsSet) → Queued p q q
unfolding HasSelf
processing-Queued p q = Queued-of_has p q q (λ id h. ground arith)

module _ ⦃E : Env⦄ {w : World E.Remote} (v : IsLocal w) where
  append-IsLocal :
      (e : OutboxEvent)
      → JsMap.get e.id w.memory ≡ none
      → is_open e.status ≡ true
      → IsLocal (append e w).1
  unfolding append
  append-IsLocal e new o =
      subst (λ r. IsLocal r.1) (sym (when_else_off w.client _ _ w v.off))
        (record { off = v.off; sound = append-IsSound e v.sound new o })

  claim_due-IsLocal :
      (script : String) (now lease batch : ℕ) → IsLocal (claim_due script now lease batch w).1
  unfolding claim_due
  claim_due-IsLocal script now lease batch =
      subst (λ r. IsLocal r.1) (sym (when_else_off w.client _ _ w v.off))
        (record {
          off = v.off;
          sound =
              claim_loop-IsSound now w.memory batch w.pending _ v.sound
                (pending-Queued w.pending w.processing);
        })

  reclaim_expired-IsLocal :
      (script : String) (now batch : ℕ) → IsLocal (reclaim_expired script now batch w).1
  unfolding reclaim_expired
  reclaim_expired-IsLocal script now batch =
      subst (λ r. IsLocal r.1) (sym (when_else_off w.client _ _ w v.off))
        (record {
          off = v.off;
          sound =
              reclaim_loop-IsSound w.memory batch w.processing _ v.sound
                (processing-Queued w.pending w.processing);
        })

  mark_delivered-IsLocal : (e : OutboxEvent) → IsLocal (mark_delivered e w).1
  unfolding mark_delivered
  mark_delivered-IsLocal e =
      subst (λ r. IsLocal r.1) (sym (when_else_off w.client _ _ _ v.off))
        (record { off = v.off; sound = settle-IsSound _ v.sound refl })

  retry-IsLocal :
      (e : OutboxEvent) (x : Error) → JsSet.has e.id w.processing ≡ true → IsLocal (retry e x w).1
  unfolding retry
  retry-IsLocal e x at = elim (Bool-cases (gives_up e)) [
    | inl done ↦ rw done (
        subst (λ r. IsLocal r.1) (sym (when_else_off w.client _ _ w v.off))
          (record { off = v.off; sound = give_up-IsSound _ v.sound at refl }))
    | inr again ↦ rw again (
        subst (λ r. IsLocal r.1) (sym (when_else_off w.client _ _ _ v.off))
          (record { off = v.off; sound = enqueue-IsSound _ v.sound refl }))
  ]

  -- With no Redis client `claimDue` returns, with at most a batch of events, all of them due.
  pub claim_due_bounded :
      (script : String) (now lease batch : ℕ)
      → (events : List OutboxEvent) × (w' : World E.Remote) × (claim_due script now lease batch w
          ≡ (ok events, w'))
        × (length events ≤ batch)
        × All (λ e. e.next_attempt_at ≤ now) events
  unfolding claim_due
  claim_due_bounded script now lease batch = (
    (claim_memory now batch w).claimed,
    record w {
      pending = (claim_memory now batch w).pending;
      processing = (claim_memory now batch w).processing;
    },
    when_else_off w.client _ _ w v.off,
    length-claim_loop-le now w.memory batch w.pending _ (omega arith),
    claim_loop-due now w.memory batch w.pending _ tt,
  )

  abbrev Exhausts :
      ℕ → ℕ → String → OutboxEvent → Result (List OutboxEvent) × World E.Remote → Type 0
  Exhausts now batch id e (ok events, w') =
      length events < batch
      → JsMap.get id w'.memory ≡ some e
      → e.next_attempt_at ≤ now
      → JsSet.has id w'.pending ≡ false
  Exhausts now batch id e (err x, w') = Unit

  -- With no Redis client, if `claimDue` hands out fewer events than a batch, then no event that is
  -- due is left in the pending set.
  pub claim_due_exhausts :
      (script : String) (now lease batch : ℕ) (id : String) (e : OutboxEvent)
      {events : List OutboxEvent} {w' : World E.Remote}
      → claim_due script now lease batch w ≡ (ok events, w')
      → length events < batch
      → JsMap.get id w'.memory ≡ some e
      → e.next_attempt_at ≤ now
      → JsSet.has id w'.pending ≡ false
  unfolding claim_due
  claim_due_exhausts script now lease batch id e h =
      subst (Exhausts now batch id e) (sym (when_else_off w.client _ _ w v.off) ∙ h) λ l g d.
        elim (Bool-cases (JsSet.has id w.pending)) [
          | inl in_set ↦ claim_loop-takes now w.memory batch w.pending _ id e l in_set g d
          | inr out ↦ pending-claim_loop now w.memory batch w.pending _ id out
        ]

-- What the callers of the service do to the queue, one call after another. `retry` is called
-- with an event that was claimed and not yet settled.
pub data Step ⦃E : Env⦄ (w : World E.Remote) : World E.Remote → Type 0 where
  appended :
      (e : OutboxEvent)
      → JsMap.get e.id w.memory ≡ none
      → is_open e.status ≡ true
      → Step w (append e w).1
  claimed : (script : String) (now lease batch : ℕ) → Step w (claim_due script now lease batch w).1
  reclaimed : (script : String) (now batch : ℕ) → Step w (reclaim_expired script now batch w).1
  was_delivered : (e : OutboxEvent) → Step w (mark_delivered e w).1
  retried :
      (e : OutboxEvent) (x : Error) → JsSet.has e.id w.processing ≡ true → Step w (retry e x w).1

pub data Reach ⦃E : Env⦄ (w : World E.Remote) : World E.Remote → Type 0 where
  here : Reach w w
  next : {t u : World E.Remote} → Reach w t → Step t u → Reach w u

module _ ⦃E : Env⦄ where
  Step-IsLocal : {w u : World E.Remote} → IsLocal w → Step w u → IsLocal u
  Step-IsLocal v (appended e new o) = append-IsLocal v e new o
  Step-IsLocal v (claimed script now lease batch) = claim_due-IsLocal v script now lease batch
  Step-IsLocal v (reclaimed script now batch) = reclaim_expired-IsLocal v script now batch
  Step-IsLocal v (was_delivered e) = mark_delivered-IsLocal v e
  Step-IsLocal v (retried e x at) = retry-IsLocal v e x at

  -- With no Redis client, from a sound queue every sequence of appends of new open events, claims,
  -- reclaims, deliveries, and retries of events in processing leads to a sound queue: an event
  -- stands in exactly one of the pending and processing sets while its status is open, and in none
  -- once it is delivered or failed.
  pub Reach-IsLocal : {w u : World E.Remote} → IsLocal w → Reach w u → IsLocal u
  Reach-IsLocal v here = v
  Reach-IsLocal v (next r s) = Step-IsLocal (Reach-IsLocal v r) s

backoff_ms_cap : (n : ℕ) → 6 ≤ n → backoff_ms n ≡ 30000
unfolding backoff_ms
backoff_ms_cap n h = let e : min (n - 1) 5 ≡ 5 = omega arith in rw e refl

-- The delay before another attempt lies between one and thirty seconds, never falls as the
-- failures add up, and is thirty seconds from the sixth failure on.
pub backoff_ms_lem :
    (n : ℕ)
    → (1000 ≤ backoff_ms n)
      × (backoff_ms n ≤ 30000)
      × (backoff_ms n ≤ backoff_ms (suc n))
      × (backoff_ms (n + 6) ≡ 30000)
unfolding backoff_ms
backoff_ms_lem zero = omega (arith, backoff_ms_cap 6)
backoff_ms_lem (suc zero) = omega arith
backoff_ms_lem (suc (suc zero)) = omega arith
backoff_ms_lem (suc (suc (suc zero))) = omega arith
backoff_ms_lem (suc (suc (suc (suc zero)))) = omega arith
backoff_ms_lem (suc (suc (suc (suc (suc zero))))) = omega arith
backoff_ms_lem (suc (suc (suc (suc (suc (suc n)))))) =
    let m : ℕ = suc (suc (suc (suc (suc (suc n))))) in
    unfold backoff_ms in
    omega (
      arith,
      backoff_ms_cap m (omega arith),
      backoff_ms_cap (suc m) (omega arith),
      backoff_ms_cap (m + 6) (omega arith),
    )
