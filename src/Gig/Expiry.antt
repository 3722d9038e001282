-- ===== src/Gig/Expiry.antt =====
-- `GigExpiryWorkerService`: the sweep that expires open gigs whose deadline has passed.
use trustflow_backend.Prelude.{
  ℕ, ◌+◌, ◌-◌, ◌*◌, ◌/◌, String, Option, none, some, List, [], ◌∷◌, true, false, take, length, ltb,
}
use trustflow_backend.Prelude.Exec.{
  Result, pure, modify, try_catch, when_else, message, ◌>>=◌, ◌>>◌,
}
use trustflow_backend.Data.Gig.{Gig}
use trustflow_backend.World.{Env, Action, get_now, increment, call, counted, log_error}
use trustflow_backend.Lock.{try_acquire, release, renew_if_owned}
use trustflow_backend.Gig.Store.{find_expirable}
use trustflow_backend.Gig.Lifecycle.{expire}

abbrev pub lock_key : String
lock_key = "lock:gig-expiry-sweep"

-- Math.ceil(intervalMs * 1.5)
abbrev pub lock_ttl : ℕ → ℕ
lock_ttl interval_ms = (interval_ms * 3 + 1) / 2

-- The cap on the gigs of one sweep.
abbrev pub cap : Option ℕ → List Gig → List Gig
cap none gigs = gigs
cap (some n) gigs = elim (ltb n (length gigs)) [ true ↦ take n gigs | false ↦ gigs ]

module _ ⦃E : Env⦄ where
  -- mapWithConcurrency with one gig at a time, and countRejected of its results.
  unfoldable pub expire_all : List Gig → Action ℕ
  expire_all [] = pure 0
  expire_all (g ∷ gs) = do
    failed ← try_catch (do expire g.id; pure 0) (λ e. pure 1)
    rest ← expire_all gs
    pure (failed + rest)

  abbrev pub note_failures : ℕ → Action (Unit {0})
  note_failures failed =
      when_else (ltb 0 failed)
        (do
          call (log_error "sentry" "Gig expiry sweep: gigs failed")
          modify (λ w. record w { failed_batches = w.failed_batches + 1 }))
        (modify (λ w. record w { failed_batches = 0 }))

  unfoldable pub run_once : Action (Unit {0})
  unfolding expire_all
  run_once = do
    start ← get_now
    now ← get_now
    found ← find_expirable now.ms
    let expirable = cap E.gig_expiry_sweep_max_gigs found
    failed ← expire_all expirable
    stop ← get_now
    increment "gig_expiry_sweep_duration_ms"
    call (counted "gig_expiry_sweep_gigs_expired_total" (length expirable - failed))
    call (counted "gig_expiry_sweep_gigs_failed_total" failed)
    note_failures failed

  abbrev pub drop_lock : Action (Unit {0})
  drop_lock w = elim w.lock_token [
    | none ↦ pure tt w
    | some token ↦ (do release lock_key token; modify (λ v. record v { lock_token = none })) w
  ]

  -- The `finally` block of `tick`, which does not throw, after the sweep.
  abbrev pub finish : Result (Unit {0}) → Action (Unit {0})
  finish r = do modify (λ w. record w { sweeping = false }); drop_lock; λ w. (r, w)

  abbrev pub sweep_locked : Option String → Action (Unit {0})
  sweep_locked none = pure tt
  sweep_locked (some token) = do
    modify (λ w. record w { lock_token = some token; sweeping = true })
    λ w. finish (run_once w).0 (run_once w).1

  unfoldable pub tick : ℕ → Action (Unit {0})
  unfolding run_once
  tick interval_ms w =
      when_else w.sweeping (increment "gig_expiry_sweep_skipped_total")
        (do token ← try_acquire lock_key (lock_ttl interval_ms); sweep_locked token) w

  -- The callback that renews the lock while a sweep runs.
  unfoldable pub renew_lock : ℕ → Action (Unit {0})
  renew_lock interval_ms w = elim w.lock_token [
    | none ↦ pure tt w
    | some token ↦
        try_catch
          (do
            renewed ← renew_if_owned lock_key token (lock_ttl interval_ms)
            when_else renewed (pure tt) (modify (λ v. record v { lock_token = none })))
          (λ e. call (log_error "renew" (message e))) w
  ]

  abbrev pub on_module_destroy : Action (Unit {0})
  on_module_destroy = drop_lock
