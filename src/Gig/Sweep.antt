-- ===== src/Gig/Sweep.antt =====
-- What a tick of the expiry sweep leaves behind.
use trustflow_backend.Prelude.{
  ℕ, String, ◌≡◌, ◌∙◌, Option, none, some, true, false, arith, Bool-cases, Option-cases, inl, inr,
}
use trustflow_backend.Prelude.Exec.{Result, ok, err, resume}
use trustflow_backend.World.{Env, World}
use trustflow_backend.Lock.{try_acquire, release}
use trustflow_backend.Gig.Expiry.{tick, run_once, sweep_locked, finish, lock_key, lock_ttl}

module _ ⦃E : Env⦄ where
  release_keeps :
      (key token : String) (w : World E.Remote)
      → ((release key token w).0 ≡ ok tt) × ((release key token w).1.sweeping ≡ w.sweeping)
  unfolding release
  release_keeps key token w = ground arith

  acquire_keeps :
      (key : String) (ttl : ℕ) (w : World E.Remote)
      → (try_acquire key ttl w).1.sweeping ≡ w.sweeping
  unfolding try_acquire
  acquire_keeps key ttl w = ground arith

  finish_keeps :
      (r : Result (Unit {0})) (w : World E.Remote)
      → ((finish r w).1.sweeping ≡ false) × ((finish r w).1.lock_token ≡ none)
  finish_keeps r w = elim (Option-cases w.lock_token) [
    | inl free ↦ (ground (arith, free), ground (arith, free))
    | inr (token, taken) ↦
        let (returned, same) = release_keeps lock_key token (record w { sweeping = false }) in
        (ground (arith, taken, returned, same), ground (arith, taken, returned))
  ]

  sweep_locked_keeps :
      (token : Option String) (w : World E.Remote)
      → w.sweeping ≡ false
      → (sweep_locked token w).1.sweeping ≡ false
  sweep_locked_keeps none w idle = idle
  sweep_locked_keeps (some token) w idle =
      let started = record w { lock_token = some token; sweeping = true } in
      (finish_keeps (run_once started).0 (run_once started).1).0

  locked_keeps :
      (r : Result (Option String)) (w : World E.Remote)
      → w.sweeping ≡ false
      → (resume r sweep_locked w).1.sweeping ≡ false
  locked_keeps (ok token) w idle = sweep_locked_keeps token w idle
  locked_keeps (err e) w idle = idle

  -- After a tick, however Redis answered and whether the sweep threw, the flag of a running sweep is as
  -- it was before the tick: one that found it set leaves it, and one that did not has reset it.
  pub tick_unlocks :
      (interval_ms : ℕ) (w : World E.Remote) → (tick interval_ms w).1.sweeping ≡ w.sweeping
  unfolding tick
  tick_unlocks interval_ms w = elim (Bool-cases w.sweeping) [
    | inl busy ↦ ground (arith, busy)
    | inr idle ↦
        let token = try_acquire lock_key (lock_ttl interval_ms) w in
        let after =
          locked_keeps token.0 token.1 (acquire_keeps lock_key (lock_ttl interval_ms) w ∙ idle) in
        ground (arith, idle, after)
  ]
