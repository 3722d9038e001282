-- ===== src/Gig/Resolution.antt =====
-- Sequences of changes of one gig with no Redis client, and what ends them.
use trustflow_backend.Prelude.{
  ℕ, suc, ◌+◌, ◌≤◌, String, ◌<>◌, ◌≡◌, refl, sym, ap, subst, Option, none, some, Bool, true, false,
  arith, List, [], ◌∷◌, Bool-cases, Option-cases, inl, inr, if◌then◌else◌,
}
use trustflow_backend.Prelude.Exec.{Result, ok, err, conflict}
use trustflow_backend.Prelude.JsMap
use trustflow_backend.Prelude.JsMap.{get-set_self}
use trustflow_backend.World.{Env, World}
use trustflow_backend.Data.Gig.{
  Gig, GigStatus, same_status, open_gig, accepted, expired, cancelled, UpdateGigDto,
}
use trustflow_backend.Gig.Store.{assign, put, deadline, persist_gig, invalidate_search_cache}
use trustflow_backend.Gig.Lifecycle.{
  is_retryable, is_open, refusal, updated, new_deadline, max_retries, resolve, accepting, accept,
  cancelling, cancel, updating, update, expiring, expire,
}
use trustflow_backend.Gig.Machine.{
  live_gig, HoldsGig, IsNext, mutate_ok, mutate_err, mutate_stuck, resolve_local, mutate-resolve,
  bumped,
}

-- The calls that change a gig; the last is the one of the expiry sweep.
pub data Change : Type 0 where
  to_accept : String → Change
  to_cancel : Change
  to_update : UpdateGigDto → Change
  to_expire : Change

abbrev verb_of : Change → String
verb_of (to_accept r) = "accept"
verb_of to_cancel = "cancel"
verb_of (to_update dto) = "update"
verb_of to_expire = "expire"

refusal_final : (c : Change) (s : GigStatus) → is_retryable (refusal (verb_of c) s) ≡ false
refusal_final (to_accept r) open_gig = refl
refusal_final (to_accept r) accepted = refl
refusal_final (to_accept r) expired = refl
refusal_final (to_accept r) cancelled = refl
refusal_final to_cancel open_gig = refl
refusal_final to_cancel accepted = refl
refusal_final to_cancel expired = refl
refusal_final to_cancel cancelled = refl
refusal_final (to_update d) open_gig = refl
refusal_final (to_update d) accepted = refl
refusal_final (to_update d) expired = refl
refusal_final (to_update d) cancelled = refl
refusal_final to_expire open_gig = refl
refusal_final to_expire accepted = refl
refusal_final to_expire expired = refl
refusal_final to_expire cancelled = refl

module _ ⦃E : Env⦄ where
  -- Whether a call took the gig out of its open status.
  abbrev pub took : Result Gig → Bool
  took (ok g) = true
  took (err e) = false

  abbrev pub took_some : Result (Option Gig) → Bool
  took_some (ok (some g)) = true
  took_some _ = false

  abbrev pub run_change : Change → String → World E.Remote → Bool × World E.Remote
  run_change (to_accept responder) id w =
      (took (accept id responder w).0, (accept id responder w).1)
  run_change to_cancel id w = (took (cancel id w).0, (cancel id w).1)
  run_change (to_update dto) id w = (false, (update id dto w).1)
  run_change to_expire id w = (took_some (expire id w).0, (expire id w).1)

  accept_closed :
      {w : World E.Remote} {g : Gig} (responder : String)
      → HoldsGig w g
      → is_open g ≡ false
      → accept g.id responder w ≡ (err (refusal "accept" g.status), w)
  unfolding accept accepting
  accept_closed {w} {g} responder h closed =
      mutate_err (accepting responder) 2 {w = w} {g = g} {e = refusal "accept" g.status} h
        (rw closed refl) (refusal_final (to_accept responder) g.status)

  cancel_closed :
      {w : World E.Remote} {g : Gig}
      → HoldsGig w g
      → is_open g ≡ false
      → cancel g.id w ≡ (err (refusal "cancel" g.status), w)
  unfolding cancel cancelling
  cancel_closed {w} {g} h closed =
      mutate_err cancelling 2 {w = w} {g = g} {e = refusal "cancel" g.status} h (rw closed refl)
        (refusal_final to_cancel g.status)

  update_closed :
      {w : World E.Remote} {g : Gig} (dto : UpdateGigDto)
      → HoldsGig w g
      → is_open g ≡ false
      → update g.id dto w ≡ (err (refusal "update" g.status), w)
  unfolding update updating
  update_closed {w} {g} dto h closed =
      mutate_err (updating dto) 2 {w = w} {g = g} {e = refusal "update" g.status} h (rw closed refl)
        (refusal_final (to_update dto) g.status)

  -- With no client, the sweep that comes to a gig which is no longer open throws a conflict, after three
  -- attempts, and changes nothing.
  pub expire_closed :
      {w : World E.Remote} {g : Gig}
      → HoldsGig w g
      → is_open g ≡ false
      → expire g.id w ≡ (
        err (conflict ("Failed to modify gig " <> g.id <> " due to concurrent modifications")),
        w,
      )
  unfolding expire expiring
  expire_closed {w} {g} h closed =
      mutate_stuck expiring max_retries {w = w} {g = g} {a = none} h (rw closed refl)

  -- With no client, an open gig is accepted: the call returns it with the responder, its new status and
  -- the next version, and the map holds the same.
  pub accept_open :
      {w : World E.Remote} {g : Gig} (responder : String)
      → HoldsGig w g
      → is_open g ≡ true
      → (g' : Gig) × ((accept g.id responder w).0 ≡ ok g')
        × (g'.status ≡ accepted)
        × (g'.accepted_by ≡ some responder)
        × IsNext g g' (accept g.id responder w).1
  unfolding accept accepting
  accept_open {w} {g} responder h still =
      let c = record g {
        status = accepted;
        accepted_by = some responder;
        accepted_at = some (E.clock w.ticks).iso;
      } in
      let (returned, next) =
        mutate-resolve (accepting responder) c "gig.accepted" (record w { ticks = suc w.ticks }) h
          h.off refl (rw still refl) in
      (bumped g c, returned, refl, refl, next)

  cancel_open :
      {w : World E.Remote} {g : Gig}
      → HoldsGig w g
      → is_open g ≡ true
      → (g' : Gig) × (is_open g' ≡ false) × IsNext g g' (cancel g.id w).1
  unfolding cancel cancelling
  cancel_open {w} {g} h still =
      let c = record g { status = cancelled; cancelled_at = some (E.clock w.ticks).iso } in
      let (returned, next) =
        mutate-resolve cancelling c "gig.cancelled" (record w { ticks = suc w.ticks }) h h.off refl
          (rw still refl) in
      (bumped g c, refl, next)

  expire_open :
      {w : World E.Remote} {g : Gig}
      → HoldsGig w g
      → is_open g ≡ true
      → (g' : Gig) × (is_open g' ≡ false) × IsNext g g' (expire g.id w).1
  unfolding expire expiring
  expire_open {w} {g} h still =
      let c = record g { status = expired; expired_at = some (E.clock w.ticks).iso } in
      let later = record w { ticks = suc w.ticks } in
      let (returned, next) = resolve_local g c "gig.expired" later h.off refl in
      let out = resolve (live_gig g) c "gig.expired" later in
      let run : expiring (live_gig g) w ≡ (ok (some (bumped g c)), out.1) =
        rw (still, returned) refl in
      let all = mutate_ok expiring 2 h run next in
      (
        bumped g c,
        refl,
        subst (λ (r : Result (Option Gig) × World E.Remote). IsNext g (bumped g c) r.1) (sym all)
            next,
      )

  update_at :
      {w : World E.Remote} {g : Gig} (dto : UpdateGigDto) (respond_by : String)
      (later : World E.Remote)
      → HoldsGig w g
      → is_open g ≡ true
      → new_deadline dto.response_window_hours g w ≡ (ok respond_by, later)
      → later.client ≡ false
      → IsNext g (updated dto respond_by g) (update g.id dto w).1
  unfolding update updating assign persist_gig invalidate_search_cache
  update_at {w} {g} dto respond_by later h still deadline off =
      let c = updated dto respond_by g in
      let w' = put c (put c later) in
      let run : updating dto (live_gig g) w ≡ (ok c, w') = rw (still, deadline) (simp off) in
      let next : IsNext g c w' = record {
        same_id = refl;
        next_version = refl;
        now = record { off = off; at = get-set_self c.id c (JsMap.set c.id c later.gigs) };
      } in
      subst (λ (r : Result Gig × World E.Remote). IsNext g c r.1)
        (sym (mutate_ok (updating dto) 2 h run next)) next

  update_open :
      {w : World E.Remote} {g : Gig} (dto : UpdateGigDto)
      → HoldsGig w g
      → is_open g ≡ true
      → (g' : Gig) × (is_open g' ≡ true) × IsNext g g' (update g.id dto w).1
  update_open {w} {g} dto h still = elim (Option-cases dto.response_window_hours) [
    | inl keeps ↦ (
      updated dto g.respond_by g,
      still,
      update_at dto g.respond_by w h still (rw keeps refl) h.off,
    )
    | inr (hours, moves) ↦
        let respond_by = deadline (E.clock w.ticks).ms hours in
        (
          updated dto respond_by g,
          still,
          update_at dto respond_by (record w { ticks = suc w.ticks }) h still (rw moves refl) h.off,
        )
  ]

  -- One call on an open gig: the gig moves on by one version, and is closed if the call took it.
  abbrev Stepped : Change → World E.Remote → Gig → Type 0
  Stepped m w g =
      (g' : Gig) × IsNext g g' (run_change m g.id w).1
      × (((run_change m g.id w).0 ≡ true → is_open g' ≡ false))

  step :
      (m : Change) {w : World E.Remote} {g : Gig} → HoldsGig w g → is_open g ≡ true → Stepped m w g
  step (to_accept r) h still =
      let (g', returned, status, by, next) = accept_open r h still in
      (g', next, λ _. ap (λ s. same_status s open_gig) status)
  step to_cancel h still = let (g', closed, next) = cancel_open h still in (g', next, λ _. closed)
  step to_expire h still = let (g', closed, next) = expire_open h still in (g', next, λ _. closed)
  step (to_update dto) h still =
      let (g', left, next) = update_open dto h still in (g', next, λ taken. cc)

  run_closed :
      (m : Change) {w : World E.Remote} {g : Gig}
      → HoldsGig w g
      → is_open g ≡ false
      → run_change m g.id w ≡ (false, w)
  run_closed (to_accept r) h closed = rw (accept_closed r h closed) refl
  run_closed to_cancel h closed = rw (cancel_closed h closed) refl
  run_closed (to_update dto) h closed = rw (update_closed dto h closed) refl
  run_closed to_expire h closed = rw (expire_closed h closed) refl

  -- Runs calls on one gig and counts those that took it out of its open status.
  unfoldable pub run_changes : List Change → String → World E.Remote → ℕ × World E.Remote
  run_changes [] id w = (0, w)
  run_changes (m ∷ ms) id w =
      let (b, w') = run_change m id w in
      let (n, w'') = run_changes ms id w' in ((if b then 1 else 0) + n, w'')

  pub closed_final :
      (ms : List Change) {w : World E.Remote} {g : Gig}
      → HoldsGig w g
      → is_open g ≡ false
      → run_changes ms g.id w ≡ (0, w)
  unfolding run_changes
  closed_final [] h closed = refl
  closed_final (m ∷ ms) h closed = rw (run_closed m h closed, closed_final ms h closed) refl

  -- With no client, however often a gig is accepted, cancelled, updated and expired, in any order, at
  -- most one of these calls takes it out of its open status.
  pub resolved_once :
      (ms : List Change) {w : World E.Remote} {g : Gig}
      → HoldsGig w g
      → (run_changes ms g.id w).0 ≤ 1
  unfolding run_changes
  resolved_once [] h = omega arith
  resolved_once (m ∷ ms) {w} {g} h = elim (Bool-cases (is_open g)) [
    | inr closed ↦ rw (run_closed m h closed, closed_final ms h closed) (omega arith)
    | inl still ↦
        let (g', next, closes) = step m h still in
        let w' = (run_change m g.id w).1 in
        elim (Bool-cases (run_change m g.id w).0) [
          | inl taken ↦
              let rest : (run_changes ms g.id w').0 ≡ 0 =
                subst (λ id. (run_changes ms id w').0 ≡ 0) next.same_id
                  (ap (λ r. r.0) (closed_final ms next.now (closes taken))) in
              rw (taken, rest) (omega arith)
          | inr left ↦
              let rest : (run_changes ms g.id w').0 ≤ 1 =
                subst (λ id. (run_changes ms id w').0 ≤ 1) next.same_id
                  (resolved_once ms next.now) in
              rw left (omega (arith, rest))
        ]
  ]
