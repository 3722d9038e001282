-- ===== src/Gig/Machine.antt =====
-- The changes of one gig with no Redis client.
use trustflow_backend.Prelude.{
  ℕ, zero, suc, ◌+◌, String, ◌<>◌, ◌≡◌, refl, sym, ap, subst, ◌∙◌, some, true, false, arith,
  Bool-cases, inl, inr,
}
use trustflow_backend.Prelude.Exec.{Error, Result, ok, err, conflict, plain}
use trustflow_backend.Prelude.JsMap
use trustflow_backend.Prelude.JsMap.{get-set, get-set_self}
use trustflow_backend.World.{Env, World, Action}
use trustflow_backend.Outbox.Queue as Outbox
use trustflow_backend.Data.Gig.{Gig}
use trustflow_backend.Gig.Store.{
  FoundGig, try_find_by_id, assign, persist_resolved, invalidate_search_cache,
}
use trustflow_backend.Gig.Lifecycle.{
  version_of, is_retryable, check_memory, attempt, mutate, resolve,
}

abbrev pub live_gig : Gig → FoundGig
live_gig g = record { gig = g; live = true }

module _ ⦃E : Env⦄ where
  -- The map holds `g` under its id, and there is no client.
  pub record HoldsGig (w : World E.Remote) (g : Gig) : Type 0 where
    pub off : w.client ≡ false
    pub at : JsMap.get g.id w.gigs ≡ some g

  -- The gig that an operation returned is the one of the map, with the next version.
  pub record IsNext (g g' : Gig) (w' : World E.Remote) : Type 0 where
    pub same_id : g'.id ≡ g.id
    pub next_version : g'.version ≡ version_of g + 1
    pub now : HoldsGig w' g'

  found_local :
      {w : World E.Remote} {g : Gig}
      → HoldsGig w g
      → try_find_by_id g.id w ≡ (ok (some (live_gig g)), w)
  unfolding try_find_by_id
  found_local {w} {g} h = ground (arith, h.off, h.at)

  check_next :
      {w' : World E.Remote} {g g' : Gig}
      → IsNext g g' w'
      → check_memory g.id (version_of g) w' ≡ (ok tt, w')
  unfolding check_memory
  check_next {w'} {g} {g'} next =
      let there : JsMap.get g.id w'.gigs ≡ some g' =
        ap (λ i. JsMap.get i w'.gigs) (sym next.same_id) ∙ next.now.at in
      let version = next.next_version in ground (arith, next.now.off, there, version)

  check_same :
      {w : World E.Remote} {g : Gig}
      → HoldsGig w g
      → check_memory g.id (version_of g) w ≡ (err (plain "In-memory transaction aborted"), w)
  unfolding check_memory
  check_same {w} {g} h = ground (arith, h.off, h.at)

  module _ {A : Type 0} (operation : FoundGig → Action A) where
    mutate_step :
        (n : ℕ) {w : World E.Remote} {g : Gig}
        → HoldsGig w g
        → mutate (suc n) g.id operation w
          ≡ attempt g.id operation (mutate n g.id operation) (some (live_gig g)) w
    unfolding mutate
    mutate_step n {w} {g} h = simp (h.off, found_local h)

    pub mutate_ok :
        (n : ℕ) {w w' : World E.Remote} {g g' : Gig} {a : A}
        → HoldsGig w g
        → operation (live_gig g) w ≡ (ok a, w')
        → IsNext g g' w'
        → mutate (suc n) g.id operation w ≡ (ok a, w')
    unfolding attempt
    mutate_ok n {w} {w'} {g} {g'} h run next = mutate_step n h ∙ rw (run, check_next next)

    pub mutate_err :
        (n : ℕ) {w : World E.Remote} {g : Gig} {e : Error}
        → HoldsGig w g
        → operation (live_gig g) w ≡ (err e, w)
        → is_retryable e ≡ false
        → mutate (suc n) g.id operation w ≡ (err e, w)
    unfolding attempt
    mutate_err n {w} {g} h run final = mutate_step n h ∙ simp (run, h.off, final)

    -- An operation that changes nothing does not pass the check of the version.
    pub mutate_stuck :
        (n : ℕ) {w : World E.Remote} {g : Gig} {a : A}
        → HoldsGig w g
        → operation (live_gig g) w ≡ (ok a, w)
        → mutate n g.id operation w ≡ (
          err (conflict ("Failed to modify gig " <> g.id <> " due to concurrent modifications")),
          w,
        )
    unfolding attempt mutate
    mutate_stuck zero h run = refl
    mutate_stuck (suc n) {w} {g} h run =
        mutate_step n h ∙ rw (run, check_same h) (simp (h.off, mutate_stuck n h run))

  -- What the last writes of an operation leave.
  abbrev pub Wrote : Gig → Gig → Result Gig × World E.Remote → Type 0
  Wrote g g' out = (out.0 ≡ ok g') × IsNext g g' out.1

  pub resolve_local :
      (g c : Gig) (kind : String) (w : World E.Remote)
      → w.client ≡ false
      → c.id ≡ g.id
      → Wrote g (record c { version = version_of g + 1 }) (resolve (live_gig g) c kind w)
  unfolding assign persist_resolved Outbox.create Outbox.append invalidate_search_cache
  resolve_local g c kind w off same =
      let c' = record c { version = version_of g + 1 } in
      let twice : JsMap.get c.id (JsMap.set c.id c' (JsMap.set c.id c' w.gigs)) ≡ some c' =
        get-set_self c.id c' (JsMap.set c.id c' w.gigs) in
      elim (Bool-cases E.has_outbox) [
        | inl with_outbox ↦ (
          ground (arith, off, with_outbox),
          record {
            same_id = same;
            next_version = refl;
            now = record {
              off = ground (arith, off, with_outbox);
              at = ground (arith, off, with_outbox, twice);
            };
          },
        )
        | inr without ↦ (
          ground (arith, off, without),
          record {
            same_id = same;
            next_version = refl;
            now = record {
              off = ground (arith, off, without);
              at = ground (arith, off, without, twice);
            };
          },
        )
      ]

  abbrev pub bumped : Gig → Gig → Gig
  bumped g c = record c { version = version_of g + 1 }

  -- An operation that comes to the writes of `resolve`, in the first attempt.
  pub mutate-resolve :
      (operation : FoundGig → Action Gig) (c : Gig) (kind : String) (later : World E.Remote)
      {w : World E.Remote} {g : Gig}
      → HoldsGig w g
      → later.client ≡ false
      → c.id ≡ g.id
      → operation (live_gig g) w ≡ resolve (live_gig g) c kind later
      → Wrote g (bumped g c) (mutate 3 g.id operation w)
  mutate-resolve operation c kind later {w} {g} h off same writes =
      let (returned, next) = resolve_local g c kind later off same in
      let out = resolve (live_gig g) c kind later in
      let all =
        mutate_ok operation 2 h (writes ∙ ap (λ (r : Result Gig). (r, out.1)) returned) next in
      (
        ap (λ r. r.0) all,
        subst (λ (r : Result Gig × World E.Remote). IsNext g (bumped g c) r.1) (sym all) next,
      )
