-- ===== src/Outbox/Claims.antt =====
-- The loops of `claimDue` and `reclaimExpired` over the in-memory queue.
use trustflow_backend.Prelude.{
  ℕ, ◌+◌, ◌≤◌, ◌<◌, String, ◌≡◌, Option, none, some, List, [], ◌∷◌, ◌++◌, true, false, arith,
  eq_iff, leb, length, refl, All, length-append, Bool-cases, inl, inr, ◌∙◌,
}
use trustflow_backend.Prelude.JsMap
use trustflow_backend.Prelude.JsMap.{JsMap}
use trustflow_backend.Prelude.JsSet
use trustflow_backend.Prelude.JsSet.{JsSet, has-add, has-delete}
use trustflow_backend.Data.Outbox.{OutboxEvent}
use trustflow_backend.Outbox.Queue.{
  Claims, claim_one, claim_loop, Reclaims, reclaim_one, reclaim_loop,
}
use trustflow_backend.Outbox.Invariant.{
  IsSound, is_queued, claim-IsSound, is_queued-claim, reclaim-IsSound, is_queued-reclaim,
}

-- All of `ids` stand in one of the sets.
abbrev pub Queued : JsSet → JsSet → List String → Type 0
Queued p q ids = All (λ id. is_queued id p q ≡ true) ids

pub All-map_lem :
    {A : Type 0} {P Q : A → Type 0} → ((a : A) → P a → Q a) → (xs : List A) → All P xs → All Q xs
All-map_lem f [] h = tt
All-map_lem f (x ∷ xs) h = (f x h.0, All-map_lem f xs h.1)

All-append_one :
    {A : Type 0} (P : A → Type 0) (xs : List A) (a : A) → All P xs → P a → All P (xs ++ a ∷ [])
All-append_one P [] a h p = (p, tt)
All-append_one P (x ∷ xs) a h p = (h.0, All-append_one P xs a h.1 p)

module _ (now : ℕ) (m : JsMap OutboxEvent) where
  abbrev Sound : Claims → Type 0
  Sound c = IsSound m c.pending c.processing

  claim_one-IsSound :
      (id : String) (o : Option OutboxEvent) (c : Claims)
      → Sound c
      → is_queued id c.pending c.processing ≡ true
      → Sound (claim_one now id o c)
  unfolding claim_one
  claim_one-IsSound id none c v at = v
  claim_one-IsSound id (some e) c v at = elim (Bool-cases (leb e.next_attempt_at now)) [
    | inl due ↦ rw due (claim-IsSound id v at)
    | inr early ↦ rw early v
  ]

  is_queued-claim_one :
      (id : String) (o : Option OutboxEvent) (c : Claims)
      → Sound c
      → is_queued id c.pending c.processing ≡ true
      → (j : String)
      → is_queued j (claim_one now id o c).pending (claim_one now id o c).processing
        ≡ is_queued j c.pending c.processing
  unfolding claim_one
  is_queued-claim_one id none c v at j = refl
  is_queued-claim_one id (some e) c v at j = elim (Bool-cases (leb e.next_attempt_at now)) [
    | inl due ↦ rw due (is_queued-claim id v at j)
    | inr early ↦ rw early refl
  ]

  pub claim_loop-IsSound :
      (batch : ℕ) (ids : List String) (c : Claims)
      → Sound c
      → Queued c.pending c.processing ids
      → Sound (claim_loop now batch m ids c)
  unfolding claim_loop
  claim_loop-IsSound batch [] c v h = v
  claim_loop-IsSound batch (id ∷ ids) c v h = elim (Bool-cases (leb batch (length c.claimed))) [
    | inl full ↦ rw full v
    | inr room ↦ rw room (
        claim_loop-IsSound batch ids (claim_one now id (JsMap.get id m) c)
          (claim_one-IsSound id (JsMap.get id m) c v h.0)
          (All-map_lem (λ j q. is_queued-claim_one id (JsMap.get id m) c v h.0 j ∙ q) ids h.1))
  ]

  -- What is claimed is due, and no more than a batch.
  claim_one-due :
      (id : String) (o : Option OutboxEvent) (c : Claims)
      → All (λ e. e.next_attempt_at ≤ now) c.claimed
      → All (λ e. e.next_attempt_at ≤ now) (claim_one now id o c).claimed
  unfolding claim_one
  claim_one-due id none c h = h
  claim_one-due id (some e) c h = elim (Bool-cases (leb e.next_attempt_at now)) [
    | inl due ↦ rw due (All-append_one _ c.claimed e h (ground arith))
    | inr early ↦ rw early h
  ]

  pub claim_loop-due :
      (batch : ℕ) (ids : List String) (c : Claims)
      → All (λ e. e.next_attempt_at ≤ now) c.claimed
      → All (λ e. e.next_attempt_at ≤ now) (claim_loop now batch m ids c).claimed
  unfolding claim_loop
  claim_loop-due batch [] c h = h
  claim_loop-due batch (id ∷ ids) c h = elim (Bool-cases (leb batch (length c.claimed))) [
    | inl full ↦ rw full h
    | inr room ↦ rw room (claim_loop-due batch ids _ (claim_one-due id (JsMap.get id m) c h))
  ]

  length-claim_one-le :
      (id : String) (o : Option OutboxEvent) (c : Claims)
      → length (claim_one now id o c).claimed ≤ length c.claimed + 1
  unfolding claim_one
  length-claim_one-le id none c = omega arith
  length-claim_one-le id (some e) c = ground (arith, length-append c.claimed (e ∷ []))

  pub length-claim_loop-le :
      (batch : ℕ) (ids : List String) (c : Claims)
      → length c.claimed ≤ batch
      → length (claim_loop now batch m ids c).claimed ≤ batch
  unfolding claim_loop
  length-claim_loop-le batch [] c h = h
  length-claim_loop-le batch (id ∷ ids) c h = ground (
    arith,
    length-claim_one-le id (JsMap.get id m) c,
    length-claim_loop-le batch ids (claim_one now id (JsMap.get id m) c),
  )

  -- A claim takes ids out of the pending set and puts none in.
  pending-claim_one :
      (id : String) (o : Option OutboxEvent) (c : Claims) (j : String)
      → JsSet.has j c.pending ≡ false
      → JsSet.has j (claim_one now id o c).pending ≡ false
  unfolding claim_one
  pending-claim_one id none c j h = h
  pending-claim_one id (some e) c j h = ground (arith, has-delete id j c.pending)

  pub pending-claim_loop :
      (batch : ℕ) (ids : List String) (c : Claims) (j : String)
      → JsSet.has j c.pending ≡ false
      → JsSet.has j (claim_loop now batch m ids c).pending ≡ false
  unfolding claim_loop
  pending-claim_loop batch [] c j h = h
  pending-claim_loop batch (id ∷ ids) c j h = ground (
    arith,
    pending-claim_one id (JsMap.get id m) c j,
    pending-claim_loop batch ids (claim_one now id (JsMap.get id m) c) j,
  )

  -- With room left, each due event of `ids` has been taken.
  claim_one-takes :
      (id : String) (e : OutboxEvent) (c : Claims)
      → e.next_attempt_at ≤ now
      → JsSet.has id (claim_one now id (some e) c).pending ≡ false
  unfolding claim_one
  claim_one-takes id e c h = ground (arith, has-delete id id c.pending, eq_iff id id)

  pub claim_loop-takes :
      (batch : ℕ) (ids : List String) (c : Claims) (j : String) (e : OutboxEvent)
      → length (claim_loop now batch m ids c).claimed < batch
      → JsSet.has j ids ≡ true
      → JsMap.get j m ≡ some e
      → e.next_attempt_at ≤ now
      → JsSet.has j (claim_loop now batch m ids c).pending ≡ false
  unfolding claim_loop JsSet.has
  claim_loop-takes batch [] c j e l h g d = cc
  claim_loop-takes batch (id ∷ ids) c j e l h g d = ground (
    arith,
    eq_iff id j,
    claim_one-takes j e c,
    pending-claim_loop batch ids (claim_one now id (JsMap.get id m) c) j,
    claim_loop-takes batch ids (claim_one now id (JsMap.get id m) c) j e,
  )

module _ (m : JsMap OutboxEvent) where
  pub reclaim_loop-IsSound :
      (batch : ℕ) (ids : List String) (c : Reclaims)
      → IsSound m c.pending c.processing
      → Queued c.pending c.processing ids
      → IsSound m (reclaim_loop batch ids c).pending (reclaim_loop batch ids c).processing
  unfolding reclaim_loop
  reclaim_loop-IsSound batch [] c v h = v
  reclaim_loop-IsSound batch (id ∷ ids) c v h = elim (Bool-cases (leb batch (length c.reclaimed))) [
    | inl full ↦ rw full v
    | inr room ↦ rw room (
        reclaim_loop-IsSound batch ids _ (reclaim-IsSound id v h.0)
          (All-map_lem (λ j q. is_queued-reclaim id v h.0 j ∙ q) ids h.1))
  ]

pub length-reclaim_loop-le :
    (batch : ℕ) (ids : List String) (c : Reclaims)
    → length c.reclaimed ≤ batch
    → length (reclaim_loop batch ids c).reclaimed ≤ batch
unfolding reclaim_loop
length-reclaim_loop-le batch [] c h = h
length-reclaim_loop-le batch (id ∷ ids) c h = ground (
  arith,
  length-append c.reclaimed (id ∷ []),
  length-reclaim_loop-le batch ids (reclaim_one id c),
)
