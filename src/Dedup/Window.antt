-- ===== src/Dedup/Window.antt =====
-- A broadcast is claimed once in its window, and the memory of claims is bounded.
use trustflow_backend.Prelude.{
  ℕ, suc, ◌+◌, ◌*◌, ◌<◌, ◌≤◌, ◌≡◌, refl, String, some, [], ◌∷◌, true, false, arith, keep, length,
  length-keep-le, ltb, str_eq, eq_iff, Bool-cases, inl, inr, ap, sym, subst, ◌∙◌,
}
use trustflow_backend.Prelude.Exec.{ok}
use trustflow_backend.Prelude.JsMap
use trustflow_backend.Prelude.JsMap.{JsMap, get-set_self}
use trustflow_backend.World.{Env, World}
use trustflow_backend.Dedup.Gateway.{
  evict_oldest, prune_local, remember, claim, local_max_entries, gateway_dedup_ttl_seconds,
}

length-evict_oldest : (limit : ℕ) (m : JsMap ℕ) → length (evict_oldest limit m) ≤ limit
unfolding evict_oldest
length-evict_oldest limit [] = ground arith
length-evict_oldest limit (e ∷ rest) = ground (arith, length-evict_oldest limit rest)

evict_oldest-fits : (limit : ℕ) (m : JsMap ℕ) → length m ≤ limit → evict_oldest limit m ≡ m
unfolding evict_oldest
evict_oldest-fits limit [] h = refl
evict_oldest-fits limit (e ∷ rest) h = ground (arith, h)

length-set : (k : String) (v : ℕ) (m : JsMap ℕ) → length (JsMap.set k v m) ≤ suc (length m)
unfolding JsMap.set
length-set k v [] = ground arith
length-set k v ((j, w) ∷ m) = ground (arith, length-set k v m)

-- What is remembered last stays while its time is not over.
get-keep :
    (k : String) (v now : ℕ) (m : JsMap ℕ)
    → JsMap.get k m ≡ some v
    → now < v
    → JsMap.get k (keep (λ e. ltb now e.1) m) ≡ some v
unfolding JsMap.get keep
get-keep k v now [] at live = cc
get-keep k v now ((j, w) ∷ m) at live = elim (Bool-cases (str_eq j k)) [
  | inl same ↦ ground (arith, same, at, live)
  | inr apart ↦ ground (arith, apart, at, live, eq_iff j k, get-keep k v now m)
]

length-remember : (k : String) (v : ℕ) (m : JsMap ℕ) → length (remember k v m) ≤ local_max_entries
unfolding remember
length-remember k v m =
    ground (arith, length-set k v (evict_oldest 999 m), length-evict_oldest 999 m)

get-remember : (k : String) (v : ℕ) (m : JsMap ℕ) → JsMap.get k (remember k v m) ≡ some v
unfolding remember
get-remember k v m = get-set_self k v (evict_oldest 999 m)

-- At the next claim, what was remembered last is found and live.
get-prune_local :
    (k : String) (v now : ℕ) (m : JsMap ℕ)
    → now < v
    → JsMap.get k (prune_local now (remember k v m)) ≡ some v
unfolding prune_local
get-prune_local k v now m live =
    let newest = remember k v m in
    let kept = keep (λ e. ltb now e.1) newest in
    let fits : length kept ≤ local_max_entries =
      ground (arith, length-keep-le (λ e. ltb now e.1) newest, length-remember k v m) in
    ap (JsMap.get k) (evict_oldest-fits local_max_entries kept fits)
    ∙ get-keep k v now newest (get-remember k v m) live

module _ ⦃E : Env⦄ where
  claimed :
      (event_id : String) (w : World E.Remote)
      → str_eq event_id "" ≡ false
      → (claim event_id w).0 ≡ ok true
      → ((claim event_id w).1.deliveries
          ≡ remember event_id
              ((E.clock w.ticks).ms + gateway_dedup_ttl_seconds * 1000)
              (prune_local (E.clock w.ticks).ms w.deliveries))
        × ((claim event_id w).1.ticks ≡ suc w.ticks)
  unfolding claim
  claimed event_id w named won = (ground (arith, named, won), ground (arith, named, won))

  found_again :
      (event_id : String) (w : World E.Remote) {expiry : ℕ}
      → str_eq event_id "" ≡ false
      → JsMap.get event_id (prune_local (E.clock w.ticks).ms w.deliveries) ≡ some expiry
      → (E.clock w.ticks).ms < expiry
      → (claim event_id w).0 ≡ ok false
  unfolding claim
  found_again event_id w named at live = ground (arith, named, at, live)

  -- Whatever Redis does, a claim of an event with an id that succeeded leaves at most 1000 claims in
  -- memory, and is followed by a refusal when the event is claimed again before 10 seconds are over.
  pub claim_again :
      (event_id : String) (w : World E.Remote)
      → str_eq event_id "" ≡ false
      → (claim event_id w).0 ≡ ok true
      → (E.clock (suc w.ticks)).ms < (E.clock w.ticks).ms + gateway_dedup_ttl_seconds * 1000
      → (length (claim event_id w).1.deliveries ≤ local_max_entries)
        × ((claim event_id (claim event_id w).1).0 ≡ ok false)
  claim_again event_id w named won within =
      let now = (E.clock w.ticks).ms in
      let until = now + gateway_dedup_ttl_seconds * 1000 in
      let before = prune_local now w.deliveries in
      let after = (claim event_id w).1 in
      let (stored, ticks) = claimed event_id w named won in
      let later : (E.clock after.ticks).ms < until =
        subst (λ n. (E.clock n).ms < until) (sym ticks) within in
      let live =
        ap (λ m. JsMap.get event_id (prune_local (E.clock after.ticks).ms m)) stored
        ∙ get-prune_local event_id until (E.clock after.ticks).ms before later in
      (
        subst (λ m. length m ≤ local_max_entries) (sym stored)
            (length-remember event_id until before),
        found_again event_id after named live later,
      )
