-- ===== src/Dedup/Release.antt =====
-- A notification that is claimed and released leaves no trace, with no Redis client.
use trustflow_backend.Prelude.{
  ℕ, suc, ◌+◌, ◌*◌, ◌≤◌, ◌≡◌, refl, String, none, [], ◌∷◌, true, false, arith, eq_iff, Bool-cases,
  inl, inr, str_eq,
}
use trustflow_backend.Prelude.Exec.{ok}
use trustflow_backend.Prelude.JsMap
use trustflow_backend.Prelude.JsMap.{JsMap, get-set_self}
use trustflow_backend.World.{Env, World}
use trustflow_backend.Dedup.Notifications.{claim_key, release_key, dedup_key_ttl_seconds}

delete-fresh : (k : String) (m : JsMap ℕ) → JsMap.get k m ≡ none → JsMap.delete k m ≡ m
unfolding JsMap.get JsMap.delete
delete-fresh k [] fresh = refl
delete-fresh k ((j, v) ∷ m) fresh = elim (Bool-cases (str_eq j k)) [
  | inl same ↦ ground (arith, same, fresh)
  | inr apart ↦ ground (arith, apart, fresh, delete-fresh k m)
]

delete-set :
    (k : String) (v : ℕ) (m : JsMap ℕ) → JsMap.get k m ≡ none → JsMap.delete k (JsMap.set k v m) ≡ m
unfolding JsMap.get JsMap.set JsMap.delete
delete-set k v [] fresh = ground (arith, eq_iff k k)
delete-set k v ((j, w) ∷ m) fresh = elim (Bool-cases (str_eq j k)) [
  | inl same ↦ ground (arith, same, fresh)
  | inr apart ↦ ground (arith, apart, fresh, delete-set k v m)
]

module _ ⦃E : Env⦄ where
  -- With no client, a key that is not held is claimed; a second claim within its 24 hours is refused; and
  -- a release after the claim gives the memory of the keys back as it was.
  pub release_key-claim_key :
      (key : String) (w : World E.Remote)
      → w.client ≡ false
      → JsMap.get key w.notified ≡ none
      → (E.clock (suc w.ticks)).ms ≤ (E.clock w.ticks).ms + dedup_key_ttl_seconds * 1000
      → ((claim_key key w).0 ≡ ok true)
        × ((claim_key key (claim_key key w).1).0 ≡ ok false)
        × ((release_key key (claim_key key w).1).1.notified ≡ w.notified)
  unfolding claim_key release_key
  release_key-claim_key key w off fresh within =
      let until = (E.clock w.ticks).ms + dedup_key_ttl_seconds * 1000 in
      let held = get-set_self key until w.notified in
      (
        ground (arith, off, fresh),
        ground (arith, off, fresh, within, held),
        ground (arith, off, fresh, delete-set key until w.notified),
      )
