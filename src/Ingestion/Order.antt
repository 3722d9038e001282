-- ===== src/Ingestion/Order.antt =====
-- The order in which the events of one escrow are processed, however the groups of a batch interleave.
use trustflow_backend.Prelude.{
  ℕ, ◌≤◌, String, ◌≡◌, refl, sym, ap, ◌∙◌, subst, none, some, List, [], ◌∷◌, ◌++◌, Bool, true,
  false, ◌&&◌, All, length, keep, insert_by, sort_by, if-both, append-nil, append_assoc, arith,
  str_eq, eq_iff, if◌then◌else◌, Bool-cases, Option-cases, inl, inr,
}
use trustflow_backend.Prelude.JsMap
use trustflow_backend.Prelude.JsMap.{JsMap, get-set}
use trustflow_backend.World.{Env}
use trustflow_backend.Data.Ingestion.{SorobanEvent}
use trustflow_backend.Ingestion.Batch.{
  key_of, bucket_of, Batch, place, group, sort, comes_after, batch_of,
}

-- An order in which the events of the groups may start, each group one event after another.
pub data Schedule : JsMap (List SorobanEvent) → List SorobanEvent → Type 0 where
  finished :
      {groups : JsMap (List SorobanEvent)}
      → ((key : String) → bucket_of (JsMap.get key groups) ≡ [])
      → Schedule groups []
  turn :
      {groups : JsMap (List SorobanEvent)} {events : List SorobanEvent} (key : String)
      (event : SorobanEvent) (rest : List SorobanEvent)
      → JsMap.get key groups ≡ some (event ∷ rest)
      → Schedule (JsMap.set key rest groups) events
      → Schedule groups (event ∷ events)

abbrev pub has_key : String → SorobanEvent → Bool
has_key key event = elim (key_of event) [ none ↦ false | some k ↦ str_eq k key ]

abbrev pub IsGrouped : JsMap (List SorobanEvent) → Type 0
IsGrouped groups =
    (key : String) → All (λ e. key_of e ≡ some key) (bucket_of (JsMap.get key groups))

-- The ledgers of the events do not decrease.
abbrev pub IsAscending : List SorobanEvent → Type 0
IsAscending [] = Unit
IsAscending (x ∷ xs) = All (λ (y : SorobanEvent). x.ledger ≤ y.ledger) xs × IsAscending xs

rest_IsGrouped :
    (groups : JsMap (List SorobanEvent)) (key : String) (event : SorobanEvent)
    (rest : List SorobanEvent)
    → JsMap.get key groups ≡ some (event ∷ rest)
    → IsGrouped groups
    → IsGrouped (JsMap.set key rest groups)
rest_IsGrouped groups key event rest g h j = elim (Bool-cases (str_eq key j)) [
  | inl same ↦
      let before : JsMap.get j groups ≡ some (event ∷ rest) =
        ground (arith, same, g, eq_iff key j) in
      let now : JsMap.get j (JsMap.set key rest groups) ≡ some rest =
        ground (arith, same, get-set key j rest groups) in
      subst (λ o. All (λ e. key_of e ≡ some j) (bucket_of o)) (sym now)
        (subst (λ o. All (λ e. key_of e ≡ some j) (bucket_of o)) before (h j)).1
  | inr other ↦
      let now : JsMap.get j (JsMap.set key rest groups) ≡ JsMap.get j groups =
        ground (arith, other, get-set key j rest groups) in
      subst (λ o. All (λ e. key_of e ≡ some j) (bucket_of o)) (sym now) (h j)
]

Schedule-order :
    (groups : JsMap (List SorobanEvent)) {events : List SorobanEvent} (key : String)
    → IsGrouped groups
    → Schedule groups events
    → keep (has_key key) events ≡ bucket_of (JsMap.get key groups)
unfolding keep
Schedule-order groups key h (finished empty) = sym (empty key)
Schedule-order groups key h (turn {events = es} k e rest g next) =
    let ih =
      Schedule-order (JsMap.set k rest groups) key (rest_IsGrouped groups k e rest g h) next in
    let own : key_of e ≡ some k =
      (subst (λ o. All (λ e'. key_of e' ≡ some k) (bucket_of o)) g (h k)).0 in
    ground (arith, own, ih, g, get-set k key rest groups, eq_iff k key)

All-weaken :
    {m n : ℕ}
    → m ≤ n
    → (xs : List SorobanEvent) → All (λ (y : SorobanEvent). n ≤ y.ledger) xs
    → All (λ (y : SorobanEvent). m ≤ y.ledger) xs
All-weaken le [] h = tt
All-weaken le (x ∷ xs) h = (omega (arith, h.0), All-weaken le xs h.1)

module _ ⦃E : Env⦄ where
  insert-All :
      (P : SorobanEvent → Type 0) (x : SorobanEvent) (xs : List SorobanEvent)
      → P x
      → All P xs
      → All P (insert_by comes_after x xs)
  unfolding insert_by
  insert-All P x [] p h = (p, tt)
  insert-All P x (y ∷ ys) p h =
      if-both (All P) (comes_after x y) (λ _. (h.0, insert-All P x ys p h.1)) (λ _. (p, h))

  insert-IsAscending :
      (x : SorobanEvent) (xs : List SorobanEvent)
      → IsAscending xs
      → IsAscending (insert_by comes_after x xs)
  unfolding insert_by
  insert-IsAscending x [] h = (tt, tt)
  insert-IsAscending x (y ∷ ys) h =
      if-both IsAscending (comes_after x y)
        (λ after. (
          insert-All (λ z. y.ledger ≤ z.ledger) x ys (ground (arith, after)) h.0,
          insert-IsAscending x ys h.1,
        ))
        (λ before.
          let le : x.ledger ≤ y.ledger = ground (arith, before) in ((le, All-weaken le ys h.0), h))

  sort-IsAscending : (xs : List SorobanEvent) → IsAscending (sort xs)
  unfolding sort sort_by
  sort-IsAscending [] = tt
  sort-IsAscending (x ∷ xs) = insert-IsAscending x (sort xs) (sort-IsAscending xs)

  insert-count :
      (p : SorobanEvent → Bool) (x : SorobanEvent) (xs : List SorobanEvent)
      → length (keep p (insert_by comes_after x xs)) ≡ length (keep p (x ∷ xs))
  unfolding insert_by keep
  insert-count p x [] = refl
  insert-count p x (y ∷ ys) = ground (arith, insert-count p x ys)

  sort-count :
      (p : SorobanEvent → Bool) (xs : List SorobanEvent)
      → length (keep p (sort xs)) ≡ length (keep p xs)
  unfolding sort sort_by keep
  sort-count p [] = refl
  sort-count p (x ∷ xs) = ground (arith, insert-count p x (sort xs), sort-count p xs)

-- An event put into the bucket of `k`, seen from `key`.
at_key :
    (b : Batch) (event : SorobanEvent) (key : String) (same : Bool) (k : String)
    → has_key key event ≡ same
    → (same ≡ true → k ≡ key)
    → bucket_of (
        if same
        then some (bucket_of (JsMap.get k b.keyed) ++ event ∷ [])
        else JsMap.get key b.keyed)
      ≡ bucket_of (JsMap.get key b.keyed) ++ keep (has_key key) (event ∷ [])
unfolding keep
at_key b event key true k own here = let it = here refl in rw (own, it)
at_key b event key false k own here = rw (own, append-nil (bucket_of (JsMap.get key b.keyed)))

place-keyed :
    (b : Batch) (event : SorobanEvent) (key : String)
    → bucket_of (JsMap.get key (place (key_of event) event b).keyed)
      ≡ bucket_of (JsMap.get key b.keyed) ++ keep (has_key key) (event ∷ [])
unfolding keep
place-keyed b event key = elim (Option-cases (key_of event)) [
  | inl bare ↦ ground (arith, bare, append-nil (bucket_of (JsMap.get key b.keyed)))
  | inr (k, own) ↦
      let pushed = bucket_of (JsMap.get k b.keyed) ++ event ∷ [] in
      let placed : place (key_of event) event b ≡ record b { keyed = JsMap.set k pushed b.keyed } =
        ap (λ o. place o event b) own in
      let own_key : has_key key event ≡ str_eq k key = ground (arith, own) in
      ap (λ c. bucket_of (JsMap.get key c.keyed)) placed
      ∙ ap bucket_of (get-set k key pushed b.keyed)
      ∙ at_key b event key (str_eq k key) k own_key (λ same. ground (arith, same, eq_iff k key))
]

group-keyed :
    (events : List SorobanEvent) (b : Batch) (key : String)
    → bucket_of (JsMap.get key (group events b).keyed)
      ≡ bucket_of (JsMap.get key b.keyed) ++ keep (has_key key) events
unfolding group keep
group-keyed [] b key = sym (append-nil _)
group-keyed (e ∷ es) b key =
    let later = group-keyed es (place (key_of e) e b) key in
    ground (
      arith,
      later,
      place-keyed b e key,
      append_assoc (bucket_of (JsMap.get key b.keyed)) (e ∷ []) (keep (has_key key) es),
      append-nil (bucket_of (JsMap.get key b.keyed)),
    )

keep-All :
    (key : String) (events : List SorobanEvent)
    → All (λ e. key_of e ≡ some key) (keep (has_key key) events)
unfolding keep
keep-All key [] = tt
keep-All key (e ∷ es) =
    if-both (All (λ e'. key_of e' ≡ some key)) (has_key key e)
      (λ own. (of_key key e own, keep-All key es)) (λ _. keep-All key es)
  where
    of_key : (key : String) (e : SorobanEvent) → has_key key e ≡ true → key_of e ≡ some key
    of_key key e own = elim (Option-cases (key_of e)) [
      | inl bare ↦ ground (arith, bare, own)
      | inr (k, there) ↦ ground (arith, there, own, eq_iff k key)
    ]

keep-Within :
    (p : SorobanEvent → Bool) (m : ℕ) (xs : List SorobanEvent)
    → All (λ (y : SorobanEvent). m ≤ y.ledger) xs
    → All (λ (y : SorobanEvent). m ≤ y.ledger) (keep p xs)
unfolding keep
keep-Within p m [] h = tt
keep-Within p m (x ∷ xs) h =
    if-both (All (λ (y : SorobanEvent). m ≤ y.ledger)) (p x) (λ _. (h.0, keep-Within p m xs h.1))
      (λ _. keep-Within p m xs h.1)

keep-IsAscending :
    (p : SorobanEvent → Bool) (xs : List SorobanEvent) → IsAscending xs → IsAscending (keep p xs)
unfolding keep
keep-IsAscending p [] h = tt
keep-IsAscending p (x ∷ xs) h =
    if-both IsAscending (p x) (λ _. (keep-Within p x.ledger xs h.0, keep-IsAscending p xs h.1))
      (λ _. keep-IsAscending p xs h.1)

keep-swap :
    (p q : SorobanEvent → Bool) (xs : List SorobanEvent)
    → keep p (keep q xs) ≡ keep (λ e. p e && q e) xs
unfolding keep
keep-swap p q [] = refl
keep-swap p q (x ∷ xs) = ground (arith, keep-swap p q xs)

module _ ⦃E : Env⦄ where
  -- However the groups of a fetched batch interleave, the events of one escrow id start in one order:
  -- that of the sorted batch, by ledger; and each of them starts as often as it was fetched, whichever
  -- test tells them apart.
  pub batch-order :
      (events : List SorobanEvent) {order : List SorobanEvent} (key : String)
      → Schedule (batch_of events).keyed order
      → (keep (has_key key) order ≡ keep (has_key key) (sort events))
        × IsAscending (keep (has_key key) order)
        × ((p : SorobanEvent → Bool)
            → length (keep p (keep (has_key key) order))
              ≡ length (keep p (keep (has_key key) events)))
  unfolding batch_of keep JsMap.get
  batch-order events {order} key schedule =
      let bucket : (k : String)
          → bucket_of (JsMap.get k (batch_of events).keyed) ≡ keep (has_key k) (sort events) =
        λ k. group-keyed (sort events) (record { unkeyed = []; keyed = [] }) k in
      let grouped : IsGrouped (batch_of events).keyed =
        λ k. subst (All (λ e. key_of e ≡ some k)) (sym (bucket k)) (keep-All k (sort events)) in
      let same : keep (has_key key) order ≡ keep (has_key key) (sort events) =
        Schedule-order (batch_of events).keyed key grouped schedule ∙ bucket key in
      (
        same,
        subst IsAscending (sym same)
            (keep-IsAscending (has_key key) (sort events) (sort-IsAscending events)),
        λ p.
            ap (λ xs. length (keep p xs)) same
            ∙ ap length (keep-swap p (has_key key) (sort events))
            ∙ sort-count (λ e. p e && has_key key e) events
            ∙ ap length (sym (keep-swap p (has_key key) events)),
      )
