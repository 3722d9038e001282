-- ===== src/Outbox/Invariant.antt =====
-- The invariant of the in-memory queue of `OutboxService`.
use trustflow_backend.Prelude.{
  String, ◌≡◌, none, some, Bool, true, false, ◌||◌, arith, eq_iff, is_some,
}
use trustflow_backend.Prelude.JsMap
use trustflow_backend.Prelude.JsMap.{JsMap, get-set}
use trustflow_backend.Prelude.JsSet
use trustflow_backend.Prelude.JsSet.{JsSet, has-add, has-delete}
use trustflow_backend.Data.Outbox.{OutboxEvent, OutboxStatus, delivered, failed}

-- The statuses of an event that has still to be delivered.
abbrev pub is_open : OutboxStatus → Bool
is_open delivered = false
is_open failed = false
is_open _ = true

abbrev pub is_queued : String → JsSet → JsSet → Bool
is_queued id p q = JsSet.has id p || JsSet.has id q

pub record IsSound (m : JsMap OutboxEvent) (p q : JsSet) : Type 0 where
  pub keyed : (id : String) (e : OutboxEvent) → JsMap.get id m ≡ some e → e.id ≡ id
  pub known : (id : String) → is_queued id p q ≡ true → is_some (JsMap.get id m) ≡ true
  pub disjoint : (id : String) → JsSet.has id p ≡ true → JsSet.has id q ≡ false
  pub exact :
      (id : String) (e : OutboxEvent)
      → JsMap.get id m ≡ some e
      → is_queued id p q ≡ is_open e.status

-- Moving a queued event between the sets.
module _ {m : JsMap OutboxEvent} {p q : JsSet} (id : String) (v : IsSound m p q)
    (at : is_queued id p q ≡ true) where
  pub is_queued-claim :
      (j : String) → is_queued j (JsSet.delete id p) (JsSet.add id q) ≡ is_queued j p q
  is_queued-claim j = ground (arith, has-add id j q, has-delete id j p, eq_iff id j)

  pub claim-IsSound : IsSound m (JsSet.delete id p) (JsSet.add id q)
  claim-IsSound = record {
    keyed = v.keyed;
    known = λ j h. ground (arith, is_queued-claim j, v.known j);
    disjoint = λ j h. ground (arith, has-add id j q, has-delete id j p, eq_iff id j, v.disjoint j);
    exact = λ j e h. ground (arith, is_queued-claim j, v.exact j e);
  }

  pub is_queued-reclaim :
      (j : String) → is_queued j (JsSet.add id p) (JsSet.delete id q) ≡ is_queued j p q
  is_queued-reclaim j = ground (arith, has-add id j p, has-delete id j q, eq_iff id j)

  pub reclaim-IsSound : IsSound m (JsSet.add id p) (JsSet.delete id q)
  reclaim-IsSound = record {
    keyed = v.keyed;
    known = λ j h. ground (arith, is_queued-reclaim j, v.known j);
    disjoint = λ j h. ground (arith, has-add id j p, has-delete id j q, eq_iff id j, v.disjoint j);
    exact = λ j e h. ground (arith, is_queued-reclaim j, v.exact j e);
  }

-- Writing an event under its id: it is put in the pending set if it is open, and in neither if not.
module _ {m : JsMap OutboxEvent} {p q : JsSet} (e : OutboxEvent) (v : IsSound m p q) where
  pub enqueue-IsSound :
      is_open e.status ≡ true
      → IsSound (JsMap.set e.id e m) (JsSet.add e.id p) (JsSet.delete e.id q)
  enqueue-IsSound o = record {
    keyed = λ j f h. ground (arith, get-set e.id j e m, eq_iff e.id j, v.keyed j f);
    known = λ j h. ground (
      arith,
      get-set e.id j e m,
      eq_iff e.id j,
      has-add e.id j p,
      has-delete e.id j q,
      v.known j,
    );
    disjoint =
        λ j h. ground (arith, eq_iff e.id j, has-add e.id j p, has-delete e.id j q, v.disjoint j);
    exact = λ j f h. ground (
      arith,
      get-set e.id j e m,
      eq_iff e.id j,
      has-add e.id j p,
      has-delete e.id j q,
      v.exact j f,
    );
  }

  -- A new event, which the map does not hold yet.
  pub append-IsSound :
      JsMap.get e.id m ≡ none
      → is_open e.status ≡ true
      → IsSound (JsMap.set e.id e m) (JsSet.add e.id p) q
  append-IsSound new o = record {
    keyed = λ j f h. ground (arith, get-set e.id j e m, eq_iff e.id j, v.keyed j f);
    known = λ j h. ground (arith, get-set e.id j e m, eq_iff e.id j, has-add e.id j p, v.known j);
    disjoint = λ j h. ground (arith, eq_iff e.id j, has-add e.id j p, v.disjoint j, v.known e.id);
    exact =
        λ j f h. ground (arith, get-set e.id j e m, eq_iff e.id j, has-add e.id j p, v.exact j f);
  }

  pub settle-IsSound :
      is_open e.status ≡ false
      → IsSound (JsMap.set e.id e m) (JsSet.delete e.id p) (JsSet.delete e.id q)
  settle-IsSound o = record {
    keyed = λ j f h. ground (arith, get-set e.id j e m, eq_iff e.id j, v.keyed j f);
    known = λ j h. ground (
      arith,
      get-set e.id j e m,
      eq_iff e.id j,
      has-delete e.id j p,
      has-delete e.id j q,
      v.known j,
    );
    disjoint = λ j h.
        ground (arith, eq_iff e.id j, has-delete e.id j p, has-delete e.id j q, v.disjoint j);
    exact = λ j f h. ground (
      arith,
      get-set e.id j e m,
      eq_iff e.id j,
      has-delete e.id j p,
      has-delete e.id j q,
      v.exact j f,
    );
  }

  -- An event that stands in the processing set leaves the queue.
  pub give_up-IsSound :
      JsSet.has e.id q ≡ true
      → is_open e.status ≡ false
      → IsSound (JsMap.set e.id e m) p (JsSet.delete e.id q)
  give_up-IsSound at o = record {
    keyed = λ j f h. ground (arith, get-set e.id j e m, eq_iff e.id j, v.keyed j f);
    known =
        λ j h. ground (arith, get-set e.id j e m, eq_iff e.id j, has-delete e.id j q, v.known j);
    disjoint = λ j h. ground (arith, eq_iff e.id j, has-delete e.id j q, v.disjoint j);
    exact = λ j f h. ground (
      arith,
      get-set e.id j e m,
      eq_iff e.id j,
      has-delete e.id j q,
      v.disjoint e.id,
      v.exact j f,
    );
  }
