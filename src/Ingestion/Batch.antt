-- ===== src/Ingestion/Batch.antt =====
-- The order of a batch in `processEventBatch` of event-ingestion.service.ts.
use trustflow_backend.Prelude.{
  String, Option, none, some, List, [], ◌∷◌, ◌++◌, Bool, ◌&&◌, ◌||◌, ◌==◌, ltb, or_default, sort_by,
  truthy,
}
use trustflow_backend.Prelude.JsMap
use trustflow_backend.Prelude.JsMap.{JsMap}
use trustflow_backend.World.{Env}
use trustflow_backend.Data.Ingestion.{SorobanEvent}
use trustflow_backend.Ingestion.Processor.{second_topic}

-- event.topic[1], none if it is undefined or empty
abbrev pub key_of : SorobanEvent → Option String
key_of event = truthy (second_topic event.topic)

abbrev pub bucket_of : Option (List SorobanEvent) → List SorobanEvent
bucket_of o = or_default o []

-- The events without a key, and those of each key.
pub record Batch : Type 0 where
  pub unkeyed : List SorobanEvent
  pub keyed : JsMap (List SorobanEvent)

abbrev pub place : Option String → SorobanEvent → Batch → Batch
place none event b = record b { unkeyed = b.unkeyed ++ event ∷ [] }
place (some key) event b = record b {
  keyed = JsMap.set key (bucket_of (JsMap.get key b.keyed) ++ event ∷ []) b.keyed;
}

unfoldable pub group : List SorobanEvent → Batch → Batch
unfolding truthy
group [] b = b
group (event ∷ events) b = group events (place (key_of event) event b)

module _ ⦃E : Env⦄ where
  -- The comparator of the sort is positive.
  abbrev pub comes_after : SorobanEvent → SorobanEvent → Bool
  comes_after a b = ltb b.ledger a.ledger || a.ledger == b.ledger && E.locale_after a.id b.id

  unfoldable pub sort : List SorobanEvent → List SorobanEvent
  unfolding sort_by
  sort = sort_by comes_after

  unfoldable pub batch_of : List SorobanEvent → Batch
  unfolding group sort
  batch_of events = group (sort events) (record { unkeyed = []; keyed = [] })
