-- ===== src/Outbox/Attempts.antt =====
-- The attempts of the events of the older API in `OutboxService`.
use trustflow_backend.Prelude.{◌≤◌, ◌<◌, String, ◌≡◌, some, Bool, true, false, List, [], ◌∷◌}
use trustflow_backend.Prelude.JsMap
use trustflow_backend.Prelude.JsMap.{JsMap}
use trustflow_backend.World.{Env, World}
use trustflow_backend.Data.Outbox.{
  LegacyEvent, LegacyState, LegacyEventType, delivered, dead_letter,
}
use trustflow_backend.Outbox.Legacy.{create_event, process_event, replay_event}

-- Delivered or dead-lettered.
abbrev pub is_settled : LegacyState → Bool
is_settled delivered = true
is_settled dead_letter = true
is_settled _ = false

pub record IsWithin (e : LegacyEvent) : Type 0 where
  pub positive : 1 ≤ e.max_attempts
  pub bounded : e.attempts ≤ e.max_attempts
  pub room : is_settled e.state ≡ false → e.attempts < e.max_attempts

-- No event has more attempts than its maximum, and one that used them all is settled.
unfoldable pub AreWithin : JsMap LegacyEvent → Type 0
AreWithin m = (id : String) (e : LegacyEvent) → JsMap.get id m ≡ some e → IsWithin e

module _ ⦃E : Env⦄ where
  -- The calls that change the events of the older API, and a run of them.
  pub data Request : Type 0 where
    to_create : LegacyEventType → String → Request
    to_process : String → Request
    to_replay : String → Request

  pub serve : Request → World E.Remote → World E.Remote
  serve (to_create kind payload) w = (create_event kind payload w).1
  serve (to_process id) w = (process_event id w).1
  serve (to_replay id) w = (replay_event id w).1

  pub serve_all : List Request → World E.Remote → World E.Remote
  serve_all [] w = w
  serve_all (r ∷ rs) w = serve_all rs (serve r w)
