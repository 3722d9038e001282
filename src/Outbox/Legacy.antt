-- ===== src/Outbox/Legacy.antt =====
-- The admin API of `OutboxService`, which keeps its events in memory. An event that the map gives
-- out is the stored object, so each write to it is a write to the map.
use text.Mathlib.Text.{find?}
use trustflow_backend.Prelude.{
  ℕ, ◌+◌, String, ◌<>◌, Option, none, some, List, Bool, true, false, is_some, keep, leb,
}
use trustflow_backend.Prelude.Exec.{plain, pure, throw, modify, ◌>>=◌, ◌>>◌, when_else, gets}
use trustflow_backend.Prelude.JsMap
use trustflow_backend.Prelude.JsMap.{JsMap, values}
use trustflow_backend.Data.Outbox.{
  LegacyEvent, LegacyState, LegacyEventType, pending, processing, delivered, failed, dead_letter,
}
use trustflow_backend.World.{Env, Action, get_now, random_uuid}

abbrev pub legacy_max_attempts : ℕ
legacy_max_attempts = 10

-- { success, error }
pub record Delivery : Type 0 where
  pub success : Bool
  pub error : Option String

abbrev pub same_state : LegacyState → LegacyState → Bool
same_state pending pending = true
same_state processing processing = true
same_state delivered delivered = true
same_state failed failed = true
same_state dead_letter dead_letter = true
same_state _ _ = false

-- event.payload.includes('"shouldFail":true')
abbrev pub should_fail : String → Bool
should_fail payload = is_some (find? payload "\"shouldFail\":true")

abbrev pub delivery_failure : String
delivery_failure = "Simulated delivery failure"

-- The writes of `processEvent` before it tries, after a delivery and after a failure.
unfoldable pub started : LegacyEvent → ℕ → LegacyEvent
started event at = record event {
  state = processing;
  attempts = event.attempts + 1;
  updated_at = at;
}

unfoldable pub succeeded : LegacyEvent → ℕ → LegacyEvent
succeeded event at = record event { state = delivered; processed_at = some at; last_error = none }

abbrev pub exhausted : LegacyEvent → Bool
exhausted event = leb event.max_attempts event.attempts

unfoldable pub gave_up : LegacyEvent → ℕ → LegacyEvent
gave_up event at = record event {
  last_error = some delivery_failure;
  state = dead_letter;
  dead_lettered_at = some at;
}

unfoldable pub missed : LegacyEvent → LegacyEvent
missed event = record event { last_error = some delivery_failure; state = failed }

unfoldable pub replayed : LegacyEvent → ℕ → LegacyEvent
replayed event at = record event {
  state = pending;
  attempts = 0;
  last_error = none;
  dead_lettered_at = none;
  updated_at = at;
}

module _ ⦃E : Env⦄ where
  abbrev pub store : String → LegacyEvent → Action (Unit {0})
  store id event = modify (λ w. record w { legacy_events = JsMap.set id event w.legacy_events })

  -- `id` is `obx-` with the time and a random suffix.
  unfoldable pub create_event : LegacyEventType → String → Action LegacyEvent
  create_event event_type payload = do
    stamp ← get_now
    suffix ← random_uuid
    now ← get_now
    let event : LegacyEvent = record {
      id = "obx-" <> E.number_text stamp.ms <> "-" <> suffix;
      event_type = event_type;
      payload = payload;
      state = pending;
      attempts = 0;
      max_attempts = legacy_max_attempts;
      last_error = none;
      created_at = now.ms;
      updated_at = now.ms;
      processed_at = none;
      dead_lettered_at = none;
    }
    store event.id event
    pure event

  abbrev matching : Option LegacyState → List LegacyEvent → List LegacyEvent
  matching none events = events
  matching (some s) events = keep (λ e. same_state e.state s) events

  unfoldable pub get_events : Option LegacyState → Action (List LegacyEvent)
  get_events filter = gets (λ w. matching filter (values w.legacy_events))

  unfoldable pub get_event : String → Action (Option LegacyEvent)
  get_event id = gets (λ w. JsMap.get id w.legacy_events)

  unfoldable pub get_dead_letter_events : Action (List LegacyEvent)
  get_dead_letter_events =
      gets (λ w. keep (λ e. same_state e.state dead_letter) (values w.legacy_events))

  -- The `catch` of processEvent.
  unfoldable pub delivery_failed : String → LegacyEvent → Action Delivery
  unfolding gave_up missed
  delivery_failed id event = do
    when_else (exhausted event) (do now ← get_now; store id (gave_up event now.ms))
        (store id (missed event))
    pure (record { success = false; error = some delivery_failure })

  unfoldable pub deliver : String → LegacyEvent → Action Delivery
  unfolding started succeeded delivery_failed
  deliver id event = do
    at ← get_now
    let begun = started event at.ms
    store id begun
    when_else (should_fail event.payload) (delivery_failed id begun) (do
      done ← get_now
      store id (succeeded begun done.ms)
      pure (record { success = true; error = none }))

  unfoldable pub process_found : String → LegacyEvent → Action Delivery
  unfolding deliver
  process_found id event = elim event.state [
    | dead_letter ↦ throw (plain ("Event " <> id <> " is dead-lettered and must be replayed first"))
    | delivered ↦ pure (record { success = true; error = none })
    | _ ↦ deliver id event
  ]

  unfoldable pub process_event : String → Action Delivery
  unfolding process_found
  process_event id w = elim (JsMap.get id w.legacy_events) [
    | none ↦ throw (plain ("Outbox event " <> id <> " not found")) w
    | some event ↦ process_found id event w
  ]

  abbrev state_text : LegacyState → String
  state_text pending = "PENDING"
  state_text processing = "PROCESSING"
  state_text delivered = "DELIVERED"
  state_text failed = "FAILED"
  state_text dead_letter = "DEAD_LETTER"

  unfoldable pub replay_found : String → LegacyEvent → Action Delivery
  unfolding process_event replayed
  replay_found id event = elim event.state [
    | dead_letter ↦ do now ← get_now; store id (replayed event now.ms); process_event id
    | _ ↦ throw (
        plain (
          "Event "
          <> id
          <> " is not in dead-letter state (current: "
          <> state_text event.state
          <> ")"))
  ]

  unfoldable pub replay_event : String → Action Delivery
  unfolding replay_found
  replay_event id w = elim (JsMap.get id w.legacy_events) [
    | none ↦ throw (plain ("Outbox event " <> id <> " not found")) w
    | some event ↦ replay_found id event w
  ]
