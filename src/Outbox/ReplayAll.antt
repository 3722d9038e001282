-- ===== src/Outbox/ReplayAll.antt =====
-- `OutboxService.replayAll`, over the keys of Redis or over the map.
use trustflow_backend.Prelude.{ℕ, String, none, List, [], ◌∷◌, ◌++◌, Bool, true, false, truthy}
use trustflow_backend.Prelude.Exec.{message, pure, try_catch, modify, when_else, ◌>>=◌, ◌>>◌}
use trustflow_backend.Prelude.JsMap
use trustflow_backend.Prelude.JsMap.{JsMap}
use trustflow_backend.Prelude.JsSet
use trustflow_backend.Prelude.JsSet.{JsSet}
use trustflow_backend.Redis.{set, zadd}
use trustflow_backend.Data.Outbox.{OutboxEvent, OutboxStatus, pending, failed}
use trustflow_backend.World.{Env, Action, ask, get_now}
use trustflow_backend.Outbox.Queue.{pending_key, event_key, parse_body}

unfoldable pub reset_event : OutboxEvent → ℕ → OutboxEvent
reset_event event at = record event {
  status = pending;
  attempts = 0;
  last_error = none;
  next_attempt_at = at;
}

abbrev pub is_failed : OutboxStatus → Bool
is_failed failed = true
is_failed _ = false

-- { succeeded, failed }, the latter with the reason
pub record Replay : Type 0 where
  pub succeeded : List String
  pub failed : List (String × String)

module _ ⦃E : Env⦄ where
  -- replayAll over the keys that Redis has: what EXEC resolves to is not looked at.
  unfoldable pub replay_event : OutboxEvent → Replay → Action Replay
  unfolding reset_event
  replay_event event r =
      when_else (is_failed event.status)
        (do
          now ← get_now
          let reset = reset_event event now.ms
          try_catch
              (do
                ask (
                    E.exec (
                      set (event_key event.id) (E.event_json.stringify reset)
                      ∷ zadd pending_key reset.next_attempt_at event.id
                      ∷ []))
                pure (record r { succeeded = r.succeeded ++ event.id ∷ [] }))
              (λ e. pure (record r { failed = r.failed ++ (event.id, message e) ∷ [] })))
        (pure r)

  unfoldable pub replay_bodies : List OutboxEvent → Replay → Action Replay
  unfolding replay_event
  replay_bodies [] r = pure r
  replay_bodies (event ∷ events) r = do r' ← replay_event event r; replay_bodies events r'

  unfoldable pub replay_keys : List String → Replay → Action Replay
  unfolding replay_bodies parse_body truthy
  replay_keys [] r = pure r
  replay_keys (key ∷ ks) r = do
    raw ← ask (E.get key)
    events ← parse_body (truthy raw)
    r' ← replay_bodies events r
    replay_keys ks r'

  -- replayAll over the map.
  unfoldable pub replay_entry : String → OutboxEvent → Replay → Action Replay
  unfolding reset_event
  replay_entry id event r =
      when_else (is_failed event.status)
        (do
          now ← get_now
          modify (λ w. record w {
            memory = JsMap.set id (reset_event event now.ms) w.memory;
            pending = JsSet.add id w.pending;
          })
          pure (record r { succeeded = r.succeeded ++ id ∷ [] }))
        (pure r)

  unfoldable pub replay_entries : List (String × OutboxEvent) → Replay → Action Replay
  unfolding replay_entry
  replay_entries [] r = pure r
  replay_entries ((id, event) ∷ rest) r = do r' ← replay_entry id event r; replay_entries rest r'

  abbrev no_replay : Replay
  no_replay = record { succeeded = []; failed = [] }

  unfoldable pub replay_all : Action Replay
  unfolding replay_keys replay_entries
  replay_all w =
      when_else w.client (do ks ← ask (E.keys "outbox:event:*"); replay_keys ks no_replay)
        (λ v. replay_entries v.memory no_replay v) w
