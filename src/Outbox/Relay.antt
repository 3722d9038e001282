-- ===== src/Outbox/Relay.antt =====
-- The relay of the outbox: outbox-relay.service.ts with outbox-publisher.service.ts and
-- outbox-event-dispatcher.service.ts.
use Prim.Native.Char.{code}
use trustflow_backend.Prelude.{
  ℕ, ◌-◌, String, ◌<>◌, Option, none, some, List, [], ◌∷◌, ◌++◌, Bool, true, false, ◌||◌, ◌==◌, not,
  length, str_eq, starts_with, or_default, if◌then◌else◌,
}
use trustflow_backend.Prelude.Exec.{Error, plain, redis, pure, throw, try_catch, ◌>>=◌, ◌>>◌}
use trustflow_backend.Prelude.JsMap
use trustflow_backend.Prelude.JsMap.{JsMap}
use trustflow_backend.Redis.{publish, lpush, ltrim, ExecResults}
use trustflow_backend.Data.Outbox.{OutboxEvent, OutboxStatus, failed}
use trustflow_backend.World.{Env, Action, ask, get_now, increment, call, log_error, when_do}
use trustflow_backend.Outbox.Queue.{reclaim_expired, claim_due, mark_delivered, retry, send_webhook}

abbrev pub gateway_channel : String
gateway_channel = "trustflow:events:gateway"

abbrev pub queue_key : String
queue_key = "trustflow:events:queue"

-- pattern.slice(0, -1) of a pattern that ends with '*'
unfoldable pub star_prefix : String → Option String
star_prefix String.[] = none
star_prefix (String.◌∷◌ c String.[]) = if code c == 42 then some String.[] else none
star_prefix (String.◌∷◌ c (String.◌∷◌ d s)) = elim (star_prefix (String.◌∷◌ d s)) [
  | none ↦ none
  | some p ↦ some (String.◌∷◌ c p)
]

-- The pattern '*', the type itself, or a prefix of it with a star.
unfoldable pub matches : String → String → Bool
unfolding star_prefix
matches kind pattern =
    str_eq pattern "*"
    || str_eq pattern kind
    || elim (star_prefix pattern) [ none ↦ false | some p ↦ starts_with kind p ]

-- The configuration of the relay.
pub record RelayConfig : Type 0 where
  pub batch_size : ℕ
  pub lease_ms : ℕ
  pub queue_max_length : ℕ
  pub claim_script : String
  pub reclaim_script : String

module _ ⦃E : Env⦄ where
  abbrev pub Handler : Type 0
  Handler = OutboxEvent → Action (Unit {0})

  abbrev pub Handlers : Type 0
  Handlers = JsMap (List Handler)

  unfoldable pub register : String → Handler → Handlers → Handlers
  register pattern handler handlers =
      JsMap.set pattern (or_default (JsMap.get pattern handlers) [] ++ handler ∷ []) handlers

  unfoldable pub matched_handlers : String → Handlers → List Handler
  unfolding matches
  matched_handlers kind [] = []
  matched_handlers kind ((pattern, list) ∷ rest) =
      let others = matched_handlers kind rest in
      if matches kind pattern then list ++ others else others

  unfoldable pub call_each : OutboxEvent → List Handler → Action (Unit {0})
  call_each event [] = pure tt
  call_each event (h ∷ hs) = do
    try_catch (h event) (λ e. do call (log_error "handler" event.kind); throw e)
    call_each event hs

  unfoldable pub dispatch : Handlers → OutboxEvent → Action (Unit {0})
  unfolding matched_handlers call_each
  dispatch handlers event = call_each event (matched_handlers event.kind handlers)

  abbrev first_failure : List (Option String) → Action (Unit {0})
  first_failure [] = pure tt
  first_failure (none ∷ rs) = first_failure rs
  first_failure (some m ∷ rs) = throw (redis m)

  abbrev check_published : ExecResults → Action (Unit {0})
  check_published none = throw (plain "Redis outbox publish transaction aborted")
  check_published (some rs) = first_failure rs

  unfoldable pub publish_event : RelayConfig → OutboxEvent → Action (Unit {0})
  publish_event config event w =
      when_do w.client
        (do
          results ← ask (
              E.exec (
                publish gateway_channel (E.event_json.stringify event)
                ∷ lpush queue_key (E.event_json.stringify event)
                ∷ ltrim queue_key 0 (config.queue_max_length - 1)
                ∷ []))
          check_published results)
        w

  abbrev pub fan_out : OutboxEvent → Action (Unit {0})
  fan_out event =
      when_do (not (str_eq event.aggregate_type "webhook"))
        (send_webhook event.kind event.payload (some event.dedup_key))

  -- The `try` block for one event.
  unfoldable pub deliver : RelayConfig → Handlers → OutboxEvent → Action (Unit {0})
  unfolding dispatch publish_event send_webhook mark_delivered
  deliver config handlers event = do
    publish_event config event
    fan_out event
    dispatch handlers event
    mark_delivered event
    increment ("outbox_delivery_total:delivered:" <> event.kind)

  abbrev pub is_failed : OutboxStatus → Bool
  is_failed failed = true
  is_failed _ = false

  -- The `catch` block; `retry` does not assign to the event.
  unfoldable pub recover_event : OutboxEvent → Error → Action (Unit {0})
  unfolding retry
  recover_event event error = do
    retry event error
    increment (
        "outbox_delivery_total:"
        <> (if is_failed event.status then "failed:" else "retry:")
        <> event.kind)

  unfoldable pub relay_each : RelayConfig → Handlers → List OutboxEvent → Action (Unit {0})
  unfolding deliver recover_event
  relay_each config handlers [] = pure tt
  relay_each config handlers (event ∷ events) = do
    try_catch (deliver config handlers event) (recover_event event)
    relay_each config handlers events

  unfoldable pub run_once : RelayConfig → Handlers → Action ℕ
  unfolding relay_each reclaim_expired claim_due
  run_once config handlers = do
    now ← get_now
    reclaim_expired config.reclaim_script now.ms config.batch_size
    events ← claim_due config.claim_script now.ms config.lease_ms config.batch_size
    relay_each config handlers events
    pure (length events)
