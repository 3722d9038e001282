-- ===== src/Outbox/Queue.antt =====
-- The core API of `OutboxService`. Its callers see `append`, `claimDue`, `markDelivered` and
-- `retry`; with no client the queue is a map of events with the sets `pending` and `processing`.
use trustflow_backend.Prelude.{
  ℕ, ◌+◌, ◌-◌, ◌*◌, ◌^◌, min, String, ◌<>◌, Option, none, some, List, [], ◌∷◌, ◌++◌, Bool, map,
  length, leb, ltb, if◌then◌else◌, truthy, or_default,
}
use trustflow_backend.Prelude.Exec.{
  Error, ok, plain, redis, message, pure, throw, try_catch, modify, when_else, ◌>>=◌, ◌>>◌,
}
use trustflow_backend.Prelude.JsMap
use trustflow_backend.Prelude.JsMap.{JsMap}
use trustflow_backend.Prelude.JsSet
use trustflow_backend.Prelude.JsSet.{JsSet}
use trustflow_backend.Redis.{
  Command, Reply, replied, rejected, set, zadd, zrem, expire, ExecResults,
}
use trustflow_backend.Data.Outbox.{OutboxEvent, pending, delivered, failed, retrying, Payload}
use trustflow_backend.World.{
  Env, World, Action, ask, get_now, random_uuid, call, log_error, when_do,
}

abbrev pub pending_key : String
pending_key = "outbox:pending"

abbrev pub processing_key : String
processing_key = "outbox:processing"

abbrev pub event_key : String → String
event_key id = "outbox:event:" <> id

-- min(1000 * 2 ** min(attempts - 1, 5), 30_000), for attempts from 1 on
unfoldable pub backoff_ms : ℕ → ℕ
backoff_ms attempts = min (1000 * 2 ^ min (attempts - 1) 5) 30000

-- The loop of `claimDue` over the pending set.
pub record Claims : Type 0 where
  pub pending : JsSet
  pub processing : JsSet
  pub claimed : List OutboxEvent

unfoldable pub claim_one : ℕ → String → Option OutboxEvent → Claims → Claims
claim_one now id none c = c
claim_one now id (some event) c =
    if leb event.next_attempt_at now
    then record {
      pending = JsSet.delete id c.pending;
      processing = JsSet.add id c.processing;
      claimed = c.claimed ++ event ∷ [];
    }
    else c

unfoldable pub claim_loop : ℕ → ℕ → JsMap OutboxEvent → List String → Claims → Claims
unfolding claim_one
claim_loop now batch memory [] c = c
claim_loop now batch memory (id ∷ ids) c =
    let rest = claim_loop now batch memory ids (claim_one now id (JsMap.get id memory) c) in
    if leb batch (length c.claimed) then c else rest

-- The loop of `reclaimExpired` over the processing set.
pub record Reclaims : Type 0 where
  pub pending : JsSet
  pub processing : JsSet
  pub reclaimed : List String

abbrev pub reclaim_one : String → Reclaims → Reclaims
reclaim_one id c = record {
  processing = JsSet.delete id c.processing;
  pending = JsSet.add id c.pending;
  reclaimed = c.reclaimed ++ id ∷ [];
}

unfoldable pub reclaim_loop : ℕ → List String → Reclaims → Reclaims
reclaim_loop batch [] c = c
reclaim_loop batch (id ∷ ids) c =
    let rest = reclaim_loop batch ids (reclaim_one id c) in
    if leb batch (length c.reclaimed) then c else rest

-- The event that `markDelivered` and `retry` write.
unfoldable pub delivered_event : OutboxEvent → String → OutboxEvent
delivered_event event at = record event { status = delivered; delivered_at = some at }

unfoldable pub retried_event : OutboxEvent → String → Bool → ℕ → OutboxEvent
retried_event event reason gave_up at = record event {
  attempts = event.attempts + 1;
  last_error = some reason;
  status = if gave_up then failed else retrying;
  next_attempt_at = at;
}

module _ ⦃E : Env⦄ where
  unfoldable pub first_error : List (Option String) → Action (Unit {0})
  first_error [] = pure tt
  first_error (none ∷ rs) = first_error rs
  first_error (some m ∷ rs) = throw (redis m)

  -- assertTransactionOk
  unfoldable pub assert_transaction_ok : ExecResults → Action (Unit {0})
  unfolding first_error
  assert_transaction_ok none = throw (plain "Redis MULTI/EXEC transaction aborted (null result)")
  assert_transaction_ok (some rs) = first_error rs

  unfoldable pub create : String → String → String → Payload → Action OutboxEvent
  create kind aggregate_type aggregate_id payload = do
    id ← random_uuid
    stamp ← get_now
    due ← get_now
    created ← get_now
    pure (record {
      id = id;
      dedup_key =
          kind <> ":" <> aggregate_type <> ":" <> aggregate_id <> ":" <> E.number_text stamp.ms;
      kind = kind;
      aggregate_type = aggregate_type;
      aggregate_id = aggregate_id;
      payload = payload;
      status = pending;
      attempts = 0;
      next_attempt_at = due.ms;
      created_at = created.iso;
      delivered_at = none;
      last_error = none;
    })

  -- The two commands that `append` and `appendToTransaction` queue.
  abbrev pub append_commands : OutboxEvent → List Command
  append_commands event =
      set (event_key event.id) (E.event_json.stringify event)
      ∷ zadd pending_key event.next_attempt_at event.id
      ∷ []

  abbrev pub remember : OutboxEvent → World E.Remote → World E.Remote
  remember event w = record w {
    memory = JsMap.set event.id event w.memory;
    pending = JsSet.add event.id w.pending;
  }

  unfoldable pub append : OutboxEvent → Action (Unit {0})
  unfolding assert_transaction_ok
  append event w =
      when_else w.client
        (do results ← ask (E.exec (append_commands event)); assert_transaction_ok results)
        (modify (remember event)) w

  -- JSON.parse of a body, none if there is no body
  unfoldable pub parse_body : Option String → Action (List OutboxEvent)
  parse_body none = pure []
  parse_body (some raw) = elim (E.event_json.parse raw) [
    | none ↦ throw (plain "SyntaxError")
    | some event ↦ pure (event ∷ [])
  ]

  -- loadEvents: an event whose body is missing is left in the processing set.
  unfoldable pub load_replies :
      List String → List (Reply (Option String)) → Action (List OutboxEvent)
  unfolding parse_body truthy
  load_replies [] rs = pure []
  load_replies (id ∷ ids) [] = throw (plain "TypeError: undefined is not iterable")
  load_replies (id ∷ ids) (rejected m ∷ rs) = load_replies ids rs
  load_replies (id ∷ ids) (replied raw ∷ rs) = do
    event ← parse_body (truthy raw)
    events ← load_replies ids rs
    pure (event ++ events)

  unfoldable pub load_events : List String → Action (List OutboxEvent)
  unfolding load_replies
  load_events [] = pure []
  load_events (id ∷ ids) = do
    results ← ask (E.pipeline_get (map event_key (id ∷ ids)))
    load_replies (id ∷ ids) results

  abbrev pub claim_memory : ℕ → ℕ → World E.Remote → Claims
  claim_memory now batch w =
      claim_loop now batch w.memory w.pending
        (record { pending = w.pending; processing = w.processing; claimed = [] })

  -- `script` is the text of CLAIM_DUE_SCRIPT, which Redis runs.
  unfoldable pub claim_due : String → ℕ → ℕ → ℕ → Action (List OutboxEvent)
  unfolding load_events claim_loop
  claim_due script now lease_ms batch w =
      when_else w.client
        (do
          ids ← ask (
              E.eval script (pending_key ∷ processing_key ∷ [])
                (E.number_text now ∷ E.number_text (now + lease_ms) ∷ E.number_text batch ∷ []))
          load_events ids)
        (λ v. (
          ok (claim_memory now batch v).claimed,
          record v {
            pending = (claim_memory now batch v).pending;
            processing = (claim_memory now batch v).processing;
          },
        ))
        w

  abbrev pub reclaim_memory : ℕ → World E.Remote → Reclaims
  reclaim_memory batch w =
      reclaim_loop batch w.processing
        (record { pending = w.pending; processing = w.processing; reclaimed = [] })

  -- `script` is the text of RECLAIM_EXPIRED_SCRIPT.
  unfoldable pub reclaim_expired : String → ℕ → ℕ → Action (List String)
  unfolding reclaim_loop
  reclaim_expired script now batch w =
      when_else w.client
        (ask (
          E.eval script (processing_key ∷ pending_key ∷ [])
            (E.number_text now ∷ E.number_text batch ∷ [])))
        (λ v. (
          ok (reclaim_memory batch v).reclaimed,
          record v {
            pending = (reclaim_memory batch v).pending;
            processing = (reclaim_memory batch v).processing;
          },
        ))
        w

  abbrev pub expire_commands : String → List Command
  expire_commands id =
      if ltb 0 E.outbox_delivered_ttl_seconds
      then expire (event_key id) E.outbox_delivered_ttl_seconds ∷ []
      else []

  abbrev pub settle_memory : OutboxEvent → World E.Remote → World E.Remote
  settle_memory updated w = record w {
    memory = JsMap.set updated.id updated w.memory;
    processing = JsSet.delete updated.id w.processing;
    pending = JsSet.delete updated.id w.pending;
  }

  unfoldable pub mark_delivered : OutboxEvent → Action (Unit {0})
  unfolding assert_transaction_ok delivered_event
  mark_delivered event = do
    now ← get_now
    let updated = delivered_event event now.iso
    λ w.
        when_else w.client
          (do
            results ← ask (
                E.exec (
                  set (event_key event.id) (E.event_json.stringify updated)
                  ∷ zrem processing_key event.id
                  ∷ zrem pending_key event.id
                  ∷ expire_commands event.id))
            assert_transaction_ok results)
          (modify (settle_memory updated)) w

  -- The in-memory writes of `retry`: a failed event leaves the queue, another goes back to pending.
  abbrev pub retry_memory : OutboxEvent → Bool → World E.Remote → World E.Remote
  retry_memory updated gave_up w = record w {
    memory = JsMap.set updated.id updated w.memory;
    processing = JsSet.delete updated.id w.processing;
    pending = if gave_up then w.pending else JsSet.add updated.id w.pending;
  }

  abbrev pub gives_up : OutboxEvent → Bool
  gives_up event = leb E.outbox_max_attempts (event.attempts + 1)

  -- Date.now() is read only if the event is tried again.
  abbrev pub next_attempt : OutboxEvent → Action ℕ
  next_attempt event =
      when_else (gives_up event) (pure event.next_attempt_at)
        (do now ← get_now; pure (now.ms + backoff_ms (event.attempts + 1)))

  unfoldable pub retry : OutboxEvent → Error → Action (Unit {0})
  unfolding assert_transaction_ok retried_event backoff_ms
  retry event error = do
    at ← next_attempt event
    let updated = retried_event event (message error) (gives_up event) at
    λ w.
        when_else w.client
          (do
            results ← ask (
                E.exec (
                  set (event_key event.id) (E.event_json.stringify updated)
                  ∷ zrem processing_key event.id
                  ∷ (if gives_up event then [] else zadd pending_key at event.id ∷ [])))
            assert_transaction_ok results
            when_do (gives_up event) (call (log_error "outbox.retry" event.id)))
          (do
            modify (retry_memory updated (gives_up event))
            when_do (gives_up event) (call (log_error "outbox.retry" event.id)))
          w

  -- Fire and forget: the promise of `append` is not awaited, and its rejection is only logged.
  unfoldable pub send_webhook : String → Payload → Option String → Action (Unit {0})
  unfolding create append truthy
  send_webhook kind payload dedup_key = do
    event ← create kind "webhook" (or_default dedup_key kind) payload
    let keyed = record event { dedup_key = or_default (truthy dedup_key) event.dedup_key }
    try_catch (append keyed) (λ e. call (log_error "sendWebhook" event.id))

  unfoldable pub find_by_id : String → Action (Option OutboxEvent)
  unfolding truthy
  find_by_id id w =
      when_else w.client
        (do
          raw ← ask (E.get (event_key id))
          elim (truthy raw) [
            | none ↦ pure none
            | some text ↦ elim (E.event_json.parse text) [
              | none ↦ throw (plain "SyntaxError")
              | some event ↦ pure (some event)
            ]
          ])
        (λ v. (ok (JsMap.get id v.memory), v)) w
