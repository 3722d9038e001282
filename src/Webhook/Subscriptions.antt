-- ===== src/Webhook/Subscriptions.antt =====
-- `WebhookSubscriptionService`: subscriptions of dApps, kept by the process.
use trustflow_backend.Prelude.{
  ℕ, ◌-◌, String, ◌<>◌, Option, none, some, List, Bool, true, false, ◌&&◌, ltb, leb, keep, sort_by,
  or_default, is_some, truthy, str_eq,
}
use trustflow_backend.Prelude.Exec.{
  not_found, pure, gets, modify, try_catch, when_else, or_throw, ◌>>=◌, ◌>>◌,
}
use trustflow_backend.Prelude.JsMap
use trustflow_backend.Redis.{Reply, replied, rejected}
use trustflow_backend.Data.Webhook.{
  Net, WebhookSubscription, CreateWebhookSubscriptionDto, UpdateWebhookSubscriptionDto,
  WebhookSubscriptionPingResult,
}
use trustflow_backend.Webhook.Validation.{Action, get_now, validate_webhook_url}
use trustflow_backend.Webhook.Service.{generate_webhook_secret, signature_of, post}

abbrev pub or_kept : Option String → Option String → Option String
or_kept (some new) old = some new
or_kept none old = old

-- The fields that are given, over those that are there.
abbrev pub merged : WebhookSubscription → UpdateWebhookSubscriptionDto → ℕ → WebhookSubscription
merged existing dto now = record existing {
  dapp_id = or_default dto.dapp_id existing.dapp_id;
  url = or_default dto.url existing.url;
  topics = or_default dto.topics existing.topics;
  secret = or_kept dto.secret existing.secret;
  updated_at = now;
}

abbrev pub subscribed : CreateWebhookSubscriptionDto → String → ℕ → ℕ → WebhookSubscription
subscribed dto id created_at updated_at = record {
  id = id;
  dapp_id = dto.dapp_id;
  url = dto.url;
  topics = dto.topics;
  secret = dto.secret;
  created_at = created_at;
  updated_at = updated_at;
}

module _ ⦃N : Net⦄ where
  -- uuidv4()
  abbrev pub uuid : Action String
  uuid = generate_webhook_secret

  abbrev pub put : WebhookSubscription → Action (Unit {0})
  put subscription =
      modify
        (λ s. record s { subscriptions = JsMap.set subscription.id subscription s.subscriptions })

  unfoldable pub create : CreateWebhookSubscriptionDto → Action WebhookSubscription
  unfolding validate_webhook_url JsMap.set
  create dto = do
    validate_webhook_url dto.url
    id ← uuid
    created_at ← get_now
    updated_at ← get_now
    let subscription = subscribed dto id created_at updated_at
    put subscription
    pure subscription

  -- Newest first.
  unfoldable pub list_by_dapp : String → Action (List WebhookSubscription)
  unfolding keep sort_by
  list_by_dapp dapp_id = gets (λ s.
      sort_by (λ a b. ltb a.created_at b.created_at)
        (keep (λ x. str_eq x.dapp_id dapp_id) (JsMap.values s.subscriptions)))

  abbrev pub get_by_id : String → Action (Option WebhookSubscription)
  get_by_id id = gets (λ s. JsMap.get id s.subscriptions)

  abbrev pub require : String → Action WebhookSubscription
  require id = do
    found ← get_by_id id
    or_throw found (not_found ("Webhook subscription " <> id <> " not found"))

  abbrev pub validate_given : Option String → Action (Unit {0})
  validate_given none = pure tt
  validate_given (some url) = validate_webhook_url url

  unfoldable pub update : String → UpdateWebhookSubscriptionDto → Action WebhookSubscription
  unfolding validate_webhook_url JsMap.set
  update id dto = do
    existing ← require id
    validate_given dto.url
    now ← get_now
    let updated = merged existing dto now
    modify (λ s. record s { subscriptions = JsMap.set id updated s.subscriptions })
    pure updated

  unfoldable pub remove : String → Action Bool
  remove id = do
    found ← get_by_id id
    modify (λ s. record s { subscriptions = JsMap.delete id s.subscriptions })
    pure (is_some found)

  -- The result of a probe: the status of the answer, or that it did not come.
  abbrev pub ping_result : ℕ → Reply ℕ → Action WebhookSubscriptionPingResult
  ping_result started_at (replied status) = do
    now ← get_now
    pure (record {
      reachable = leb 200 status && ltb status 300;
      response_time_ms = now - started_at;
      status_code = some status;
    })
  ping_result started_at (rejected m) = do
    now ← get_now
    pure (record { reachable = false; response_time_ms = now - started_at; status_code = none })

  abbrev pub probe : WebhookSubscription → Action WebhookSubscriptionPingResult
  probe subscription = do
    now ← get_now
    let body = N.ping_json (N.iso_of now) subscription.id
    started_at ← get_now
    signature ← signature_of body (truthy subscription.secret)
    answer ← post subscription.url body signature
    ping_result started_at answer

  unfoldable pub ping : String → Action WebhookSubscriptionPingResult
  unfolding validate_webhook_url truthy
  ping id = do
    subscription ← require id
    passes ← try_catch (do validate_webhook_url subscription.url; pure true) (λ e. pure false)
    when_else passes (probe subscription)
        (pure (record { reachable = false; response_time_ms = 0; status_code = none }))
