-- ===== src/Webhook/Service.antt =====
-- `WebhookService`: the endpoints and their delivery.
use trustflow_backend.Prelude.{
  ℕ, suc, ◌+◌, ◌-◌, String, ◌<>◌, Option, none, some, List, [], ◌∷◌, ◌++◌, true, false,
  if◌then◌else◌, ◌&&◌, not, ltb, ◌==◌, truthy,
}
use trustflow_backend.Prelude.Exec.{
  Error, plain, ok, pure, throw, gets, modify, try_catch, when_else, ◌>>=◌, ◌>>◌,
}
use trustflow_backend.Prelude.JsMap
use trustflow_backend.Redis.{Reply, replied, rejected}
use trustflow_backend.Data.Webhook.{Net, Hooks, WebhookPayload, WebhookEndpointConfig}
use trustflow_backend.Webhook.Validation.{Action, get_now, validate_webhook_url}
use trustflow_backend.Webhook.Retry.{with_retry, is_retryable}

abbrev pub webhook_retry_base_delay_ms : ℕ
webhook_retry_base_delay_ms = 1000

abbrev pub pause : {R : Type 0} → ℕ → Hooks R → Hooks R
pause ms s = record s { slept = s.slept ++ ms ∷ [] }

module _ ⦃N : Net⦄ where
  unfoldable pub compute_webhook_signature : String → String → ℕ → String
  compute_webhook_signature payload_body secret timestamp_ms =
      "t="
      <> N.number_text timestamp_ms
      <> ",v1="
      <> N.hmac_sha256 (N.number_text timestamp_ms <> "." <> payload_body) secret

  abbrev pub generate_webhook_secret : Action String
  generate_webhook_secret s = (ok (N.random s.draws), record s { draws = suc s.draws })

  -- The signature of a body, if there is a secret that is not empty.
  abbrev pub signature_of : String → Option String → Action (Option String)
  signature_of body none = pure none
  signature_of body (some secret) = do
    now ← get_now
    pure (some (compute_webhook_signature body secret now))

  -- One request, with its URL noted.
  abbrev pub post : String → String → Option String → Action (Reply ℕ)
  post url body signature s = (
    ok (N.post url body signature s.remote).0,
    record s { remote = (N.post url body signature s.remote).1; sent = s.sent ++ url ∷ [] },
  )

  abbrev pub check_status : Reply ℕ → Action (Unit {0})
  check_status (replied status) =
      when_else (not (status == 0) && ltb status 400) (pure tt)
        (throw (plain (N.number_text status)))
  check_status (rejected m) = throw (plain m)

  unfoldable pub send : String → WebhookPayload → Option String → Action (Unit {0})
  unfolding truthy compute_webhook_signature
  send url payload secret = do
    let body = N.payload_json payload
    signature ← signature_of body (truthy secret)
    answer ← post url body signature
    check_status answer

  unfoldable pub send_with_retry : String → WebhookPayload → ℕ → Option String → Action (Unit {0})
  unfolding with_retry send is_retryable
  send_with_retry url payload retries secret =
      with_retry (send url payload secret) pause retries webhook_retry_base_delay_ms
        (is_retryable N.addresses.to_lower_case)

  abbrev pub secret_or_new : Option String → Action String
  secret_or_new (some secret) = pure secret
  secret_or_new none = generate_webhook_secret

  unfoldable pub register : String → String → Option String → Action String
  unfolding validate_webhook_url JsMap.set
  register id url secret = do
    validate_webhook_url url
    signing_secret ← secret_or_new secret
    modify (λ s. record s {
      endpoints = JsMap.set id (record { url = url; secret = some signing_secret }) s.endpoints;
    })
    pure signing_secret

  unfoldable pub unregister : String → Action (Unit {0})
  unregister id = modify (λ s. record s { endpoints = JsMap.delete id s.endpoints })

  -- The endpoints whose URL passes now.
  unfoldable pub valid_endpoints : List WebhookEndpointConfig → Action (List WebhookEndpointConfig)
  unfolding validate_webhook_url
  valid_endpoints [] = pure []
  valid_endpoints (endpoint ∷ endpoints) = do
    passes ← try_catch (do validate_webhook_url endpoint.url; pure true) (λ e. pure false)
    rest ← valid_endpoints endpoints
    pure (if passes then endpoint ∷ rest else rest)

  -- The result of a delivery as a value, and the first failure of two.
  abbrev pub settled : Action (Unit {0}) → Action (Option Error)
  settled m = try_catch (do m; pure none) (λ e. pure (some e))

  abbrev pub first_failure : Option Error → Option Error → Option Error
  first_failure (some e) later = some e
  first_failure none later = later

  -- Promise.allSettled of the deliveries, and the first that was rejected.
  unfoldable pub send_all : List WebhookEndpointConfig → WebhookPayload → Action (Option Error)
  unfolding send_with_retry
  send_all [] payload = pure none
  send_all (endpoint ∷ endpoints) payload = do
    failed ← settled (send_with_retry endpoint.url payload 3 endpoint.secret)
    later ← send_all endpoints payload
    pure (first_failure failed later)

  abbrev pub throw_failure : Option Error → Action (Unit {0})
  throw_failure none = pure tt
  throw_failure (some e) = throw e

  abbrev pub deliver_to : List WebhookEndpointConfig → WebhookPayload → Action (Unit {0})
  deliver_to [] payload = pure tt
  deliver_to (endpoint ∷ endpoints) payload = do
    modify (λ s. record s { in_flight = s.in_flight + 1 })
    failed ← send_all (endpoint ∷ endpoints) payload
    modify (λ s. record s { in_flight = s.in_flight - 1 })
    throw_failure failed

  unfoldable pub deliver : String → String → Option String → Action (Unit {0})
  unfolding valid_endpoints send_all
  deliver event payload dedup_key s =
      when_else s.shutting_down (pure tt)
        (do
          now ← get_now
          endpoints ← gets (λ s. JsMap.values s.endpoints)
          valid ← valid_endpoints endpoints
          deliver_to valid (record {
            event = event;
            payload = payload;
            timestamp = N.iso_of now;
            dedup_key = dedup_key;
          }))
        s

  abbrev pub before_application_shutdown : Action (Unit {0})
  before_application_shutdown = modify (λ s. record s { shutting_down = true })
