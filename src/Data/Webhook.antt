-- ===== src/Data/Webhook.antt =====
-- The types of webhook/, and what the services there take from outside.
use trustflow_backend.Prelude.{ℕ, String, Option, List, Bool}
use trustflow_backend.Prelude.JsMap.{JsMap}
use trustflow_backend.Redis.{Reply}
use trustflow_backend.Webhook.Address.{Addresses}

-- The parts of a parsed URL that are looked at.
pub record Url : Type 0 where
  pub protocol : String
  pub hostname : String

pub record WebhookPayload : Type 0 where
  pub event : String
  pub payload : String  -- data
  pub timestamp : String
  pub dedup_key : Option String

pub record WebhookEndpointConfig : Type 0 where
  pub url : String
  pub secret : Option String

pub record WebhookSubscription : Type 0 where
  pub id : String
  pub dapp_id : String
  pub url : String
  pub topics : List String
  pub secret : Option String
  pub created_at : ℕ
  pub updated_at : ℕ

pub record CreateWebhookSubscriptionDto : Type 0 where
  pub dapp_id : String
  pub url : String
  pub topics : List String
  pub secret : Option String

pub record UpdateWebhookSubscriptionDto : Type 0 where
  pub dapp_id : Option String
  pub url : Option String
  pub topics : Option (List String)
  pub secret : Option String

pub record WebhookSubscriptionPingResult : Type 0 where
  pub reachable : Bool
  pub response_time_ms : ℕ
  pub status_code : Option ℕ

-- What dns.promises.lookup settles to: addresses, a failure with its code.
pub data Lookup : Type 0 where
  found : List String → Lookup
  failed : String → Lookup

-- The network as the services meet it, the URL parser, HMAC and the clock.
pub record Net : Type 1 where
  pub Remote : Type 0
  pub addresses : Addresses
  pub parse_url : String → Option Url
  pub lookup : String → Remote → Lookup × Remote
  -- one POST: URL, body and signature; the status code, 0 for none, or the error
  pub post : String → String → Option String → Remote → Reply ℕ × Remote
  pub hmac_sha256 : String → String → String  -- of a content, by a secret, as hex
  pub payload_json : WebhookPayload → String
  pub ping_json : String → String → String  -- of a timestamp and a subscription
  pub number_text : ℕ → String
  pub iso_of : ℕ → String
  pub clock : ℕ → ℕ
  pub random : ℕ → String

pub record Hooks (Remote : Type 0) : Type 0 where
  pub remote : Remote
  pub ticks : ℕ
  pub draws : ℕ
  pub endpoints : JsMap WebhookEndpointConfig
  pub in_flight : ℕ  -- inFlightRequests.size
  pub shutting_down : Bool
  pub subscriptions : JsMap WebhookSubscription
  pub sent : List String  -- the URLs of the requests made so far
  pub slept : List ℕ  -- the delays before a further attempt
