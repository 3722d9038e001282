-- ===== src/Webhook/Delivery.antt =====
-- The requests of a delivery go to URLs that pass, and are bounded; and what passes that should not.
use trustflow_backend.Prelude.{◌≤◌, ◌≡◌, String, List, ◌∷◌, All, length}
use trustflow_backend.Prelude.Exec.{ok}
use trustflow_backend.Prelude.Keeps.{Keeps}
use trustflow_backend.Prelude.JsMap
use trustflow_backend.Data.Webhook.{Net, Hooks, Url, WebhookEndpointConfig}
use trustflow_backend.Webhook.Validation.{lookup, validate_webhook_url}
use trustflow_backend.Webhook.Service.{valid_endpoints}
use trustflow_backend.Webhook.Guarded.{Passes}
use trustflow_backend.Webhook.Sends.{Sends}

module _ ⦃N : Net⦄ where
  -- Of endpoints that are tested one after another from a state on, one has the URL, and it passes with
  -- what the network answers to the lookup of its host in the state that its test starts from.
  pub data Allowed : List WebhookEndpointConfig → Hooks N.Remote → String → Type 0 where
    here :
        {e : WebhookEndpointConfig} {es : List WebhookEndpointConfig} {s : Hooks N.Remote}
        (parts : Url)
        → Passes e.url (N.lookup parts.hostname s.remote).0 parts
        → Allowed (e ∷ es) s e.url
    there :
        {e : WebhookEndpointConfig} {es : List WebhookEndpointConfig} {s : Hooks N.Remote}
        {url : String}
        → Allowed es (validate_webhook_url e.url s).1 url
        → Allowed (e ∷ es) s url

  abbrev sent_of : Hooks N.Remote → List String
  sent_of s = s.sent

  -- The endpoints that pass, as the list that `valid_endpoints` returns.
  record Checked (endpoints : List WebhookEndpointConfig) (s : Hooks N.Remote) : Type 0 where
    pub valid : List WebhookEndpointConfig
    pub returned : (valid_endpoints endpoints s).0 ≡ ok valid
    pub allowed : All (λ e. Allowed endpoints s e.url) valid
    pub few : length valid ≤ length endpoints
    pub kept : (valid_endpoints endpoints s).1.sent ≡ s.sent
