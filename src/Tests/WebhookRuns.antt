-- ===== src/Tests/WebhookRuns.antt =====
-- The theorems on webhooks on a concrete network.
use trustflow_backend.Prelude.{
  ℕ, ◌≤◌, ◌≡◌, refl, String, some, none, [], ◌∷◌, true, false, map, any, split,
}
use trustflow_backend.Prelude.Exec.{ok}
use trustflow_backend.Prelude.JsMap
use trustflow_backend.Redis.{replied}
use trustflow_backend.Data.Webhook.{Net, Hooks, failed}
use trustflow_backend.Webhook.Address.{is_ipv4, number_of, private_ipv4, is_ip}
use trustflow_backend.Webhook.Blocks.{blocks, in_block, address, private_ipv4-blocks}
use trustflow_backend.Webhook.Service.{register}
use trustflow_backend.Webhook.Brackets.{register_bracketed}

-- A network with one host name, behind which every request is answered with 503.
abbrev host : String → Net
host name = record {
  Remote = Unit {0};
  addresses = record { is_ipv6 = λ s. false; to_lower_case = λ s. s };
  parse_url = λ url. some (record { protocol = "http:"; hostname = name });
  lookup = λ h r. (failed "ENOTFOUND", r);
  post = λ url body signature r. (replied 503, r);
  hmac_sha256 = λ content secret. "9f86d081";
  payload_json = λ p. "{}";
  ping_json = λ t id. "{}";
  number_text = λ n. "503";
  iso_of = λ n. "2026-01-01T00:00:00.000Z";
  clock = λ n. n;
  random = λ n. "5e884898";
}

abbrev idle : Hooks (Unit {0})
idle = record {
  remote = tt;
  ticks = 0;
  draws = 0;
  endpoints = ("hook_1", record { url = "http://hooks.example/in"; secret = none }) ∷ [];
  in_flight = 0;
  shutting_down = false;
  subscriptions = [];
  sent = [];
  slept = [];
}

metadata_is_ipv4 : is_ipv4 "169.254.169.254" ≡ true
unfolding is_ipv4
metadata_is_ipv4 = refl

private_ipv4-blocks_example :
    (a : ℕ) × (b : ℕ) × (c : ℕ) × (d : ℕ) × (map number_of (split b'.' "169.254.169.254")
      ≡ some a ∷ some b ∷ some c ∷ some d ∷ [])
    × (a ≤ 255)
    × (b ≤ 255)
    × (c ≤ 255)
    × (d ≤ 255)
    × (private_ipv4 "169.254.169.254" ≡ any (in_block (address a b c d)) blocks)
private_ipv4-blocks_example = private_ipv4-blocks "169.254.169.254" metadata_is_ipv4

register_bracketed_example :
    ((register ⦃N = host "[::1]"⦄ "hook_2" "http://[::1]/" (some "0123456789abcdef") idle).0
      ≡ ok "0123456789abcdef")
    × (JsMap.get "hook_2"
          (register ⦃N = host "[::1]"⦄ "hook_2" "http://[::1]/"
            (some "0123456789abcdef")
            idle).1.endpoints
        ≡ some (record { url = "http://[::1]/"; secret = some "0123456789abcdef" }))
unfolding is_ip
register_bracketed_example =
    register_bracketed ⦃N = host "[::1]"⦄ "hook_2" "http://[::1]/" "::1" "0123456789abcdef" idle
      {parts = record { protocol = "http:"; hostname = "[::1]" }} refl refl refl refl refl refl
