-- ===== src/Webhook/Validation.antt =====
-- validateWebhookUrl and resolveAndValidateHostname of webhook.service.ts.
use trustflow_backend.Prelude.{
  ℕ, suc, String, ◌<>◌, Option, none, some, List, [], ◌∷◌, Bool, ◌||◌, ◌&&◌, not, ◌==◌, str_eq,
}
use trustflow_backend.Prelude.Exec.{
  Exec, bad_request, plain, pure, throw, throw_if, when_else, ok, ◌>>=◌, ◌>>◌,
}
use trustflow_backend.Data.Webhook.{Url, Lookup, found, failed, Net, Hooks}
use trustflow_backend.Webhook.Address.{is_ip, is_private_ip}

module _ ⦃N : Net⦄ where
  abbrev pub Action : Type 0 → Type 0
  Action A = Exec (Hooks N.Remote) A

  abbrev pub get_now : Action ℕ
  get_now s = (ok (N.clock s.ticks), record s { ticks = suc s.ticks })

  abbrev pub lookup : String → Action Lookup
  lookup hostname s =
      (ok (N.lookup hostname s.remote).0, record s { remote = (N.lookup hostname s.remote).1 })

  abbrev pub is_private : String → Bool
  is_private = is_private_ip ⦃N = N.addresses⦄

  -- The codes that say that a name does not resolve.
  abbrev pub is_unresolved : String → Bool
  is_unresolved code =
      str_eq code "ENOTFOUND"
      || str_eq code "EAI_AGAIN"
      || str_eq code "ENODATA"
      || str_eq code "EREQUEST"

  unfoldable pub check_records : List String → Action (Unit {0})
  check_records [] = pure tt
  check_records (r ∷ records) =
      throw_if (is_private r) (bad_request ("Webhook URL resolves to private address: " <> r))
      >> check_records records

  unfoldable pub check_lookup : Lookup → Action (Unit {0})
  unfolding check_records
  check_lookup (found records) = check_records records
  check_lookup (failed code) = throw_if (not (is_unresolved code)) (plain code)

  -- A host that is no address is looked up.
  unfoldable pub resolve_host : String → Action (Unit {0})
  resolve_host hostname =
      when_else (is_ip ⦃N = N.addresses⦄ hostname == 0)
        (do answer ← lookup hostname; check_lookup answer)
        (throw_if (is_private hostname)
          (bad_request ("Webhook URL resolves to private address: " <> hostname)))

  unfoldable pub resolve_and_validate_hostname : String → Action (Unit {0})
  resolve_and_validate_hostname hostname = do
    throw_if (str_eq hostname "") (bad_request "Webhook URL must have a hostname")
    throw_if (str_eq (N.addresses.to_lower_case hostname) "localhost")
        (bad_request "Webhook URL hostname localhost is not allowed")
    resolve_host hostname

  abbrev pub validate_parsed : Option Url → Action (Unit {0})
  validate_parsed none = throw (bad_request "Invalid webhook URL")
  validate_parsed (some url) = do
    throw_if (not (str_eq url.protocol "http:") && not (str_eq url.protocol "https:"))
        (bad_request "Webhook URL must use http or https")
    throw_if (str_eq url.hostname "") (bad_request "Webhook URL must have a hostname")
    throw_if (is_private url.hostname) (
        bad_request
          ("Webhook URL hostname " <> url.hostname <> " is not allowed (private address)"))
    resolve_and_validate_hostname url.hostname

  unfoldable pub validate_webhook_url : String → Action (Unit {0})
  unfolding resolve_and_validate_hostname
  validate_webhook_url url = validate_parsed (N.parse_url url)
