-- ===== src/Webhook/Brackets.antt =====
-- A host name in brackets passes every test of addresses.
use Prim.Native.String.append
use Prim.Native.String.compare
use text.Mathlib.Text.{is_eq}
use trustflow_backend.Prelude.{
  ap, ◌∙◌, subst, sym, ◌≡◌, String, ◌<>◌, some, true, false, arith, str_eq,
}
use trustflow_backend.Prelude.Exec.{ok}
use trustflow_backend.Prelude.JsMap
use trustflow_backend.Prelude.JsMap.{get-set_self}
use trustflow_backend.Data.Webhook.{Net, Hooks, Url, failed}
use trustflow_backend.Webhook.Address.{is_ip, is_private_ip}
use trustflow_backend.Webhook.Validation.{
  is_private, check_lookup, resolve_host, resolve_and_validate_hostname, validate_webhook_url,
}
use trustflow_backend.Webhook.Service.{register}

bracket-ne-localhost : (s : String) → str_eq ("[" <> s) "localhost" ≡ false
bracket-ne-localhost s =
    ap (λ v. str_eq v "localhost") (append.cons "[" String.[] s)
    ∙ ap is_eq (compare.cons-cons "[" "l" (String.[] <> s) "ocalhost")

bracket-ne-empty : (s : String) → str_eq ("[" <> s) "" ≡ false
bracket-ne-empty s =
    ap (λ v. str_eq v "") (append.cons "[" String.[] s)
    ∙ ap is_eq (compare.cons-nil "[" (String.[] <> s))

module _ ⦃N : Net⦄ where
  public_name :
      (hostname : String)
      → str_eq (N.addresses.to_lower_case hostname) "localhost" ≡ false
      → is_ip ⦃N = N.addresses⦄ hostname ≡ 0
      → is_private hostname ≡ false
  unfolding is_ip is_private_ip
  public_name hostname named name = ground (arith, named, name)

  -- When a URL of http has a host in brackets that net.isIP does not take for an address, and the lookup of
  -- that host does not resolve, it is registered, whatever stands in the brackets.
  pub register_bracketed :
      (id url ipv6 secret : String) (s : Hooks N.Remote) {parts : Url}
      → N.parse_url url ≡ some parts
      → parts.hostname ≡ "[" <> ipv6 <> "]"
      → str_eq parts.protocol "http:" ≡ true
      → N.addresses.to_lower_case parts.hostname ≡ parts.hostname
      → is_ip ⦃N = N.addresses⦄ parts.hostname ≡ 0
      → (N.lookup parts.hostname s.remote).0 ≡ failed "ENOTFOUND"
      → ((register id url (some secret) s).0 ≡ ok secret)
        × (JsMap.get id (register id url (some secret) s).1.endpoints
            ≡ some (record { url = url; secret = some secret }))
  unfolding register validate_webhook_url resolve_and_validate_hostname resolve_host check_lookup
  register_bracketed id url ipv6 secret s {parts} parsed host http lower name unresolved =
      let named : str_eq parts.hostname "" ≡ false =
        subst (λ h. str_eq h "" ≡ false) (sym host) (bracket-ne-empty (ipv6 <> "]")) in
      let local : str_eq parts.hostname "localhost" ≡ false =
        subst (λ h. str_eq h "localhost" ≡ false) (sym host) (bracket-ne-localhost (ipv6 <> "]")) in
      let public : is_private parts.hostname ≡ false =
        public_name parts.hostname (rw lower local) name in
      let stored = get-set_self id (record { url = url; secret = some secret }) s.endpoints in
      (
        ground (arith, parsed, named, local, lower, http, name, unresolved, public),
        ground (arith, parsed, named, local, lower, http, name, unresolved, public, stored),
      )
