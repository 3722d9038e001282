-- ===== src/Webhook/Guarded.antt =====
-- What a webhook can reach: a URL that passes, and the requests of a delivery.
use trustflow_backend.Prelude.{
  ◌≡◌, String, some, List, [], ◌∷◌, true, false, ◌||◌, str_eq, arith, All, Option-cases, inl, inr,
  subst,
}
use trustflow_backend.Prelude.Exec.{ok, bad_request, throw_if, throw_if-passes, ◌>>◌}
use trustflow_backend.Data.Webhook.{Net, Hooks, Url, Lookup, found, failed}
use trustflow_backend.Webhook.Address.{is_ip}
use trustflow_backend.Webhook.Validation.{
  is_private, is_unresolved, check_records, check_lookup, resolve_host,
  resolve_and_validate_hostname, validate_webhook_url, validate_parsed,
}

module _ ⦃N : Net⦄ where
  -- The answer of a lookup lets a URL pass: no address is private, or the name does not resolve.
  abbrev pub Clears : Lookup → Type 0
  Clears (found records) = All (λ r. is_private r ≡ false) records
  Clears (failed code) = is_unresolved code ≡ true

  -- A URL that may be sent to: its parts, and what its host was looked up to.
  pub record Passes (url : String) (answer : Lookup) (parts : Url) : Type 0 where
    pub parsed : N.parse_url url ≡ some parts
    pub scheme : (str_eq parts.protocol "http:" || str_eq parts.protocol "https:") ≡ true
    pub named : str_eq parts.hostname "" ≡ false
    pub public_host : is_private parts.hostname ≡ false
    pub cleared : is_ip ⦃N = N.addresses⦄ parts.hostname ≡ 0 → Clears answer

  check_records-Clears :
      (records : List String) (s : Hooks N.Remote)
      → (check_records records s).0 ≡ ok tt
      → All (λ r. is_private r ≡ false) records
  unfolding check_records
  check_records-Clears [] s h = tt
  check_records-Clears (r ∷ records) s h =
      let (open_, rest) = throw_if-passes (is_private r) _ (check_records records) s h in
      (open_, check_records-Clears records s rest)

  check_lookup-Clears :
      (answer : Lookup) (s : Hooks N.Remote) → (check_lookup answer s).0 ≡ ok tt → Clears answer
  unfolding check_lookup
  check_lookup-Clears (found records) s h = check_records-Clears records s h
  check_lookup-Clears (failed code) s h = ground (arith, h)

  resolve-Clears :
      (hostname : String) (s : Hooks N.Remote)
      → (resolve_and_validate_hostname hostname s).0 ≡ ok tt
      → is_ip ⦃N = N.addresses⦄ hostname ≡ 0
      → Clears (N.lookup hostname s.remote).0
  unfolding resolve_and_validate_hostname resolve_host
  resolve-Clears hostname s h name =
      let local = str_eq (N.addresses.to_lower_case hostname) "localhost" in
      let refusal = bad_request "Webhook URL hostname localhost is not allowed" in
      let (_, h1) =
        throw_if-passes (str_eq hostname "") (bad_request "Webhook URL must have a hostname")
          (throw_if local refusal >> resolve_host hostname) s h in
      let (_, h2) = throw_if-passes local refusal (resolve_host hostname) s h1 in
      check_lookup-Clears (N.lookup hostname s.remote).0
        (record s { remote = (N.lookup hostname s.remote).1 }) (rw name at h2)

  -- A URL that is accepted has the scheme of HTTP, a host name that is no private address, and unless that is
  -- an address itself, the lookup made for it answered no private address, or that the name does not
  -- resolve.
  pub validate_webhook_url-Passes :
      (url : String) (s : Hooks N.Remote)
      → (validate_webhook_url url s).0 ≡ ok tt
      → (parts : Url) × Passes url (N.lookup parts.hostname s.remote).0 parts
  unfolding validate_webhook_url
  validate_webhook_url-Passes url s h = elim (Option-cases (N.parse_url url)) [
    | inl gone ↦ ground (arith, gone, h)
    | inr (parts, parsed) ↦
        let k : (validate_parsed (some parts) s).0 ≡ ok tt =
          subst (λ o. (validate_parsed o s).0 ≡ ok tt) parsed h in
        let kept : (resolve_and_validate_hostname parts.hostname s).0 ≡ ok tt = ground (arith, k) in
        (
          parts,
          record {
            parsed = parsed;
            scheme = ground (arith, k);
            named = ground (arith, k);
            public_host = ground (arith, k);
            cleared = resolve-Clears parts.hostname s kept;
          },
        )
  ]
