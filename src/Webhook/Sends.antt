-- ===== src/Webhook/Sends.antt =====
-- The requests that an action makes: how many at most, and to which URLs.
use trustflow_backend.Prelude.{
  ℕ, zero, suc, ◌+◌, ◌≤◌, ◌≡◌, refl, String, List, [], ◌∷◌, ◌++◌, Bool, true, false, arith, All,
  All-append_lem, length, length-append, append-nil, append_assoc, truthy, sym, subst,
  if◌then◌else◌, ltb, ◌*◌, Option, none, some,
}
use trustflow_backend.Prelude.Exec.{
  ok, err, plain, Result, Error, resume, recover, try_catch, throw, when_else, pure, ◌>>=◌, ◌>>◌,
}
use trustflow_backend.Prelude.Keeps.{Keeps, Keeps-throw}
use trustflow_backend.Data.Webhook.{Net, Hooks, WebhookPayload, WebhookEndpointConfig}
use trustflow_backend.Redis.{Reply, replied, rejected}
use trustflow_backend.Webhook.Validation.{Action}
use trustflow_backend.Webhook.Retry.{attempts, with_retry, is_retryable}
use trustflow_backend.Webhook.Service.{
  pause, send, send_with_retry, send_all, settled, signature_of, post, check_status,
  webhook_retry_base_delay_ms,
}

-- From one list of requests to another, by at most `k` requests, each to a URL in `P`.
pub record Grows (P : String → Type 0) (k : ℕ) (before after : List String) : Type 0 where
  pub more : List String
  pub added : after ≡ before ++ more
  pub allowed : All P more
  pub few : length more ≤ k

module _ {P : String → Type 0} where
  pub Grows-none : (k : ℕ) (sent : List String) → Grows P k sent sent
  Grows-none k sent = record {
    more = [];
    added = sym (append-nil sent);
    allowed = tt;
    few = omega arith;
  }

  pub Grows-weaken : {j k : ℕ} {a b : List String} → j ≤ k → Grows P j a b → Grows P k a b
  Grows-weaken h g = record {
    more = g.more;
    added = g.added;
    allowed = g.allowed;
    few = omega (arith, g.few);
  }

  pub Grows-then :
      {j k : ℕ} {a b c : List String} → Grows P j a b → Grows P k b c → Grows P (j + k) a c
  Grows-then {a} g h = record {
    more = g.more ++ h.more;
    added = rw (h.added, g.added) (append_assoc a g.more h.more);
    allowed = All-append_lem P g.more h.more g.allowed h.allowed;
    few = omega (arith, length-append {0} g.more h.more, g.few, h.few);
  }

module _ ⦃N : Net⦄ (P : String → Type 0) where
  pub record Sends {A : Type 0} (k : ℕ) (m : Action A) : Type 0 where
    pub at : (s : Hooks N.Remote) → Grows P k s.sent (m s).1.sent

  Sends-none :
      {A : Type 0} (k : ℕ) (m : Action A) → Keeps (λ (s : Hooks N.Remote). s.sent) m → Sends k m
  Sends-none k m h = record {
    at = λ s. subst (Grows P k s.sent) (sym (h.at s)) (Grows-none k s.sent);
  }

  Sends-bind :
      {A B : Type 0} {j k : ℕ} (m : Action A) (f : A → Action B)
      → Sends j m
      → ((a : A) → Sends k (f a))
      → Sends (j + k) (m >>= f)
  Sends-bind {A} {j = j} {k = k} m f sm sf = record { at = λ s. go (m s).1 (m s).0 (sm.at s) }
    where
      go :
          {before : List String} (s' : Hooks N.Remote) (r : Result A)
          → Grows P j before s'.sent
          → Grows P (j + k) before (resume r f s').1.sent
      go s' (ok a) g = Grows-then g ((sf a).at s')
      go s' (err e) g = Grows-weaken (omega arith) g

  Sends-catch :
      {A : Type 0} {j k : ℕ} (m : Action A) (h : Error → Action A)
      → Sends j m
      → ((e : Error) → Sends k (h e))
      → Sends (j + k) (try_catch m h)
  Sends-catch {A} {j = j} {k = k} m h sm sh = record { at = λ s. go (m s).1 (m s).0 (sm.at s) }
    where
      go :
          {before : List String} (s' : Hooks N.Remote) (r : Result A)
          → Grows P j before s'.sent
          → Grows P (j + k) before (recover r h s').1.sent
      go s' (ok a) g = Grows-weaken (omega arith) g
      go s' (err e) g = Grows-then g ((sh e).at s')

  Sends-weaken : {A : Type 0} {j k : ℕ} {m : Action A} → j ≤ k → Sends j m → Sends k m
  Sends-weaken h sm = record { at = λ s. Grows-weaken h (sm.at s) }

  after_pause :
      {A : Type 0} {k : ℕ} (b : Bool) (ms : ℕ) (m : Action A)
      → Sends k m
      → Sends k (λ s. m (if b then pause ms s else s))
  after_pause true ms m h = record { at = λ s. h.at (pause ms s) }
  after_pause false ms m h = h

  retried :
      {A : Type 0} {k : ℕ} (b : Bool) (m n : Action A)
      → Sends k m
      → Sends 0 n
      → Sends k (when_else b m n)
  retried true m n hm hn = hm
  retried false m n hm hn = Sends-weaken (omega arith) hn

  -- Each attempt makes at most one request.
  Sends-attempts :
      {A : Type 0} (fn : Action A) (should_retry : Error → Bool) (base max attempt left : ℕ)
      (last : Error)
      → Sends 1 fn
      → Sends left (attempts fn pause should_retry base max attempt left last)
  unfolding attempts
  Sends-attempts fn should_retry base max attempt zero last h =
      Sends-none 0 (throw last) (Keeps-throw _ last)
  Sends-attempts fn should_retry base max attempt (suc left) last h = Sends-weaken (omega arith) (
      Sends-catch fn _ h (λ e.
        retried (should_retry e) _ (throw e)
          (after_pause (ltb attempt max) (base * attempt) _
            (Sends-attempts fn should_retry base max (suc attempt) left e h))
          (Sends-none 0 (throw e) (Keeps-throw _ e))))

  -- A request to a URL in `P`.
  send-Sends :
      (url : String) (payload : WebhookPayload) (secret : Option String)
      → P url
      → Sends 1 (send url payload secret)
  unfolding send
  send-Sends url payload secret allowed =
      Sends-bind {j = 0} (signature_of body (truthy secret)) _
        (Sends-none 0 _ (signed (truthy secret)))
        (λ signature.
          Sends-bind {j = 1} {k = 0} (post url body signature) check_status
            (record {
              at = λ s. record {
                more = url ∷ [];
                added = refl;
                allowed = (allowed, tt);
                few = omega arith;
              };
            })
            (λ answer. Sends-none 0 (check_status answer) (checked answer)))
    where
      body : String
      body = N.payload_json payload

      signed :
          (secret : Option String)
          → Keeps (λ (s : Hooks N.Remote). s.sent) (signature_of body secret)
      signed none = record { at = λ s. refl }
      signed (some x) = record { at = λ s. refl }

      checked : (answer : Reply ℕ) → Keeps (λ (s : Hooks N.Remote). s.sent) (check_status answer)
      checked (replied status) = record { at = λ s. ground arith }
      checked (rejected m) = record { at = λ s. refl }

  pub send_with_retry-Sends :
      (url : String) (payload : WebhookPayload) (retries : ℕ) (secret : Option String)
      → P url
      → Sends retries (send_with_retry url payload retries secret)
  unfolding send_with_retry with_retry
  send_with_retry-Sends url payload retries secret allowed =
      Sends-attempts (send url payload secret) (is_retryable N.addresses.to_lower_case)
        webhook_retry_base_delay_ms retries 1 retries (plain "All retries exhausted")
        (send-Sends url payload secret allowed)

  pub settled-Sends : {k : ℕ} (m : Action (Unit {0})) → Sends k m → Sends k (settled m)
  settled-Sends m h = Sends-weaken (omega arith) (
      Sends-catch {k = 0} (m >> pure none) _
        (Sends-bind {k = 0} m _ h (λ u. Sends-none 0 _ (record { at = λ s. refl })))
        (λ e. Sends-none 0 _ (record { at = λ s. refl })))

  pub send_all-Sends :
      (endpoints : List WebhookEndpointConfig) (payload : WebhookPayload)
      → All (λ e. P e.url) endpoints
      → Sends (3 * length endpoints) (send_all endpoints payload)
  unfolding send_all
  send_all-Sends [] payload h = Sends-none 0 _ (record { at = λ s. refl })
  send_all-Sends (endpoint ∷ endpoints) payload h = Sends-weaken (omega arith) (
      Sends-bind (settled (send_with_retry endpoint.url payload 3 endpoint.secret)) _
        (settled-Sends _ (send_with_retry-Sends endpoint.url payload 3 endpoint.secret h.0))
        (λ failed.
          Sends-bind {k = 0} (send_all endpoints payload) _ (send_all-Sends endpoints payload h.1)
            (λ later. Sends-none 0 _ (record { at = λ s. refl }))))
