-- ===== src/Idempotency/Interceptor.antt =====
-- `IdempotencyKeyInterceptor`: what becomes of a request with an Idempotency-Key.
use trustflow_backend.Prelude.{
  String, ◌<>◌, Option, none, some, Bool, false, List, [], ◌∷◌, map, not, ◌||◌, leb, str_eq,
  if◌then◌else◌, truthy, or_default,
}
use trustflow_backend.Prelude.Exec.{
  conflict, unprocessable, pure, throw, try_catch, when_else, ◌>>=◌, ◌>>◌,
}
use trustflow_backend.Prelude.JsMap.{JsMap}
use trustflow_backend.World.{Env, Action, increment}
use trustflow_backend.Data.Idempotency.{
  IdempotencyRecord, RecordStatus, pending, completed, ClaimResult, claimed, unclaimed, Request,
  Response,
}
use trustflow_backend.Idempotency.Keys.{hash_body, claim, finalize, release}

abbrev pub is_listed : List String → String → Bool
is_listed [] name = false
is_listed (x ∷ xs) name = str_eq x name || is_listed xs name

abbrev pub non_replayable_headers : List String
non_replayable_headers =
    "content-length" ∷ "connection" ∷ "date" ∷ "keep-alive" ∷ "transfer-encoding" ∷ "x-powered-by"
    ∷ "etag" ∷ []

abbrev pub scope_of : Request → String
scope_of request = or_default request.sub (or_default request.ip "anonymous")

abbrev pub endpoint_of : Request → String
endpoint_of request =
    scope_of request <> ":" <> request.method <> ":" <> or_default request.route_path request.url

-- The response that a completed record is replayed as.
abbrev pub replay : IdempotencyRecord → Response
replay known = record {
  status = or_default known.status_code 200;
  body = known.body;
  headers = map (λ e. (e.0, some e.1)) (or_default known.headers []);
}

module _ ⦃E : Env⦄ where
  unfoldable pub captured_headers : JsMap (Option String) → JsMap String
  captured_headers [] = []
  captured_headers ((name, none) ∷ headers) = captured_headers headers
  captured_headers ((name, some value) ∷ headers) =
      let rest = captured_headers headers in
      if is_listed non_replayable_headers (E.to_lower_case name) then rest else (name, value) ∷ rest

  abbrev pub answer_completed : IdempotencyRecord → RecordStatus → Action Response
  answer_completed known completed = pure (replay known)
  answer_completed known pending = do
    increment "idempotency_conflict_total"
    throw (conflict "A request with this idempotency key is already being processed")

  abbrev pub answer_mismatch : {A : Type 0} → Action A
  answer_mismatch = do
    increment "idempotency_key_mismatch_total"
    throw (unprocessable "Idempotency key has already been used with a different request payload")

  unfoldable pub answer_known : String → IdempotencyRecord → Action Response
  answer_known request_hash known =
      when_else (not (str_eq known.request_hash request_hash)) answer_mismatch
        (answer_completed known known.status)

  -- The handler of a request that holds its key, and the two operators after it.
  unfoldable pub handle_claimed : String → String → String → Action Response → Action Response
  unfolding release finalize captured_headers
  handle_claimed endpoint key request_hash handle =
      try_catch
        (do
          response ← handle
          when_else (leb 400 response.status) (release endpoint key) (
              finalize endpoint key request_hash response.status response.body
                (captured_headers response.headers))
          pure response)
        (λ e. do release endpoint key; throw e)

  abbrev pub after_claim :
      String → String → String → Action Response → ClaimResult → Action Response
  after_claim endpoint key request_hash handle claimed =
      handle_claimed endpoint key request_hash handle
  after_claim endpoint key request_hash handle (unclaimed none) = handle
  after_claim endpoint key request_hash handle (unclaimed (some known)) =
      answer_known request_hash known

  abbrev pub intercept_keyed : Request → Action Response → Option String → Action Response
  intercept_keyed request handle none = handle
  intercept_keyed request handle (some key) = do
    let endpoint = endpoint_of request
    let request_hash = hash_body request.body
    result ← claim endpoint key request_hash
    after_claim endpoint key request_hash handle result

  -- `is_idempotent` is what the decorator left; `handle` is next.handle().
  unfoldable pub intercept : Bool → Request → Action Response → Action Response
  unfolding truthy claim answer_known handle_claimed
  intercept is_idempotent request handle =
      if not is_idempotent || is_listed ("GET" ∷ "HEAD" ∷ "OPTIONS" ∷ []) request.method
      then handle
      else intercept_keyed request handle (truthy request.idempotency_key)
