-- ===== src/Idempotency/Again.antt =====
-- A request that is sent again after it was handled gets the same response.
use trustflow_backend.Prelude.{
  ◌≡◌, refl, ◌∙◌, String, Option, none, some, List, [], ◌∷◌, Bool, true, false, not, ◌&&◌, arith,
  str_eq, leb, ap, any, keep, map, is_some, Bool-cases, inl, inr,
}
use trustflow_backend.Prelude.Exec.{Result, ok, err, unprocessable}
use trustflow_backend.Prelude.JsMap.{JsMap}
use trustflow_backend.World.{Env, World, Action}
use trustflow_backend.Data.Idempotency.{completed, Request, Response}
use trustflow_backend.Idempotency.Keys.{hash_body, build_key}
use trustflow_backend.Idempotency.Interceptor.{
  endpoint_of, intercept, captured_headers, is_listed, non_replayable_headers,
}
use trustflow_backend.Idempotency.Server.{IsServer, IsReadable}
use trustflow_backend.Idempotency.Taken.{IsKeyed, verdict, intercept_taken, held}
use trustflow_backend.Idempotency.Replay.{begun, stored, handled, intercept_free}

-- The headers that the framework computes for each response.
abbrev pub framework_headers : List String
framework_headers =
    "content-length" ∷ "connection" ∷ "date" ∷ "keep-alive" ∷ "transfer-encoding" ∷ "x-powered-by"
    ∷ "etag" ∷ []

module _ ⦃E : Env⦄ where
  abbrev pub is_kept : String × Option String → Bool
  is_kept h = is_some h.1 && not (any (λ name. str_eq name (E.to_lower_case h.0)) framework_headers)

  -- The response with the headers that have a value and that the framework does not compute.
  abbrev pub repeated : Response → Response
  repeated response = record {
    status = response.status;
    body = response.body;
    headers = keep is_kept response.headers;
  }

  -- What a request gets once the key has been used for `response`, given whether its body is the same.
  abbrev pub reply : Bool → Response → Result Response
  reply true response = ok (repeated response)
  reply false response =
      err (unprocessable "Idempotency key has already been used with a different request payload")

  is_listed_lem :
      (name : String)
      → is_listed non_replayable_headers name ≡ any (λ x. str_eq x name) framework_headers
  unfolding any
  is_listed_lem name = refl

  captured-keep :
      (headers : JsMap (Option String))
      → map (λ e. (e.0, some e.1)) (captured_headers headers) ≡ keep is_kept headers
  unfolding captured_headers keep
  captured-keep [] = refl
  captured-keep ((name, none) ∷ headers) = captured-keep headers
  captured-keep ((name, some value) ∷ headers) =
      let listed = is_listed_lem (E.to_lower_case name) in
      elim (Bool-cases (is_listed non_replayable_headers (E.to_lower_case name))) [
        | inl skipped ↦ ground (arith, listed, skipped, captured-keep headers)
        | inr kept ↦ ground (arith, listed, kept, captured-keep headers)
      ]

  verdict-reply :
      (same : Bool) (request : Request) (response : Response)
      → verdict same (stored request response) completed ≡ reply same response
  verdict-reply false request response = refl
  verdict-reply true request response =
      ap (λ hs. ok (record { status = response.status; body = response.body; headers = hs }))
        (captured-keep response.headers)

module _ ⦃E : Env⦄ (server : IsServer E) where
  -- With a Redis client, when a request with a free key is handled by a response below 400, another request
  -- to the same endpoint with the same key gets the status and the body of that response and those of its
  -- headers that have a value and are not of the seven that the framework computes, if its body has the
  -- same hash, and else 422; Redis stays as it is, and no handler runs.
  pub intercept_again :
      (request again : Request) (key : String) (handle anew : Action Response) (s : World E.Remote)
      (response : Response)
      → IsReadable E (stored request response)
      → s.client ≡ true
      → IsKeyed request key
      → IsKeyed again key
      → endpoint_of again ≡ endpoint_of request
      → held server request key s ≡ none
      → (handle (begun request key s)).0 ≡ ok response
      → (handle (begun request key s)).1.client ≡ true
      → leb 400 response.status ≡ false
      → let first = intercept true request handle s in
        let second = intercept true again anew first.1 in
        (first.0 ≡ ok response)
        × (second.0 ≡ reply (str_eq (hash_body request.body) (hash_body again.body)) response)
        × (second.1.remote ≡ first.1.remote)
  intercept_again request again key handle anew s response readable on keyed again_keyed same free
        ran left passes =
      let first = intercept true request handle s in
      let run = intercept_free server request key handle s on keyed free in
      let (done, still, kept) =
        handled server (endpoint_of request) key request handle (begun request key s) response ran
          left passes in
      let (answered, unchanged) =
        intercept_taken server again key (stored request response) anew first.1 readable
          (ap (λ o. o.1.client) run ∙ still) again_keyed
          (ap (λ e. server.value (build_key e key) first.1.remote) same
            ∙ ap (λ o. server.value (build_key (endpoint_of request) key) o.1.remote) run
            ∙ kept) in
      let told =
        verdict-reply (str_eq (hash_body request.body) (hash_body again.body)) request response in
      (ap (λ o. o.0) run ∙ done, answered ∙ told, unchanged)
