-- ===== src/Idempotency/Replay.antt =====
-- A request that is sent again: it is answered by the first response, or handled anew after a failure.
use trustflow_backend.Prelude.{
  ◌≡◌, refl, ◌∙◌, String, none, some, Bool, true, false, arith, leb, ap,
}
use trustflow_backend.Prelude.Exec.{Result, ok, err}
use trustflow_backend.World.{Env, World, Action}
use trustflow_backend.Data.Idempotency.{IdempotencyRecord, claimed, Request, Response}
use trustflow_backend.Idempotency.Keys.{
  hash_body, claim, finalize, release, build_key, pending_record, completed_record,
}
use trustflow_backend.Idempotency.Interceptor.{
  endpoint_of, intercept, handle_claimed, captured_headers,
}
use trustflow_backend.Idempotency.Server.{IsServer}
use trustflow_backend.Idempotency.Taken.{IsKeyed, intercept-keyed, held}

-- Whether a handler threw or answered by an error.
abbrev pub has_failed : Result Response → Bool
has_failed (ok response) = leb 400 response.status
has_failed (err e) = true

module _ ⦃E : Env⦄ where
  -- The state in which the handler of a request with a free key runs.
  abbrev pub begun : Request → String → World E.Remote → World E.Remote
  begun request key s = (claim (endpoint_of request) key (hash_body request.body) s).1

  -- What the handler's response is stored as.
  abbrev pub stored : Request → Response → IdempotencyRecord
  stored request response =
      completed_record (hash_body request.body) response.status response.body
        (captured_headers response.headers)

module _ ⦃E : Env⦄ (server : IsServer E) where
  claim_free :
      (endpoint key request_hash : String) (s : World E.Remote)
      → s.client ≡ true
      → server.value (build_key endpoint key) s.remote ≡ none
      → ((claim endpoint key request_hash s).0 ≡ ok claimed)
        × ((claim endpoint key request_hash s).1.client ≡ true)
  unfolding claim
  claim_free endpoint key request_hash s on free =
      let k = build_key endpoint key in
      let v = E.idempotency_json.stringify (pending_record request_hash) in
      let (sent, held) = server.set_free k v E.idempotency_key_ttl_seconds s.remote free in
      (ground (arith, on, sent), ground (arith, on, sent))

  release_lem :
      (endpoint key : String) (s : World E.Remote)
      → s.client ≡ true
      → ((release endpoint key s).0 ≡ ok tt)
        × ((release endpoint key s).1.client ≡ true)
        × (server.value (build_key endpoint key) (release endpoint key s).1.remote ≡ none)
  unfolding release
  release_lem endpoint key s on =
      let (sent, gone) = server.del_lem (build_key endpoint key) s.remote in
      (ground (arith, on, sent), ground (arith, on, sent), ground (arith, on, sent, gone))

  finalize_lem :
      (endpoint key : String) (request : Request) (response : Response) (s : World E.Remote)
      → s.client ≡ true
      → let after =
          finalize endpoint key
            (hash_body request.body)
            response.status
            response.body
            (captured_headers response.headers)
            s in
        (after.0 ≡ ok tt)
        × (after.1.client ≡ true)
        × (server.value (build_key endpoint key) after.1.remote
            ≡ some (E.idempotency_json.stringify (stored request response)))
  unfolding finalize
  finalize_lem endpoint key request response s on =
      let v = E.idempotency_json.stringify (stored request response) in
      let (sent, kept) =
        server.set_lem (build_key endpoint key) v E.idempotency_key_ttl_seconds s.remote in
      (ground (arith, on, sent), ground (arith, on, sent), ground (arith, on, sent, kept))

  -- The handler of a request that holds its key, and what is left of the key.
  pub handled :
      (endpoint key : String) (request : Request) (handle : Action Response) (s : World E.Remote)
      (response : Response)
      → (handle s).0 ≡ ok response
      → (handle s).1.client ≡ true
      → leb 400 response.status ≡ false
      → let after = handle_claimed endpoint key (hash_body request.body) handle s in
        (after.0 ≡ ok response)
        × (after.1.client ≡ true)
        × (server.value (build_key endpoint key) after.1.remote
            ≡ some (E.idempotency_json.stringify (stored request response)))
  unfolding handle_claimed
  handled endpoint key request handle s response ran on passes =
      let (done, still, kept) = finalize_lem endpoint key request response (handle s).1 on in
      (
        ground (arith, ran, passes, done),
        ground (arith, ran, passes, done, still),
        ground (arith, ran, passes, done, kept),
      )

  failed :
      (endpoint key request_hash : String) (handle : Action Response) (s : World E.Remote)
      → (handle s).1.client ≡ true
      → has_failed (handle s).0 ≡ true
      → let after = handle_claimed endpoint key request_hash handle s in
        (after.0 ≡ (handle s).0)
        × (after.1.client ≡ true)
        × (server.value (build_key endpoint key) after.1.remote ≡ none)
  unfolding handle_claimed
  failed endpoint key request_hash handle s on fails =
      go (handle s).0 refl (release_lem endpoint key (handle s).1 on)
    where
      go :
          (r : Result Response)
          → (handle s).0 ≡ r
          → ((release endpoint key (handle s).1).0 ≡ ok tt)
            × ((release endpoint key (handle s).1).1.client ≡ true)
            × (server.value (build_key endpoint key) (release endpoint key (handle s).1).1.remote
                ≡ none)
          → let after = handle_claimed endpoint key request_hash handle s in
            (after.0 ≡ (handle s).0)
            × (after.1.client ≡ true)
            × (server.value (build_key endpoint key) after.1.remote ≡ none)
      go (ok response) e (done, still, gone) =
          let refused = ap has_failed e in
          (
            ground (arith, e, fails, refused, done),
            ground (arith, e, fails, refused, done, still),
            ground (arith, e, fails, refused, done, gone),
          )
      go (err x) e (done, still, gone) =
          (ground (arith, e, done), ground (arith, e, done, still), ground (arith, e, done, gone))

  -- With a free key, the interceptor runs the handler.
  pub intercept_free :
      (request : Request) (key : String) (handle : Action Response) (s : World E.Remote)
      → s.client ≡ true
      → IsKeyed request key
      → held server request key s ≡ none
      → intercept true request handle s
        ≡ handle_claimed
            (endpoint_of request)
            key
            (hash_body request.body)
            handle
            (begun request key s)
  intercept_free request key handle s on keyed free =
      let (found, still) =
        claim_free (endpoint_of request) key (hash_body request.body) s on free in
      ground (arith, found, intercept-keyed server request key handle s keyed)

  -- With a Redis client, when the handler of a request with a free key throws or answers by a status from 400 on, the
  -- request ends as the handler did, and another one to the same endpoint with the same key is handled.
  pub intercept_retry :
      (request again : Request) (key : String) (handle anew : Action Response) (s : World E.Remote)
      → s.client ≡ true
      → IsKeyed request key
      → IsKeyed again key
      → endpoint_of again ≡ endpoint_of request
      → held server request key s ≡ none
      → (handle (begun request key s)).1.client ≡ true
      → has_failed (handle (begun request key s)).0 ≡ true
      → let first = intercept true request handle s in
        (first.0 ≡ (handle (begun request key s)).0)
        × (intercept true again anew first.1
            ≡ handle_claimed
                (endpoint_of again)
                key
                (hash_body again.body)
                anew
                (begun again key first.1))
  intercept_retry request again key handle anew s on keyed again_keyed same free left fails =
      let first = intercept true request handle s in
      let run = intercept_free request key handle s on keyed free in
      let (done, still, gone) =
        failed (endpoint_of request) key (hash_body request.body) handle (begun request key s) left
          fails in
      (
        ap (λ o. o.0) run ∙ done,
        intercept_free again key anew first.1 (ap (λ o. o.1.client) run ∙ still) again_keyed (
            ap (λ e. server.value (build_key e key) first.1.remote) same
            ∙ ap (λ o. server.value (build_key (endpoint_of request) key) o.1.remote) run
            ∙ gone),
      )
