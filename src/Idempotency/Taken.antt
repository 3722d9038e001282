-- ===== src/Idempotency/Taken.antt =====
-- A request whose key is held is answered by the record, and its handler does not run.
use trustflow_backend.Prelude.{
  ◌≡◌, refl, String, Option, some, Bool, map, or_default, true, false, [], ◌∷◌, arith, not, str_eq,
  truthy,
}
use trustflow_backend.Prelude.Exec.{Result, ok, err, conflict, unprocessable, when_else}
use trustflow_backend.World.{Env, World, Action}
use trustflow_backend.Data.Idempotency.{
  IdempotencyRecord, RecordStatus, pending, completed, unclaimed, Request, Response,
}
use trustflow_backend.Idempotency.Keys.{hash_body, claim, build_key, pending_record}
use trustflow_backend.Idempotency.Interceptor.{
  endpoint_of, answer_known, intercept, intercept_keyed, is_listed, answer_completed,
  answer_mismatch,
}
use trustflow_backend.Idempotency.Server.{IsServer, IsReadable}

-- A request that the interceptor handles by its key.
pub record IsKeyed (request : Request) (key : String) : Type 0 where
  pub changes : is_listed ("GET" ∷ "HEAD" ∷ "OPTIONS" ∷ []) request.method ≡ false
  pub given : truthy request.idempotency_key ≡ some key

-- What becomes of a request, given whether its body is that of the record.
abbrev pub verdict : Bool → IdempotencyRecord → RecordStatus → Result Response
verdict false known status =
    err (unprocessable "Idempotency key has already been used with a different request payload")
verdict true known pending =
    err (conflict "A request with this idempotency key is already being processed")
verdict true known completed = ok (record {
  status = or_default known.status_code 200;
  body = known.body;
  headers = map (λ e. (e.0, some e.1)) (or_default known.headers []);
})

module _ ⦃E : Env⦄ (server : IsServer E) where
  abbrev pub held : Request → String → World E.Remote → Option String
  held request key s = server.value (build_key (endpoint_of request) key) s.remote

  pub claim_taken :
      (endpoint key request_hash : String) (known : IdempotencyRecord) (s : World E.Remote)
      → IsReadable E known
      → s.client ≡ true
      → server.value (build_key endpoint key) s.remote ≡ some (E.idempotency_json.stringify known)
      → ((claim endpoint key request_hash s).0 ≡ ok (unclaimed (some known)))
        × ((claim endpoint key request_hash s).1.remote ≡ s.remote)
  unfolding claim
  claim_taken endpoint key request_hash known s readable on taken =
      let k = build_key endpoint key in
      let v = E.idempotency_json.stringify known in
      ground (
        arith,
        on,
        taken,
        server.set_taken k (E.idempotency_json.stringify (pending_record request_hash)) v
            E.idempotency_key_ttl_seconds s.remote taken,
        server.get_lem k s.remote,
        readable.not_empty,
        readable.read_back,
      )

  answer_known_lem :
      (request_hash : String) (known : IdempotencyRecord) (s : World E.Remote)
      → ((answer_known request_hash known s).0
          ≡ verdict (str_eq known.request_hash request_hash) known known.status)
        × ((answer_known request_hash known s).1.remote ≡ s.remote)
  unfolding answer_known
  answer_known_lem request_hash known s = go (str_eq known.request_hash request_hash) known.status
    where
      go :
          (same : Bool) (status : RecordStatus)
          → ((when_else
                (not same)
                (answer_mismatch {A = Response})
                (answer_completed known status)
                s).0
              ≡ verdict same known status)
            × ((when_else (not same) answer_mismatch (answer_completed known status) s).1.remote
                ≡ s.remote)
      go false status = (refl, refl)
      go true pending = (refl, refl)
      go true completed = (refl, refl)

  pub intercept-keyed :
      (request : Request) (key : String) (handle : Action Response) (s : World E.Remote)
      → IsKeyed request key
      → intercept true request handle s ≡ intercept_keyed request handle (some key) s
  unfolding intercept
  intercept-keyed request key handle s keyed = ground (arith, keyed.changes, keyed.given)

  -- With a Redis client, a request with a key that holds a record that JSON gives back gets 422 if its
  -- body has another hash than the record, else 409 if the record is pending, and else the response of the
  -- record; Redis stays as it is, and the result is the same for every handler.
  pub intercept_taken :
      (request : Request) (key : String) (known : IdempotencyRecord) (handle : Action Response)
      (s : World E.Remote)
      → IsReadable E known
      → s.client ≡ true
      → IsKeyed request key
      → held request key s ≡ some (E.idempotency_json.stringify known)
      → ((intercept true request handle s).0
          ≡ verdict (str_eq known.request_hash (hash_body request.body)) known known.status)
        × ((intercept true request handle s).1.remote ≡ s.remote)
  intercept_taken request key known handle s readable on keyed taken =
      let endpoint = endpoint_of request in
      let hash = hash_body request.body in
      let (found, kept) = claim_taken endpoint key hash known s readable on taken in
      let (answered, left) = answer_known_lem hash known (claim endpoint key hash s).1 in
      ground (arith, found, kept, answered, left, intercept-keyed request key handle s keyed)
