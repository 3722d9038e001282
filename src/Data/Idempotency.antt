-- ===== src/Data/Idempotency.antt =====
-- The types of common/idempotency/.
use trustflow_backend.Prelude.{ℕ, String, Option}
use trustflow_backend.Prelude.JsMap.{JsMap}

pub data RecordStatus : Type 0 where
  pending completed : RecordStatus

-- A body is the text of its JSON; `undefined` has none.
pub record IdempotencyRecord : Type 0 where
  pub version : ℕ
  pub request_hash : String
  pub status : RecordStatus
  pub status_code : Option ℕ
  pub body : Option String
  pub headers : Option (JsMap String)

pub data ClaimResult : Type 0 where
  claimed : ClaimResult
  unclaimed : Option IdempotencyRecord → ClaimResult

-- What the interceptor looks at of a request.
pub record Request : Type 0 where
  pub method : String
  pub idempotency_key : Option String  -- headers['idempotency-key']
  pub sub : Option String  -- user?.sub
  pub ip : Option String
  pub route_path : Option String  -- route?.path
  pub url : String
  pub body : Option String

-- A response once it is complete; a header may be `undefined`.
pub record Response : Type 0 where
  pub status : ℕ
  pub body : Option String
  pub headers : JsMap (Option String)
