-- ===== src/Http.antt =====
-- What the handlers of the Fleet Manager get and return: statuses, responses, request headers and
-- JSON values.
use jw_swarm.Common.{ℕ, List, String, Bool, Option}
use jw_swarm.Proto.{Value}

pub data StatusCode : Type 0 where
  bad_request unauthorized not_found internal_server_error bad_gateway : StatusCode
  service_unavailable : StatusCode

-- A body sent with status 200, or `{"error": {"message": ...}}` with another status.
pub data Response {ℓ} (A : Type ℓ) : Type ℓ where
  json : A → Response A
  error_response : StatusCode → String → Response A

-- The request headers, of which the handlers read one: the value of `Authorization`, if it is
-- there and is visible ASCII.
pub record HeaderMap : Type 0 where
  pub authorization : Option String

-- The accessors of `serde_json::Value`.
pub record Json : Type 0 where
  pub get : Value → String → Option Value
  pub as_str : Value → Option String
  pub as_bool : Value → Option Bool
  pub as_u64 : Value → Option ℕ
  pub as_array : Value → Option (List Value)
