-- ===== src/Relay/Forward/Answered.antt =====
-- How the relay answers a client, whatever the bridge does.
use tailscale_koolshare.Common.{ℕ, String, Bool, true, false, List, ◌≡◌, ◌⊎◌, ◌==◌}
use tailscale_koolshare.Common.Outcome.{
  Exception, value_error, runtime_error, type_error, key_error, attribute_error, index_error,
  http_error, os_error, file_exists_error, called_process_error, Result, ok, raise,
}
use tailscale_koolshare.Python.Text.{starts_with}
use tailscale_koolshare.Python.Json.{Json, item}
use tailscale_koolshare.Relay.Forward.{
  Received, Answer, error_page, page, gone, Codec, body_of, request_of,
}

-- An OSError, a ValueError or a SubprocessError, with the errors that derive from them.
pub data IsGatewayError : Exception → Type 0 where
  os : IsGatewayError (os_error)
  file_exists : IsGatewayError (file_exists_error)
  http : {status : ℕ} → IsGatewayError (http_error status)
  value : {message : String} → IsGatewayError (value_error message)
  subprocess : IsGatewayError (called_process_error)

-- Any other error.
pub data IsOtherError : Exception → Type 0 where
  runtime : {message : String} → IsOtherError (runtime_error message)
  type_of : IsOtherError (type_error)
  key : {name : String} → IsOtherError (key_error name)
  attribute : IsOtherError (attribute_error)
  index : IsOtherError (index_error)

-- By whether the error is caught.
abbrev Sorted : Bool → Exception → Type 0
Sorted true e = IsGatewayError e
Sorted false e = IsOtherError e

-- The path is below /_api/ or /_temp/.
abbrev pub IsAllowed : Received → Type 0
IsAllowed r = (starts_with "/_api/" r.path ≡ true) ⊎ (starts_with "/_temp/" r.path ≡ true)

module _ (c : Codec) (bridge : Json → Result Json) where
  -- Why the relay has no answer of the bridge to hand on.
  pub data Fails (taken : Bool) (request : Json) : Exception → Type 0 where
    bridge_raised : {e : Exception} → bridge request ≡ raise e → Fails taken request e
    no_body :
        {response : Json} {e : Exception}
        → bridge request ≡ ok response
        → item "body" response ≡ raise e
        → Fails taken request e
    no_encoding :
        {response encoded : Json} {e : Exception}
        → bridge request ≡ ok response
        → item "body" response ≡ ok encoded
        → c.b64decode encoded ≡ raise e
        → Fails taken request e
    no_status :
        {response : Json} {e : Exception}
        → bridge request ≡ ok response
        → item "status" response ≡ raise e
        → Fails taken request e
    no_type :
        {response : Json} {e : Exception}
        → bridge request ≡ ok response
        → item "content_type" response ≡ raise e
        → Fails taken request e
    not_taken : taken ≡ false → Fails taken request (os_error)

  -- What comes of a request. `taken` and `told` are whether the client takes the answer, and the one
  -- after an error.
  pub data IsAnswered (taken told : Bool) (r : Received) : Result Answer → Type 0 where
    not_found :
        starts_with "/_api/" r.path ≡ false
        → starts_with "/_temp/" r.path ≡ false
        → IsAnswered taken told r (ok (error_page 404))
    unread :
        {e : Exception}
        → IsAllowed r
        → body_of c (r.command == "POST") r ≡ raise e
        → IsAnswered taken told r (raise e)
    relayed :
        {given response encoded status content_type : Json} {body : List ℕ}
        → IsAllowed r
        → body_of c (r.command == "POST") r ≡ ok given
        → bridge (request_of c r given) ≡ ok response
        → item "body" response ≡ ok encoded
        → c.b64decode encoded ≡ ok body
        → item "status" response ≡ ok status
        → item "content_type" response ≡ ok content_type
        → taken ≡ true
        → IsAnswered taken told r (ok (page status content_type body))
    told_so :
        {given : Json} {e : Exception}
        → IsAllowed r
        → body_of c (r.command == "POST") r ≡ ok given
        → Fails taken (request_of c r given) e
        → IsGatewayError e
        → told ≡ true
        → IsAnswered taken told r (ok (error_page 502))
    left_alone :
        {given : Json} {e : Exception}
        → IsAllowed r
        → body_of c (r.command == "POST") r ≡ ok given
        → Fails taken (request_of c r given) e
        → IsGatewayError e
        → told ≡ false
        → IsAnswered taken told r (ok gone)
    passed_on :
        {given : Json} {e : Exception}
        → IsAllowed r
        → body_of c (r.command == "POST") r ≡ ok given
        → Fails taken (request_of c r given) e
        → IsOtherError e
        → IsAnswered taken told r (raise e)
