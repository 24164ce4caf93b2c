-- ===== src/Relay/Forward.antt =====
-- `Relay.forward` of tools/smoke_httpdb.py.
pub mod Relayed
pub mod Answered
use tailscale_koolshare.Common.{
  ℕ, ℤ, String, Bool, true, false, ◌||◌, List, [], ◌∷◌, Option, none, some, ◌==◌,
}
use tailscale_koolshare.Common.Outcome.{
  Exception, value_error, runtime_error, type_error, key_error, attribute_error, index_error,
  http_error, os_error, file_exists_error, called_process_error, Result, ok, raise, ◌>>=◌, ◌>>◌,
}
use tailscale_koolshare.Python.Text.{starts_with}
use tailscale_koolshare.Python.Json.{Json, null, str, obj, field, end, item}

-- What a client has sent. A header that is missing is `none`.
pub record Received : Type 0 where
  pub command : String
  pub path : String
  pub content_length : Option String
  pub content_type : Option String

-- What a client is answered. The connection of one that has gone is left as it is.
pub data Answer : Type 0 where
  -- `send_error`
  error_page : ℕ → Answer
  -- the status and the content type as the response gives them
  page : Json → Json → List ℕ → Answer
  gone : Answer

-- `base64`, and `self.rfile.read(int(…))` for the text of a length.
pub record Codec : Type 0 where
  pub b64encode : List ℕ → String
  pub b64decode : Json → Result (List ℕ)
  pub read : String → Result (List ℕ)

-- `except (OSError, ValueError, subprocess.SubprocessError)`
unfoldable pub is_bad_gateway : Exception → Bool
is_bad_gateway (os_error) = true
is_bad_gateway (file_exists_error) = true
is_bad_gateway (http_error status) = true
is_bad_gateway (value_error message) = true
is_bad_gateway (called_process_error) = true
is_bad_gateway _ = false

abbrev or_default : String → Option String → String
or_default s none = s
or_default s (some t) = t

module _ (c : Codec) where
  -- `self.rfile.read(int(…)) if self.command == "POST" else None`, as the request holds it
  unfoldable pub body_of : Bool → Received → Result Json
  body_of true r = do body ← c.read (or_default "0" r.content_length); ok (str (c.b64encode body))
  body_of false r = ok null

  unfoldable pub request_of : Received → Json → Json
  request_of r body = obj (
      field "path" (str r.path) (
        field "body" body
          (field "content_type" (str (or_default "application/json" r.content_type)) end)))

  unfoldable pub is_forwarded : String → Bool
  is_forwarded path = starts_with "/_api/" path || starts_with "/_temp/" path

  -- Sending an answer, by whether the client takes it.
  unfoldable pub send : Bool → Result (Unit {0})
  send true = ok tt
  send false = raise os_error

  -- The answer that a response makes.
  unfoldable pub relay_response : Bool → Json → Result Answer
  relay_response taken response = do
    encoded ← item "body" response
    body ← c.b64decode encoded
    status ← item "status" response
    content_type ← item "content_type" response
    send taken
    ok (page status content_type body)

  -- By whether the error is one that is caught. The second answer may fail as well.
  unfoldable pub bad_gateway : Bool → Bool → Exception → Result Answer
  bad_gateway true true e = ok (error_page 502)
  bad_gateway true false e = ok gone
  bad_gateway false told e = raise e

  unfoldable pub or_bad_gateway : Bool → Result Answer → Result Answer
  or_bad_gateway told (ok answer) = ok answer
  or_bad_gateway told (raise e) = bad_gateway (is_bad_gateway e) told e

  -- By whether the path is one that is forwarded. `taken` and `told` are whether the client takes
  -- the answer, and the one after an error.
  unfoldable pub forward_if : Bool → (Json → Result Json) → Bool → Bool → Received → Result Answer
  forward_if false bridge taken told r = ok (error_page 404)
  forward_if true bridge taken told r = do
    body ← body_of (r.command == "POST") r
    or_bad_gateway told (bridge (request_of r body) >>= relay_response taken)

  unfoldable pub forward : (Json → Result Json) → Bool → Bool → Received → Result Answer
  forward bridge taken told r = forward_if (is_forwarded r.path) bridge taken told r
