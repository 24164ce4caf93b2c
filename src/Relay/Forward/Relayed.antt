-- ===== src/Relay/Forward/Relayed.antt =====
-- What a client of the relay is answered.
use tailscale_koolshare.Common.{ℕ, Bool, true, false, List, ◌≡◌, refl, ap, ◌==◌, ◌∙◌}
use tailscale_koolshare.Common.Outcome.{Exception, Result, ok, raise, ◌>>=◌, >>=-eq-ok, >>-eq-ok}
use tailscale_koolshare.Python.Json.{Json, item}
use tailscale_koolshare.Relay.Forward.{
  Received, Answer, page, Codec, is_bad_gateway, body_of, request_of, is_forwarded, send,
  relay_response, bad_gateway, or_bad_gateway, forward_if, forward,
}

-- A page that is the response of the bridge to the request of the client.
pub record IsRelayed (c : Codec) (bridge : Json → Result Json) (r : Received)
    (status content_type : Json) (body : List ℕ) : Type 0 where
  pub given : Json
  pub response : Json
  pub encoded : Json
  pub allowed : is_forwarded c r.path ≡ true
  pub taken : body_of c (r.command == "POST") r ≡ ok given
  pub answered : bridge (request_of c r given) ≡ ok response
  pub has_body : item "body" response ≡ ok encoded
  pub decoded : c.b64decode encoded ≡ ok body
  pub has_status : item "status" response ≡ ok status
  pub has_type : item "content_type" response ≡ ok content_type

module _ (c : Codec) (bridge : Json → Result Json) where
  bad_gateway-page :
      (caught told : Bool) (e : Exception) {s t : Json} {b : List ℕ}
      → bad_gateway c caught told e ≡ ok (page s t b)
      → ⊥
  unfolding bad_gateway
  bad_gateway-page true true e h = cc
  bad_gateway-page true false e h = cc
  bad_gateway-page false told e h = cc

  or_bad_gateway-page :
      (told : Bool) (result : Result Answer) {s t : Json} {b : List ℕ}
      → or_bad_gateway c told result ≡ ok (page s t b)
      → result ≡ ok (page s t b)
  unfolding or_bad_gateway
  or_bad_gateway-page told (ok answer) h = h
  or_bad_gateway-page told (raise e) h = absurd (bad_gateway-page (is_bad_gateway e) told e h)

  forward_if-IsRelayed :
      (allowed taken told : Bool) (r : Received) (status content_type : Json) (body : List ℕ)
      → is_forwarded c r.path ≡ allowed
      → forward_if c allowed bridge taken told r ≡ ok (page status content_type body)
      → IsRelayed c bridge r status content_type body
  unfolding forward_if relay_response
  forward_if-IsRelayed false taken told r status content_type body allowed h = cc
  forward_if-IsRelayed true taken told r status content_type body allowed h =
      let (given, read, h₁) = >>=-eq-ok (body_of c (r.command == "POST") r) _ h in
      let h₂ =
        or_bad_gateway-page told (bridge (request_of c r given) >>= relay_response c taken) h₁ in
      let (response, answered, h₃) = >>=-eq-ok (bridge (request_of c r given)) _ h₂ in
      let (encoded, has_body, h₄) = >>=-eq-ok (item "body" response) _ h₃ in
      let (body', decoded, h₅) = >>=-eq-ok (c.b64decode encoded) _ h₄ in
      let (status', has_status, h₆) = >>=-eq-ok (item "status" response) _ h₅ in
      let (content_type', has_type, h₇) = >>=-eq-ok (item "content_type" response) _ h₆ in
      let (sent, h₈) = >>-eq-ok (send c taken) _ h₇ in
      let same_body : body' ≡ body = cc in
      let same_status : status' ≡ status = cc in
      let same_type : content_type' ≡ content_type = cc in
      record {
        given = given;
        response = response;
        encoded = encoded;
        allowed = allowed;
        taken = read;
        answered = answered;
        has_body = has_body;
        decoded = decoded ∙ ap ok same_body;
        has_status = has_status ∙ ap ok same_status;
        has_type = has_type ∙ ap ok same_type;
      }

  -- A client of the relay is answered with a page only for a path below /_api/ or /_temp/, and the
  -- page has the status, the content type and the decoded body of the bridge's response to the
  -- client's own request.
  pub forward-IsRelayed :
      (taken told : Bool) (r : Received) (status content_type : Json) (body : List ℕ)
      → forward c bridge taken told r ≡ ok (page status content_type body)
      → IsRelayed c bridge r status content_type body
  unfolding forward
  forward-IsRelayed taken told r status content_type body h =
      forward_if-IsRelayed (is_forwarded c r.path) taken told r status content_type body refl h
