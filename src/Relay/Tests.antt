-- ===== src/Relay/Tests.antt =====
-- Runs of the relay, and the theorems at concrete inputs.
use tailscale_koolshare.Python.Text.{starts_with}
use tailscale_koolshare.Common.{subst}
use tailscale_koolshare.Common.{pos, true, false, [], ◌∷◌, none, some, ◌≡◌, refl, inl}
use tailscale_koolshare.Common.Outcome.{ok, raise, os_error}
use tailscale_koolshare.Python.Json.{Json, int, str, obj, field, end, json_eq, item, lookup}
use tailscale_koolshare.Signing.Metadata.{has_key}
use tailscale_koolshare.Relay.Bridge.{
  response, closed, Bridge, initial, find_key, key_of, remove, taken, fail_pending, with_process,
  is_process, reader_end, pop_pending, after_key, after_id, read_line, find_held, drop_held,
  set_found, set_result, Channel, spawn, is_running, restart_unless, register, write_request,
  request_start, request_end, response_of,
}
use tailscale_koolshare.Relay.Bridge.Steps.{Step, Run, places}
use tailscale_koolshare.Relay.Bridge.Accounts.{Run-IsAccounted}
use tailscale_koolshare.Relay.Bridge.Routing.{IsRouted, Run-IsRouted}
use tailscale_koolshare.Relay.Bridge.Released.{reply_of, reader_end-Released}
use tailscale_koolshare.Relay.Forward.{
  Received, page, Codec, is_bad_gateway, body_of, request_of, is_forwarded, send, relay_response,
  bad_gateway, or_bad_gateway, forward_if, forward,
}
use tailscale_koolshare.Relay.Forward.Relayed.{IsRelayed, forward-IsRelayed}

abbrev fresh : Channel
fresh = record { running = false; spawned = true; written = true }

abbrev reply : Json
reply = obj (
    field "id" (int (pos 1)) (
      field "status" (int (pos 200))
        (field "content_type" (str "text/plain") (field "body" (str "b2s=") end))))

-- One request, its response, and a second request that is still waiting.
abbrev answered : Bridge
answered = set_result 1 (read_line 1 (ok reply) (request_start fresh initial).1)

abbrev waiting : Bridge
waiting = record {
  process = some 1;
  pending = 2 ∷ [];
  next_id = 2;
  started = 1;
  held = [];
  resolved = (1, response reply) ∷ [];
  abandoned = [];
}

opened : Unit {0}
unfolding starts_with find_key key_of remove taken fail_pending with_process is_process reader_end
    pop_pending after_key after_id read_line find_held drop_held set_found set_result spawn
    is_running restart_unless register write_request request_start request_end response_of lookup
    item json_eq has_key reply_of is_bad_gateway body_of request_of is_forwarded send relay_response
    bad_gateway or_bad_gateway forward_if forward
opened = tt

is_waiting :
    (request_start (record { running = true; spawned = true; written = true }) answered).1 ≡ waiting
unfolding opened
is_waiting = refl

response_runs : response_of os_error (reply_of 1 waiting.resolved) ≡ ok reply
unfolding opened
response_runs = refl

late_runs : response_of os_error (reply_of 2 (request_end 2 waiting).resolved) ≡ raise os_error
unfolding opened
late_runs = refl

first : Run answered
first =
    Run.then
      (Run.then (Run.then Run.begin (Step.requests fresh initial)) (Step.reads 1 (ok reply) _))
      (Step.sets 1 _)

run : Run waiting
run = subst Run is_waiting (
    Run.then first
      (Step.requests (record { running = true; spawned = true; written = true }) answered))

Run-IsAccounted_example : places 1 waiting ≡ 1
Run-IsAccounted_example = Run-IsAccounted run 1

Run-IsRouted_example : IsRouted waiting
Run-IsRouted_example = Run-IsRouted run

reader_end_example :
    ((reader_end 1 waiting).pending ≡ [])
    × (reply_of 2 (reader_end 1 waiting).resolved ≡ some closed)
reader_end_example = reader_end-Released 1 waiting 2 refl (inl refl)

-- Texts that stand for their codecs.
abbrev codec : Codec
codec = record {
  b64encode = λ body. "b2s=";
  b64decode = λ v. ok (111 ∷ 107 ∷ []);
  read = λ length. ok (111 ∷ 107 ∷ []);
}

abbrev received : Received
received = record { command = "GET"; path = "/_api/x"; content_length = none; content_type = none }

relays :
    forward codec (λ request. ok reply) true true received
    ≡ ok (page (int (pos 200)) (str "text/plain") (111 ∷ 107 ∷ []))
unfolding opened
relays = refl

forward_example :
    IsRelayed codec
      (λ request. ok reply)
      received
      (int (pos 200))
      (str "text/plain")
      (111 ∷ 107 ∷ [])
forward_example = forward-IsRelayed codec (λ request. ok reply) true true received _ _ _ relays
