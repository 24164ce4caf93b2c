-- ===== src/Relay/Bridge.antt =====
-- `Bridge` of tools/smoke_httpdb.py, whose threads share the pending requests. A step is what one
-- thread does under the lock, or between two such parts. Each request has a future of its own,
-- named by the id of the request.
pub mod Steps
pub mod Accounts
pub mod Routing
pub mod Released
use tailscale_koolshare.Common.{
  ℕ, suc, pos, String, Bool, true, false, not, ◌&&◌, List, [], ◌∷◌, ◌++◌, map, Option, none, some,
  eqb, if◌then◌else◌, keep,
}
use tailscale_koolshare.Common.Outcome.{Exception, os_error, type_error, Result, ok, raise}
use tailscale_koolshare.Common.State.{Run, ◌>>=◌, ◌>>◌, lift, gets, modify, pure}
use tailscale_koolshare.Python.Json.{Json, null, bool, int, float, str, arr, obj, json_eq, item}
use tailscale_koolshare.Signing.Metadata.{has_key}

-- What a future is set to.
pub data Reply : Type 0 where
  response : Json → Reply
  closed : Reply
  restarted : Reply

-- The first three fields are those of the object; a process is named by its number. The others say
-- what has become of the futures that are no longer pending.
pub record Bridge : Type 0 where
  pub process : Option ℕ
  pub pending : List ℕ
  pub next_id : ℕ
  -- the processes started so far
  pub started : ℕ
  -- popped by a reader that has not set the result yet
  pub held : List (ℕ × Json)
  -- set, the latest first
  pub resolved : List (ℕ × Reply)
  -- popped by the thread of the request
  pub abandoned : List ℕ

abbrev pub initial : Bridge
initial = record {
  process = none;
  pending = [];
  next_id = 0;
  started = 0;
  held = [];
  resolved = [];
  abandoned = [];
}

-- The key of the pending requests that is equal to a value; a list or a dict is no key.
unfoldable pub find_key : Json → List ℕ → Option ℕ
find_key v [] = none
find_key v (i ∷ is') = let rest = find_key v is' in if json_eq (int (pos i)) v then some i else rest

unfoldable pub key_of : Json → List ℕ → Result (Option ℕ)
key_of (arr vs) is' = raise type_error
key_of (obj fs) is' = raise type_error
key_of v is' = ok (find_key v is')

unfoldable pub remove : ℕ → List ℕ → List ℕ
remove i [] = []
remove i (j ∷ js) = let rest = remove i js in if eqb i j then js else j ∷ rest

-- What `remove` removes.
unfoldable pub taken : ℕ → List ℕ → List ℕ
taken i [] = []
taken i (j ∷ js) = let rest = taken i js in if eqb i j then i ∷ [] else rest

-- Each of the pending futures is set to an exception, and the dict is cleared.
unfoldable pub fail_pending : Reply → Bridge → Bridge
fail_pending reply b = record {
  process = b.process;
  pending = [];
  next_id = b.next_id;
  started = b.started;
  held = b.held;
  resolved = map (λ i. (i, reply)) b.pending ++ b.resolved;
  abandoned = b.abandoned;
}

unfoldable pub with_process : Option ℕ → Bridge → Bridge
with_process process b = record {
  process = process;
  pending = b.pending;
  next_id = b.next_id;
  started = b.started;
  held = b.held;
  resolved = b.resolved;
  abandoned = b.abandoned;
}

unfoldable pub is_process : ℕ → Option ℕ → Bool
is_process p none = false
is_process p (some q) = eqb p q

-- The `finally` clause of `reader`.
unfoldable pub reader_end : ℕ → Bridge → Bridge
reader_end p b = if is_process p b.process then fail_pending closed (with_process none b) else b

-- `self.pending.pop(response["id"], None)`, for the key that was found.
unfoldable pub pop_pending : Json → Option ℕ → Bridge → Bridge
pop_pending reply none b = b
pop_pending reply (some i) b = record {
  process = b.process;
  pending = remove i b.pending;
  next_id = b.next_id;
  started = b.started;
  held = (i, reply) ∷ b.held;
  resolved = b.resolved;
  abandoned = b.abandoned;
}

-- A line that cannot be read, or has no id that can be a key, ends the loop.
unfoldable pub after_key : ℕ → Json → Result (Option ℕ) → Bridge → Bridge
after_key p reply (ok key) b = pop_pending reply key b
after_key p reply (raise e) b = reader_end p b

unfoldable pub after_id : ℕ → Json → Result Json → Bridge → Bridge
after_id p reply (ok v) b = after_key p reply (key_of v b.pending) b
after_id p reply (raise e) b = reader_end p b

-- The body of the loop of `reader`, up to the release of the lock.
unfoldable pub read_line : ℕ → Result Json → Bridge → Bridge
read_line p (ok reply) b = after_id p reply (item "id" reply) b
read_line p (raise e) b = reader_end p b

unfoldable pub find_held : ℕ → List (ℕ × Json) → Option Json
find_held i [] = none
find_held i ((j, reply) ∷ held) =
    let rest = find_held i held in if eqb i j then some reply else rest

unfoldable pub drop_held : ℕ → List (ℕ × Json) → List (ℕ × Json)
drop_held i [] = []
drop_held i ((j, reply) ∷ held) =
    let rest = drop_held i held in if eqb i j then held else (j, reply) ∷ rest

unfoldable pub set_found : ℕ → Option Json → Bridge → Bridge
set_found i none b = b
set_found i (some reply) b = record {
  process = b.process;
  pending = b.pending;
  next_id = b.next_id;
  started = b.started;
  held = drop_held i b.held;
  resolved = (i, response reply) ∷ b.resolved;
  abandoned = b.abandoned;
}

-- `future.set_result(response)`, for a future that a reader has popped.
unfoldable pub set_result : ℕ → Bridge → Bridge
set_result i b = set_found i (find_held i b.held) b

-- What the first part of `request` finds: whether the process is still running, whether a new one
-- can be started, and whether the request can be written to it.
pub record Channel : Type 0 where
  pub running : Bool
  pub spawned : Bool
  pub written : Bool

unfoldable pub spawn : Bool → Run Bridge (Unit {0})
spawn false b = (raise os_error, b)
spawn true b = (
  ok tt,
  record {
    process = some (suc b.started);
    pending = b.pending;
    next_id = b.next_id;
    started = suc b.started;
    held = b.held;
    resolved = b.resolved;
    abandoned = b.abandoned;
  },
)

unfoldable pub is_running : Channel → Option ℕ → Bool
is_running c none = false
is_running c (some p) = c.running

unfoldable pub restart_unless : Bool → Channel → Run Bridge (Unit {0})
restart_unless true c = pure tt
restart_unless false c = do modify (fail_pending restarted); spawn c.spawned

-- A new id, and its future among the pending ones.
unfoldable pub register : Run Bridge ℕ
register b = (
  ok (suc b.next_id),
  record {
    process = b.process;
    pending = suc b.next_id ∷ b.pending;
    next_id = suc b.next_id;
    started = b.started;
    held = b.held;
    resolved = b.resolved;
    abandoned = b.abandoned;
  },
)

unfoldable pub write_request : Bool → ℕ → Result ℕ
write_request true i = ok i
write_request false i = raise os_error

-- The part of `request` that holds the lock. The request that is not written stays pending.
unfoldable pub request_start : Channel → Run Bridge ℕ
request_start c = do
  running ← gets (λ b. is_running c b.process)
  restart_unless running c
  i ← register
  lift (write_request c.written i)

-- The `finally` clause of `request`.
unfoldable pub request_end : ℕ → Bridge → Bridge
request_end i b = record {
  process = b.process;
  pending = remove i b.pending;
  next_id = b.next_id;
  started = b.started;
  held = b.held;
  resolved = b.resolved;
  abandoned = taken i b.pending ++ b.abandoned;
}

-- What `future.result(timeout=20)` gives, and the test after it: `none` stands for a future that
-- is not set in time, for which the error is a parameter.
unfoldable pub response_of : Exception → Option Reply → Result Json
response_of timeout none = raise timeout
response_of timeout (some closed) = raise os_error
response_of timeout (some restarted) = raise os_error
response_of timeout (some (response reply)) =
    if has_key "error" reply then raise os_error else ok reply
