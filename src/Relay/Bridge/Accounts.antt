-- ===== src/Relay/Bridge/Accounts.antt =====
-- Where a request is after each step.
use tailscale_koolshare.Common.{
  ℕ, Bool, true, false, List, Option, none, some, ◌≡◌, refl, ap, arith, Bool-cases, inl, inr, ◌∙◌,
}
use tailscale_koolshare.Common.Outcome.{Result, ok, raise, ok-injective}
use tailscale_koolshare.Common.State.{continue, ◌>>=◌, lift}
use tailscale_koolshare.Python.Json.{Json, null, bool, int, float, str, arr, obj, item}
use tailscale_koolshare.Relay.Bridge.{
  Reply, closed, restarted, Bridge, find_key, key_of, fail_pending, with_process, is_process,
  reader_end, pop_pending, after_key, after_id, read_line, find_held, set_found, set_result, taken,
  Channel, spawn, is_running, restart_unless, register, write_request, request_start, request_end,
}
use tailscale_koolshare.Relay.Bridge.Steps.{
  Step, Run, tally, ids, places, IsAccounted, tally-append, tally-remove, tally-find_key,
  tally-drop_held, ids-reply,
}

-- The requests are the same, and each is in as many places as before.
abbrev Keeps : Bridge → Bridge → Type 0
Keeps b b' = (b'.next_id ≡ b.next_id) × ((i : ℕ) → places i b' ≡ places i b)

fail_pending-Keeps : (reply : Reply) (b : Bridge) → Keeps b (fail_pending reply b)
unfolding fail_pending
fail_pending-Keeps reply b = (
  refl,
  λ i.
      let e = ap (tally i) (ids-reply reply b.pending b.resolved) in
      let e' = tally-append i b.pending (ids b.resolved) in omega arith,
)

reader_end-Keeps : (p : ℕ) (b : Bridge) → Keeps b (reader_end p b)
unfolding reader_end with_process
reader_end-Keeps p b = elim (Bool-cases (is_process p b.process)) [
  | inl same ↦ rw same (fail_pending-Keeps closed (with_process none b))
  | inr other ↦ rw other (refl, λ i. refl)
]

pop_pending-Keeps :
    (v reply : Json) (key : Option ℕ) (b : Bridge)
    → find_key v b.pending ≡ key
    → Keeps b (pop_pending reply key b)
unfolding pop_pending
pop_pending-Keeps v reply none b h = (refl, λ i. refl)
pop_pending-Keeps v reply (some k) b h =
    (refl, λ i. let e = tally-find_key i v b.pending k h in ground arith)

pub key_of-eq-ok :
    (v : Json) (l : List ℕ) {key : Option ℕ} → key_of v l ≡ ok key → find_key v l ≡ key
unfolding key_of
key_of-eq-ok (arr vs) l h = cc
key_of-eq-ok (obj fs) l h = cc
key_of-eq-ok null l h = ok-injective h
key_of-eq-ok (bool b) l h = ok-injective h
key_of-eq-ok (int n) l h = ok-injective h
key_of-eq-ok (float m k) l h = ok-injective h
key_of-eq-ok (str s) l h = ok-injective h

after_key-Keeps :
    (p : ℕ) (v reply : Json) (r : Result (Option ℕ)) (b : Bridge)
    → key_of v b.pending ≡ r
    → Keeps b (after_key p reply r b)
unfolding after_key
after_key-Keeps p v reply (ok key) b h =
    pop_pending-Keeps v reply key b (key_of-eq-ok v b.pending h)
after_key-Keeps p v reply (raise e) b h = reader_end-Keeps p b

after_id-Keeps :
    (p : ℕ) (reply : Json) (r : Result Json) (b : Bridge) → Keeps b (after_id p reply r b)
unfolding after_id
after_id-Keeps p reply (ok v) b = after_key-Keeps p v reply (key_of v b.pending) b refl
after_id-Keeps p reply (raise e) b = reader_end-Keeps p b

read_line-Keeps : (p : ℕ) (line : Result Json) (b : Bridge) → Keeps b (read_line p line b)
unfolding read_line
read_line-Keeps p (ok reply) b = after_id-Keeps p reply (item "id" reply) b
read_line-Keeps p (raise e) b = reader_end-Keeps p b

set_found-Keeps :
    (i : ℕ) (found : Option Json) (b : Bridge)
    → find_held i b.held ≡ found
    → Keeps b (set_found i found b)
unfolding set_found
set_found-Keeps i none b h = (refl, λ j. refl)
set_found-Keeps i (some reply) b h =
    (refl, λ j. let e = tally-drop_held j i b.held reply h in ground arith)

set_result-Keeps : (i : ℕ) (b : Bridge) → Keeps b (set_result i b)
unfolding set_result
set_result-Keeps i b = set_found-Keeps i (find_held i b.held) b refl

request_end-Keeps : (i : ℕ) (b : Bridge) → Keeps b (request_end i b)
unfolding request_end
request_end-Keeps i b = (
  refl,
  λ j.
      let e = tally-remove j i b.pending in
      let e' = tally-append j (taken i b.pending) b.abandoned in ground arith,
)

Keeps-IsAccounted : (b b' : Bridge) → Keeps b b' → IsAccounted b → IsAccounted b'
Keeps-IsAccounted b b' (same, places_same) accounted i = rw same (places_same i ∙ accounted i)

spawn-Keeps : (spawned : Bool) (b : Bridge) → Keeps b (spawn spawned b).1
unfolding spawn
spawn-Keeps true b = (refl, λ i. refl)
spawn-Keeps false b = (refl, λ i. refl)

restart_unless-IsAccounted :
    (running : Bool) (c : Channel) (b : Bridge)
    → IsAccounted b
    → IsAccounted (restart_unless running c b).1
unfolding restart_unless
restart_unless-IsAccounted true c b accounted = accounted
restart_unless-IsAccounted false c b accounted =
    let failed = fail_pending restarted b in
    Keeps-IsAccounted failed (spawn c.spawned failed).1 (spawn-Keeps c.spawned failed)
      (Keeps-IsAccounted b failed (fail_pending-Keeps restarted b) accounted)

register-IsAccounted : (b : Bridge) → IsAccounted b → IsAccounted (register b).1
unfolding register
register-IsAccounted b accounted i = let e = accounted i in ground arith

continue-IsAccounted :
    (r : Result (Unit {0})) (written : Bool) (b : Bridge)
    → IsAccounted b
    → IsAccounted (continue r (λ _. register >>= λ i. lift (write_request written i)) b).1
unfolding register
continue-IsAccounted (ok u) written b accounted = register-IsAccounted b accounted
continue-IsAccounted (raise e) written b accounted = accounted

request_start-IsAccounted :
    (c : Channel) (b : Bridge) → IsAccounted b → IsAccounted (request_start c b).1
unfolding request_start
request_start-IsAccounted c b accounted =
    let running = is_running c b.process in
    let r = restart_unless running c b in
    continue-IsAccounted r.0 c.written r.1 (restart_unless-IsAccounted running c b accounted)

Step-IsAccounted : {b b' : Bridge} → Step b b' → IsAccounted b → IsAccounted b'
Step-IsAccounted (Step.reads p line b) =
    Keeps-IsAccounted b (read_line p line b) (read_line-Keeps p line b)
Step-IsAccounted (Step.sets i b) = Keeps-IsAccounted b (set_result i b) (set_result-Keeps i b)
Step-IsAccounted (Step.reader_ends p b) =
    Keeps-IsAccounted b (reader_end p b) (reader_end-Keeps p b)
Step-IsAccounted (Step.requests c b) = request_start-IsAccounted c b
Step-IsAccounted (Step.request_ends i b) =
    Keeps-IsAccounted b (request_end i b) (request_end-Keeps i b)

-- In any run of the threads of a bridge, in any order of their steps and with any failures of
-- processes and lines, each request made so far is in exactly one place: pending, popped by a
-- reader, set, or given up by its own thread; so no future is set twice, and nothing else is in
-- any of these places.
pub Run-IsAccounted : {b : Bridge} → Run b → IsAccounted b
Run-IsAccounted Run.begin = λ i. ground arith
Run-IsAccounted (Run.then run step) = Step-IsAccounted step (Run-IsAccounted run)
