-- ===== src/Relay/Bridge/Routing.antt =====
-- Which response a future is set to.
use tailscale_koolshare.Common.{
  ℕ, pos, Bool, true, false, List, [], ◌∷◌, ◌++◌, map, Option, none, some, ◌≡◌, refl, sym, ap, eqb,
  eqb_iff, if◌then◌else◌, Bool-cases, inl, inr, All, ◌∙◌,
}
use tailscale_koolshare.Common.Outcome.{Result, ok, raise}
use tailscale_koolshare.Common.State.{continue, ◌>>=◌, lift}
use tailscale_koolshare.Python.Json.{Json, int, json_eq, item}
use tailscale_koolshare.Relay.Bridge.{
  Reply, response, closed, restarted, Bridge, find_key, key_of, fail_pending, with_process,
  is_process, reader_end, pop_pending, after_key, after_id, read_line, find_held, drop_held,
  set_found, set_result, Channel, spawn, is_running, restart_unless, register, write_request,
  request_start, request_end,
}
use tailscale_koolshare.Relay.Bridge.Steps.{Step, Run}
use tailscale_koolshare.Relay.Bridge.Accounts.{key_of-eq-ok}

-- The id of a response is that of the request.
pub record Answers (i : ℕ) (reply : Json) : Type 0 where
  pub id : Json
  pub given : item "id" reply ≡ ok id
  pub same : json_eq (int (pos i)) id ≡ true

abbrev pub IsOwn : ℕ × Reply → Type 0
IsOwn (i, response reply) = Answers i reply
IsOwn (i, closed) = Unit {0}
IsOwn (i, restarted) = Unit {0}

abbrev pub IsRouted : Bridge → Type 0
IsRouted b = All (λ e. Answers e.0 e.1) b.held × All IsOwn b.resolved

find_key-same :
    (v : Json) (l : List ℕ) (k : ℕ) → find_key v l ≡ some k → json_eq (int (pos k)) v ≡ true
unfolding find_key
find_key-same v [] k h = cc
find_key-same v (j ∷ l) k h = elim (Bool-cases (json_eq (int (pos j)) v)) [
  | inl same ↦
      let e : some j ≡ some k = sym (ap (λ b. if b then some j else find_key v l) same) ∙ h in
      let e' : j ≡ k = cc in ap (λ x. json_eq (int (pos x)) v) (sym e') ∙ same
  | inr other ↦ find_key-same v l k (sym (ap (λ b. if b then some j else find_key v l) other) ∙ h)
]

All-failed :
    (l : List ℕ) (m : List (ℕ × Reply)) (reply : Reply)
    → ((i : ℕ) → IsOwn (i, reply))
    → All IsOwn m
    → All IsOwn (map (λ i. (i, reply)) l ++ m)
All-failed [] m reply own rest = rest
All-failed (i ∷ l) m reply own rest = (own i, All-failed l m reply own rest)

reader_end-IsRouted : (p : ℕ) (b : Bridge) → IsRouted b → IsRouted (reader_end p b)
unfolding reader_end with_process fail_pending
reader_end-IsRouted p b (held, resolved) = elim (Bool-cases (is_process p b.process)) [
  | inl same ↦ rw same (held, All-failed b.pending b.resolved closed (λ i. tt) resolved)
  | inr other ↦ rw other (held, resolved)
]

after_key-IsRouted :
    (p : ℕ) (v reply : Json) (r : Result (Option ℕ)) (b : Bridge)
    → item "id" reply ≡ ok v
    → key_of v b.pending ≡ r
    → IsRouted b
    → IsRouted (after_key p reply r b)
unfolding after_key pop_pending
after_key-IsRouted p v reply (ok none) b given h routed = routed
after_key-IsRouted p v reply (ok (some k)) b given h (held, resolved) = (
  (
    record {
      id = v;
      given = given;
      same = find_key-same v b.pending k (key_of-eq-ok v b.pending h);
    },
    held,
  ),
  resolved,
)
after_key-IsRouted p v reply (raise e) b given h routed = reader_end-IsRouted p b routed

after_id-IsRouted :
    (p : ℕ) (reply : Json) (r : Result Json) (b : Bridge)
    → item "id" reply ≡ r
    → IsRouted b
    → IsRouted (after_id p reply r b)
unfolding after_id
after_id-IsRouted p reply (ok v) b h = after_key-IsRouted p v reply (key_of v b.pending) b h refl
after_id-IsRouted p reply (raise e) b h = reader_end-IsRouted p b

read_line-IsRouted :
    (p : ℕ) (line : Result Json) (b : Bridge) → IsRouted b → IsRouted (read_line p line b)
unfolding read_line
read_line-IsRouted p (ok reply) b = after_id-IsRouted p reply (item "id" reply) b refl
read_line-IsRouted p (raise e) b = reader_end-IsRouted p b

drop_held-All :
    (P : ℕ × Json → Type 0) (i : ℕ) (l : List (ℕ × Json)) → All P l → All P (drop_held i l)
unfolding drop_held
drop_held-All P i [] h = tt
drop_held-All P i ((j, reply) ∷ l) (here, rest) = elim (Bool-cases (eqb i j)) [
  | inl same ↦ rw same rest
  | inr other ↦ rw other (here, drop_held-All P i l rest)
]

find_held-Answers :
    (i : ℕ) (l : List (ℕ × Json)) (reply : Json)
    → find_held i l ≡ some reply
    → All (λ e. Answers e.0 e.1) l
    → Answers i reply
unfolding find_held
find_held-Answers i [] reply h all_held = cc
find_held-Answers i ((j, r) ∷ l) reply h (here, rest) = elim (Bool-cases (eqb i j)) [
  | inl same ↦
      let e : some r ≡ some reply = sym (ap (λ b. if b then some r else find_held i l) same) ∙ h in
      let e' : r ≡ reply = cc in let e'' : i ≡ j = (eqb_iff i j).0 same in rw (e'', sym e') here
  | inr other ↦
      find_held-Answers i l reply (sym (ap (λ b. if b then some r else find_held i l) other) ∙ h)
        rest
]

set_found-IsRouted :
    (i : ℕ) (found : Option Json) (b : Bridge)
    → find_held i b.held ≡ found
    → IsRouted b
    → IsRouted (set_found i found b)
unfolding set_found
set_found-IsRouted i none b h routed = routed
set_found-IsRouted i (some reply) b h (held, resolved) = (
  drop_held-All (λ e. Answers e.0 e.1) i b.held held,
  (find_held-Answers i b.held reply h held, resolved),
)

spawn-IsRouted : (spawned : Bool) (b : Bridge) → IsRouted b → IsRouted (spawn spawned b).1
unfolding spawn
spawn-IsRouted true b routed = routed
spawn-IsRouted false b routed = routed

restart_unless-IsRouted :
    (running : Bool) (c : Channel) (b : Bridge)
    → IsRouted b
    → IsRouted (restart_unless running c b).1
unfolding restart_unless fail_pending
restart_unless-IsRouted true c b routed = routed
restart_unless-IsRouted false c b (held, resolved) =
    spawn-IsRouted c.spawned (fail_pending restarted b)
      (held, All-failed b.pending b.resolved restarted (λ i. tt) resolved)

continue-IsRouted :
    (r : Result (Unit {0})) (written : Bool) (b : Bridge)
    → IsRouted b
    → IsRouted (continue r (λ _. register >>= λ i. lift (write_request written i)) b).1
unfolding register
continue-IsRouted (ok u) written b routed = routed
continue-IsRouted (raise e) written b routed = routed

request_start-IsRouted : (c : Channel) (b : Bridge) → IsRouted b → IsRouted (request_start c b).1
unfolding request_start
request_start-IsRouted c b routed =
    let running = is_running c b.process in
    let r = restart_unless running c b in
    continue-IsRouted r.0 c.written r.1 (restart_unless-IsRouted running c b routed)

set_result-IsRouted : (i : ℕ) (b : Bridge) → IsRouted b → IsRouted (set_result i b)
unfolding set_result
set_result-IsRouted i b = set_found-IsRouted i (find_held i b.held) b refl

request_end-IsRouted : (i : ℕ) (b : Bridge) → IsRouted b → IsRouted (request_end i b)
unfolding request_end
request_end-IsRouted i b routed = routed

Step-IsRouted : {b b' : Bridge} → Step b b' → IsRouted b → IsRouted b'
Step-IsRouted (Step.reads p line b) = read_line-IsRouted p line b
Step-IsRouted (Step.sets i b) = set_result-IsRouted i b
Step-IsRouted (Step.reader_ends p b) = reader_end-IsRouted p b
Step-IsRouted (Step.requests c b) = request_start-IsRouted c b
Step-IsRouted (Step.request_ends i b) = request_end-IsRouted i b

-- In any run of the threads of a bridge, a future that is set to a response, or is about to be,
-- gets one whose id is that of its own request.
pub Run-IsRouted : {b : Bridge} → Run b → IsRouted b
Run-IsRouted Run.begin = (tt, tt)
Run-IsRouted (Run.then run step) = Step-IsRouted step (Run-IsRouted run)
