-- ===== src/Relay/Bridge/Released.antt =====
-- What becomes of the pending requests when the process ends, or another is started.
use tailscale_koolshare.Common.{
  ℕ, Bool, true, false, List, [], ◌∷◌, ◌++◌, map, Option, none, some, ◌≡◌, refl, ap, eqb, eqb_iff,
  if◌then◌else◌, Bool-cases, inl, inr, In, ◌∙◌,
}
use tailscale_koolshare.Common.State.{continue, ◌>>=◌, lift}
use tailscale_koolshare.Relay.Bridge.{
  Reply, closed, restarted, Bridge, fail_pending, with_process, is_process, reader_end, Channel,
  spawn, is_running, restart_unless, register, write_request, request_start,
}

-- What a future is set to, if it is.
unfoldable pub reply_of : ℕ → List (ℕ × Reply) → Option Reply
reply_of i [] = none
reply_of i ((j, reply) ∷ l) = let rest = reply_of i l in if eqb i j then some reply else rest

reply_of-failed :
    (i : ℕ) (l : List ℕ) (m : List (ℕ × Reply)) (reply : Reply)
    → In i l
    → reply_of i (map (λ j. (j, reply)) l ++ m) ≡ some reply
unfolding reply_of
reply_of-failed i [] m reply h = absurd h
reply_of-failed i (j ∷ l) m reply (inl same) = rw ((eqb_iff i j).1 same) refl
reply_of-failed i (j ∷ l) m reply (inr later) = elim (Bool-cases (eqb i j)) [
  | inl same ↦ rw same refl
  | inr other ↦ rw other (reply_of-failed i l m reply later)
]

-- When the reader of the current process ends, no request is pending any more, and the future of
-- each one that was pending is set to the error of a closed channel.
pub reader_end-Released :
    (p : ℕ) (b : Bridge) (i : ℕ)
    → b.process ≡ some p
    → In i b.pending
    → ((reader_end p b).pending ≡ []) × (reply_of i (reader_end p b).resolved ≡ some closed)
unfolding reader_end is_process fail_pending with_process
reader_end-Released p b i current waits =
    rw (current, (eqb_iff p p).1 refl) (refl, reply_of-failed i b.pending b.resolved closed waits)

spawn-resolved :
    (spawned written : Bool) (b : Bridge)
    → (continue
        (spawn spawned b).0
        (λ _. register >>= λ i. lift (write_request written i))
        (spawn spawned b).1).1.resolved
      ≡ b.resolved
unfolding spawn register
spawn-resolved true written b = refl
spawn-resolved false written b = refl

restart-Released :
    (running : Bool) (c : Channel) (b : Bridge) (i : ℕ)
    → running ≡ false
    → In i b.pending
    → let r = restart_unless running c b in
      reply_of i
        (continue r.0 (λ _. register >>= λ j. lift (write_request c.written j)) r.1).1.resolved
      ≡ some restarted
unfolding restart_unless fail_pending
restart-Released true c b i over waits = cc
restart-Released false c b i over waits =
    ap (reply_of i) (spawn-resolved c.spawned c.written (fail_pending restarted b))
    ∙ reply_of-failed i b.pending b.resolved restarted waits

-- A request that finds no running process sets the future of each request that is pending to the
-- error of a restarted channel, whether or not a new process can be started and written to.
pub request_start-Released :
    (c : Channel) (b : Bridge) (i : ℕ)
    → is_running c b.process ≡ false
    → In i b.pending
    → reply_of i (request_start c b).1.resolved ≡ some restarted
unfolding request_start
request_start-Released c b i over waits = restart-Released (is_running c b.process) c b i over waits
