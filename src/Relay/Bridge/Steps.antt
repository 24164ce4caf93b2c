-- ===== src/Relay/Bridge/Steps.antt =====
-- The runs of the threads that share a bridge, and what has become of each request.
use tailscale_koolshare.Common.{
  ℕ, pos, List, [], ◌∷◌, ◌++◌, map, some, ◌≡◌, refl, sym, ap, ◌+◌, eqb, leb, arith, if◌then◌else◌,
  Bool-cases, inl, inr, ◌∙◌, ◌&&◌,
}
use tailscale_koolshare.Common.Outcome.{Result}
use tailscale_koolshare.Python.Json.{Json, int, json_eq}
use tailscale_koolshare.Relay.Bridge.{
  Reply, Bridge, initial, find_key, remove, reader_end, read_line, find_held, drop_held, set_result,
  taken, Channel, request_start, request_end,
}

pub data Step : Bridge → Bridge → Type 0 where
  reads : (p : ℕ) (line : Result Json) (b : Bridge) → Step b (read_line p line b)
  sets : (i : ℕ) (b : Bridge) → Step b (set_result i b)
  reader_ends : (p : ℕ) (b : Bridge) → Step b (reader_end p b)
  requests : (c : Channel) (b : Bridge) → Step b (request_start c b).1
  request_ends : (i : ℕ) (b : Bridge) → Step b (request_end i b)

pub data Run : Bridge → Type 0 where
  begin : Run initial
  then : {b b' : Bridge} → Run b → Step b b' → Run b'

-- How often a request is in a list.
abbrev pub tally : ℕ → List ℕ → ℕ
tally i [] = 0
tally i (j ∷ js) = (if eqb i j then 1 else 0) + tally i js

abbrev pub ids : {A : Type 0} → List (ℕ × A) → List ℕ
ids l = map (λ e. e.0) l

-- The places where a request is: pending, popped, set, or given up.
abbrev pub places : ℕ → Bridge → ℕ
places i b =
    tally i b.pending + tally i (ids b.held) + tally i (ids b.resolved) + tally i b.abandoned

-- Each request that was made is in one place, and no other is anywhere.
abbrev pub IsAccounted : Bridge → Type 0
IsAccounted b = (i : ℕ) → places i b ≡ (if leb 1 i && leb i b.next_id then 1 else 0)

pub tally-append : (i : ℕ) (k l : List ℕ) → tally i (k ++ l) ≡ tally i k + tally i l
tally-append i [] l = omega arith
tally-append i (j ∷ k) l = ground (arith, tally-append i k l)

pub tally-remove : (i j : ℕ) (l : List ℕ) → tally i (remove j l) + tally i (taken j l) ≡ tally i l
unfolding remove taken
tally-remove i j [] = refl
tally-remove i j (k ∷ l) = ground (arith, tally-remove i j l)

tally-first :
    (i j k : ℕ) (l : List ℕ)
    → j ≡ k
    → tally i (remove k (j ∷ l)) + tally i (k ∷ []) ≡ tally i (j ∷ l)
unfolding remove
tally-first i j k l same = ground arith

tally-later :
    (i j k : ℕ) (l : List ℕ)
    → tally i (remove k l) + tally i (k ∷ []) ≡ tally i l
    → tally i (remove k (j ∷ l)) + tally i (k ∷ []) ≡ tally i (j ∷ l)
unfolding remove
tally-later i j k l h = ground arith

Option-some : {j k : ℕ} → some j ≡ some k → j ≡ k
Option-some h = cc

pub tally-find_key :
    (i : ℕ) (v : Json) (l : List ℕ) (k : ℕ)
    → find_key v l ≡ some k
    → tally i (remove k l) + tally i (k ∷ []) ≡ tally i l
unfolding find_key remove
tally-find_key i v [] k h = cc
tally-find_key i v (j ∷ l) k h = elim (Bool-cases (json_eq (int (pos j)) v)) [
  | inl same ↦
      tally-first i j k l
        (Option-some (sym (ap (λ b. if b then some j else find_key v l) same) ∙ h))
  | inr other ↦
      tally-later i j k l
        (tally-find_key i v l k (sym (ap (λ b. if b then some j else find_key v l) other) ∙ h))
]

pub tally-drop_held :
    (i j : ℕ) (l : List (ℕ × Json)) (reply : Json)
    → find_held j l ≡ some reply
    → tally i (ids (drop_held j l)) + tally i (j ∷ []) ≡ tally i (ids l)
unfolding find_held drop_held
tally-drop_held i j [] reply h = cc
tally-drop_held i j ((k, r) ∷ l) reply h = ground (arith, tally-drop_held i j l reply)

pub ids-reply :
    (reply : Reply) (l : List ℕ) (m : List (ℕ × Reply))
    → ids (map (λ i. (i, reply)) l ++ m) ≡ l ++ ids m
ids-reply reply [] m = refl
ids-reply reply (i ∷ l) m = ap (λ k. i ∷ k) (ids-reply reply l m)
