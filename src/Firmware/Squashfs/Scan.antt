-- ===== src/Firmware/Squashfs/Scan.antt =====
-- The scan ends, and finds every file system of the image.
use native.Mathlib.Nat.{zero-add}
use mathlib.Core.Option.{some-injective}
use mathlib.Core.List.{append-nil, append_assoc}
use tailscale_koolshare.Common.{
  ℕ, zero, suc, ◌+◌, ◌≤◌, ◌<◌, Bool, ◌&&◌, List, [], ◌∷◌, ◌++◌, none, some, ◌≡◌, inl, inr, refl,
  sym, ap, ◌∙◌, if◌then◌else◌, length, drop, arith, Bool-cases, Option-cases,
}
use tailscale_koolshare.Firmware.Squashfs.{
  starts_with_magic, is_superblock, find_in, find_magic, scan,
}

-- A file system begins with the magic number and a superblock that passes the test.
abbrev pub begins_here : List ℕ → Bool
begins_here bytes = starts_with_magic bytes && is_superblock bytes

-- All places where one begins, by looking at every place.
abbrev pub all_offsets : List ℕ → ℕ → List ℕ
all_offsets [] i = []
all_offsets (b ∷ bytes) i =
    let rest = all_offsets bytes (suc i) in if begins_here (b ∷ bytes) then i ∷ rest else rest

-- The places that the loop adds after it has found the magic number `k` places on.
abbrev from_place : ℕ → List ℕ → ℕ → List ℕ
from_place k bytes o =
    if is_superblock (drop k bytes)
    then o ∷ all_offsets (drop (suc k) bytes) (suc o)
    else all_offsets (drop (suc k) bytes) (suc o)

find_in-none : (bytes : List ℕ) (i : ℕ) → find_in bytes i ≡ none → all_offsets bytes i ≡ []
unfolding find_in
find_in-none [] i h = refl
find_in-none (b ∷ bytes) i h = ground (arith, find_in-none bytes (suc i))

find_in-some :
    (bytes : List ℕ) (i o : ℕ)
    → find_in bytes i ≡ some o
    → (k : ℕ) × (o ≡ i + k) × (k < length bytes) × (all_offsets bytes i ≡ from_place k bytes o)
unfolding find_in
find_in-some [] i o h = cc
find_in-some (b ∷ bytes) i o h = elim (Bool-cases (starts_with_magic (b ∷ bytes))) [
  | inl here ↦
      let same : i ≡ o = some-injective _ _ (rw here at h) in
      (0, omega arith, omega arith, rw (here, ← same) refl)
  | inr not_here ↦
      let (k, place, short, rest) = find_in-some bytes (suc i) o (rw not_here at h) in
      (suc k, omega arith, omega arith, rw not_here rest)
]

drop-nil : (n : ℕ) → drop {A = ℕ} n [] ≡ []
drop-nil zero = refl
drop-nil (suc n) = refl

drop-drop : (k i : ℕ) (bytes : List ℕ) → drop k (drop i bytes) ≡ drop (i + k) bytes
drop-drop k zero bytes = rw zero-add refl
drop-drop k (suc i) [] = drop-nil k ∙ sym (drop-nil (suc i + k))
drop-drop k (suc i) (b ∷ bytes) =
    let e : suc i + k ≡ suc (i + k) = omega arith in rw e (drop-drop k i bytes)

length-drop : (i : ℕ) (bytes : List ℕ) → i ≤ length bytes → length (drop i bytes) + i ≡ length bytes
length-drop zero bytes h = omega arith
length-drop (suc i) [] h = absurd (omega arith)
length-drop (suc i) (b ∷ bytes) h = omega (arith, length-drop i bytes (omega arith))

-- The places recorded so far and those of the rest, before and after a round.
from_place-append :
    (image offsets : List ℕ) (i k o : ℕ)
    → o ≡ i + k
    → (if is_superblock (drop o image) then offsets ++ o ∷ [] else offsets)
        ++ all_offsets (drop (suc o) image) (suc o)
      ≡ offsets ++ from_place k (drop i image) o
from_place-append image offsets i k o place =
    let here : drop k (drop i image) ≡ drop o image =
      drop-drop k i image ∙ ap (λ n. drop n image) (sym place) in
    let e : i + suc k ≡ suc o = omega arith in
    let next : drop (suc k) (drop i image) ≡ drop (suc o) image =
      drop-drop (suc k) i image ∙ ap (λ n. drop n image) e in
    rw (here, next)
      (elim (Bool-cases (is_superblock (drop o image))) [
        | inl valid ↦ rw valid (append_assoc offsets (o ∷ []) _)
        | inr invalid ↦ rw invalid refl
      ])

scan-all_offsets :
    (fuel : ℕ) (image : List ℕ) (i : ℕ) (offsets : List ℕ)
    → i ≤ length image
    → length image < i + fuel
    → scan fuel image i offsets ≡ some (offsets ++ all_offsets (drop i image) i)
unfolding scan find_magic
scan-all_offsets zero image i offsets inside h = absurd (omega arith)
scan-all_offsets (suc fuel) image i offsets inside h =
    elim (Option-cases (find_in (drop i image) i)) [
      | inl none_left ↦
          rw (none_left, scan, find_in-none (drop i image) i none_left, append-nil offsets) refl
      | inr (o, found) ↦
          let (k, place, short, rest) = find_in-some (drop i image) i o found in
          let room = length-drop i image inside in
          rw (found, scan, rest)
            (scan-all_offsets fuel image (suc o) _ (omega arith) (omega arith)
              ∙ ap some (from_place-append image offsets i k o place))
    ]

-- The scan ends within one round more than the image has bytes, and records exactly the places
-- where a file system begins, in their order.
pub scan-eq-all_offsets :
    (image : List ℕ) → scan (suc (length image)) image 0 [] ≡ some (all_offsets image 0)
scan-eq-all_offsets image =
    scan-all_offsets (suc (length image)) image 0 [] (omega arith) (omega arith)
