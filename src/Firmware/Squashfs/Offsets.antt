-- ===== src/Firmware/Squashfs/Offsets.antt =====
-- The only file system of the image is the one whose place is returned.
use tailscale_koolshare.Common.{
  ◌∙◌, String, ap, ℕ, zero, suc, ◌+◌, true, List, [], ◌∷◌, some, ◌≡◌, ◌↔◌, inl, inr, refl, sym,
  drop, In, arith, Bool-cases, subst,
}
use tailscale_koolshare.Common.Outcome.{>>=-eq-ok, ok-injective, ok}
use tailscale_koolshare.Firmware.Squashfs.{starts_with_magic, the_one, offset_of, squashfs_offset}
use tailscale_koolshare.Firmware.Squashfs.Scan.{begins_here, all_offsets, scan-eq-all_offsets}

-- A place after the first one is a place of the rest.
shift-place :
    (b : ℕ) (bytes : List ℕ) (i o : ℕ)
    → (k : ℕ) × (o ≡ suc i + k) × (begins_here (drop k bytes) ≡ true)
    → (k : ℕ) × (o ≡ i + k) × (begins_here (drop k (b ∷ bytes)) ≡ true)
shift-place b bytes i o (k, place, valid) = (suc k, omega arith, valid)

In-all_offsets_sound :
    (bytes : List ℕ) (i o : ℕ)
    → In o (all_offsets bytes i)
    → (k : ℕ) × (o ≡ i + k) × (begins_here (drop k bytes) ≡ true)
In-all_offsets_sound [] i o h = absurd h
In-all_offsets_sound (b ∷ bytes) i o h = elim (Bool-cases (begins_here (b ∷ bytes))) [
  | inl here ↦
      let found : In o (i ∷ all_offsets bytes (suc i)) = rw here at h in
      elim found [
        | inl same ↦ (0, omega arith, here)
        | inr later ↦ shift-place b bytes i o (In-all_offsets_sound bytes (suc i) o later)
      ]
  | inr not_here ↦ shift-place b bytes i o (In-all_offsets_sound bytes (suc i) o (rw not_here at h))
]

no-magic : (k : ℕ) → begins_here (drop k []) ≡ true → ⊥
unfolding starts_with_magic
no-magic zero h = cc
no-magic (suc k) h = cc

In-later :
    (b : ℕ) (bytes : List ℕ) (i o : ℕ)
    → In o (all_offsets bytes (suc i))
    → In o (all_offsets (b ∷ bytes) i)
In-later b bytes i o h = elim (Bool-cases (begins_here (b ∷ bytes))) [
  | inl here ↦ rw here (inr h)
  | inr not_here ↦ rw not_here h
]

In-all_offsets_complete :
    (bytes : List ℕ) (i k : ℕ)
    → begins_here (drop k bytes) ≡ true
    → In (i + k) (all_offsets bytes i)
unfolding starts_with_magic
In-all_offsets_complete [] i k h = absurd (no-magic k h)
In-all_offsets_complete (b ∷ bytes) i zero h = rw h (inl (omega arith))
In-all_offsets_complete (b ∷ bytes) i (suc k) h =
    let e : suc i + k ≡ i + suc k = omega arith in
    In-later b bytes i (i + suc k)
      (subst (λ n. In n (all_offsets bytes (suc i))) e (In-all_offsets_complete bytes (suc i) k h))

the_one-eq-ok : (offsets : List ℕ) (o : ℕ) → the_one (some offsets) ≡ ok o → offsets ≡ o ∷ []
the_one-eq-ok [] o h = cc
the_one-eq-ok (p ∷ []) o h = cc
the_one-eq-ok (p ∷ q ∷ offsets) o h = cc

-- Exactly one file system begins in the image, and it begins at `o`.
abbrev pub IsOnlyOffset : List ℕ → ℕ → Type 0
IsOnlyOffset image o =
    (begins_here (drop o image) ≡ true) × ((p : ℕ) → begins_here (drop p image) ≡ true → p ≡ o)

-- What is returned is the place of the only file system of the image.
pub offset_of-IsOnlyOffset :
    (image : List ℕ) (o : ℕ) → offset_of image ≡ ok o → IsOnlyOffset image o
unfolding offset_of
offset_of-IsOnlyOffset image o h =
    let single : all_offsets image 0 ≡ o ∷ [] =
      the_one-eq-ok _ o (rw (scan-eq-all_offsets image) at h) in
    let (k, place, valid) = In-all_offsets_sound image 0 o (subst (In o) (sym single) (inl refl)) in
    let here : k ≡ o = omega arith in
    (
      subst (λ n. begins_here (drop n image) ≡ true) here valid,
      λ p other.
          let found : In (0 + p) (o ∷ []) =
            subst (In (0 + p)) single (In-all_offsets_complete image 0 p other) in
          elim found [ inl same ↦ omega arith | inr nothing ↦ absurd nothing ],
    )

empty-of : (xs : List ℕ) → ((p : ℕ) → In p xs → ⊥) → xs ≡ []
empty-of [] h = refl
empty-of (x ∷ xs) h = absurd (h x (inl refl))

all_offsets-single :
    (bytes : List ℕ) (i o : ℕ)
    → In o (all_offsets bytes i)
    → ((p : ℕ) → In p (all_offsets bytes i) → p ≡ o)
    → all_offsets bytes i ≡ o ∷ []
all_offsets-single [] i o h only = absurd h
all_offsets-single (b ∷ bytes) i o h only = elim (Bool-cases (begins_here (b ∷ bytes))) [
  | inl here ↦
      let first : i ≡ o = only i (rw here (inl refl)) in
      let none_later = empty-of (all_offsets bytes (suc i)) λ p later.
        let (k, place, _) = In-all_offsets_sound bytes (suc i) p later in
        let same = only p (In-later b bytes i p later) in absurd (omega arith) in
      rw (here, none_later, first) refl
  | inr not_here ↦
      let only' : (p : ℕ) → In p (all_offsets bytes (suc i)) → p ≡ o =
        λ p later. only p (In-later b bytes i p later) in
      rw not_here (all_offsets-single bytes (suc i) o (rw not_here at h) only')
]

offset_of_complete : (image : List ℕ) (o : ℕ) → IsOnlyOffset image o → offset_of image ≡ ok o
unfolding offset_of
offset_of_complete image o (valid, only) =
    let single =
      all_offsets-single image 0 o
        (subst (λ n. In n (all_offsets image 0)) zero-add-o
          (In-all_offsets_complete image 0 o valid))
        (λ p found.
          let (k, place, here) = In-all_offsets_sound image 0 p found in
          let same : k ≡ o = only k here in omega arith) in
    rw (scan-eq-all_offsets image, single) refl
  where
    zero-add-o : 0 + o ≡ o
    zero-add-o = omega arith

-- Squashfs_offset returns an offset, with the digest of the image, exactly when a SquashFS file
-- system that passes the test begins there and nowhere else in the image.
pub squashfs_offset_iff :
    (sha256 : List ℕ → String) (image : List ℕ) (o : ℕ)
    → (squashfs_offset sha256 image ≡ ok (o, sha256 image)) ↔ IsOnlyOffset image o
unfolding squashfs_offset
squashfs_offset_iff sha256 image o = (
  λ h.
      let (p, found, rest) = >>=-eq-ok (offset_of image) _ h in
      let same : p ≡ o = ap (λ q. q.0) (ok-injective rest) in
      offset_of-IsOnlyOffset image o (found ∙ ap ok same),
  λ only. rw (offset_of_complete image o only) refl,
)
