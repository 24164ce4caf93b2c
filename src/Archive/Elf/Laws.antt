-- ===== src/Archive/Elf/Laws.antt =====
-- What `check_elf` accepts.
use mathlib.Core.Option.{some-injective}
use tailscale_koolshare.Common.{
  ℕ, suc, ◌≤◌, ◌<◌, ◌+◌, ◌*◌, ◌⊎◌, inl, inr, leb, subst, eq_iff, Bool-cases, ◌==◌, get_elem?, [],
  ◌∷◌, String, true, false, List, Option, none, some, ◌≡◌, ◌↔◌, refl, ap, sym, ◌∙◌, arith, length,
  not-true,
}
use tailscale_koolshare.Common.Outcome.{
  ok, require, from_option, >>=-eq-ok, >>-eq-ok, require-eq-ok, ok-injective, from_option-eq-ok,
}
use tailscale_koolshare.Archive.Elf.{
  byte_at, arch_machine, exceeds_limit, is_elf, machine_of, same_machine, check_elf,
}

-- The byte of the class, and the two bytes of the machine, the low one first.
pub data IsFor (bytes : List ℕ) : String → Type 0 where
  for_arm :
      get_elem? bytes 4 ≡ some 1
      → get_elem? bytes 18 ≡ some 40
      → get_elem? bytes 19 ≡ some 0
      → IsFor bytes "arm"
  for_arm64 :
      get_elem? bytes 4 ≡ some 2
      → get_elem? bytes 18 ≡ some 183
      → get_elem? bytes 19 ≡ some 0
      → IsFor bytes "arm64"

-- At least a header of 64 bytes, the magic number and the little-endian mark.
pub record IsElf (bytes : List ℕ) : Type 0 where
  pub header : 64 ≤ length bytes
  pub magic_0 : get_elem? bytes 0 ≡ some 127
  pub magic_1 : get_elem? bytes 1 ≡ some 69
  pub magic_2 : get_elem? bytes 2 ≡ some 76
  pub magic_3 : get_elem? bytes 3 ≡ some 70
  pub little : get_elem? bytes 5 ≡ some 1

-- A little-endian ELF file for the architecture, no larger than the limit.
pub record IsBinary (bytes : List ℕ) (arch : String) (maximum : Option ℕ) : Type 0 where
  pub within : (n : ℕ) → maximum ≡ some (suc n) → length bytes ≤ suc n
  pub elf : IsElf bytes
  pub machine : IsFor bytes arch

get_elem-byte_at :
    (bytes : List ℕ) (i : ℕ) → i < length bytes → get_elem? bytes i ≡ some (byte_at bytes i)
get_elem-byte_at [] i h = absurd (omega (arith, h))
get_elem-byte_at (b ∷ bytes) ℕ.zero h = refl
get_elem-byte_at (b ∷ bytes) (suc i) h = get_elem-byte_at bytes i (omega (arith, h))

is_byte :
    (bytes : List ℕ) (i b : ℕ) → i < length bytes → byte_at bytes i ≡ b → get_elem? bytes i ≡ some b
is_byte bytes i b h e = get_elem-byte_at bytes i h ∙ ap some e

of_byte : (bytes : List ℕ) (i : ℕ) {b : ℕ} → get_elem? bytes i ≡ some b → byte_at bytes i ≡ b
of_byte bytes i {b} h = ap (λ o. elim o as (λ _. ℕ) [ none ↦ 0 | some b ↦ b ]) h

is_elf_sound : (bytes : List ℕ) → is_elf bytes ≡ true → IsElf bytes
unfolding is_elf
is_elf_sound bytes h =
    let size : 64 ≤ length bytes = ground arith in
    record {
      header = size;
      magic_0 = is_byte bytes 0 127 (omega (arith, size)) (ground arith);
      magic_1 = is_byte bytes 1 69 (omega (arith, size)) (ground arith);
      magic_2 = is_byte bytes 2 76 (omega (arith, size)) (ground arith);
      magic_3 = is_byte bytes 3 70 (omega (arith, size)) (ground arith);
      little = is_byte bytes 5 1 (omega (arith, size)) (ground arith);
    }

is_elf_complete : (bytes : List ℕ) → IsElf bytes → is_elf bytes ≡ true
unfolding is_elf
is_elf_complete bytes b =
    let size : leb 64 (length bytes) ≡ true = (let header = b.header in ground arith) in
    rw
      (
        size,
        of_byte bytes 0 b.magic_0,
        of_byte bytes 1 b.magic_1,
        of_byte bytes 2 b.magic_2,
        of_byte bytes 3 b.magic_3,
        of_byte bytes 5 b.little,
      )
      refl

arch_cases :
    (arch : String) {machine : ℕ × ℕ}
    → arch_machine arch ≡ some machine
    → ((arch ≡ "arm") × (machine ≡ (1, 40))) ⊎ ((arch ≡ "arm64") × (machine ≡ (2, 183)))
unfolding arch_machine
arch_cases arch {machine} h = elim (Bool-cases (arch == "arm")) [
  | inl arm ↦ inl ((eq_iff arch "arm").0 arm, sym (some-injective _ _ (rw arm at h)))
  | inr other ↦ elim (Bool-cases (arch == "arm64")) [
    | inl arm64 ↦
        inr ((eq_iff arch "arm64").0 arm64, sym (some-injective _ _ (rw (other, arm64) at h)))
    | inr neither ↦ cc (rw (other, neither) at h)
  ]
]

machine_sound :
    (bytes : List ℕ) (arch : String)
    → 64 ≤ length bytes
    → arch_machine arch ≡ some (machine_of bytes)
    → IsFor bytes arch
machine_sound bytes arch size h = elim (arch_cases arch h) [
  | inl (arm, same) ↦
      let both : byte_at bytes 18 + 256 * byte_at bytes 19 ≡ 40 = ap (λ p. p.1) same in
      subst (IsFor bytes) (sym arm) (
        for_arm (is_byte bytes 4 1 (omega (arith, size)) (ap (λ p. p.0) same))
          (is_byte bytes 18 40 (omega (arith, size)) (omega (arith, both)))
          (is_byte bytes 19 0 (omega (arith, size)) (omega (arith, both))))
  | inr (arm64, same) ↦
      let both : byte_at bytes 18 + 256 * byte_at bytes 19 ≡ 183 = ap (λ p. p.1) same in
      subst (IsFor bytes) (sym arm64) (
        for_arm64 (is_byte bytes 4 2 (omega (arith, size)) (ap (λ p. p.0) same))
          (is_byte bytes 18 183 (omega (arith, size)) (omega (arith, both)))
          (is_byte bytes 19 0 (omega (arith, size)) (omega (arith, both))))
]

machine_complete :
    (bytes : List ℕ) {arch : String}
    → IsFor bytes arch
    → arch_machine arch ≡ some (machine_of bytes)
unfolding arch_machine
machine_complete bytes (for_arm class low high) =
    rw (of_byte bytes 4 class, of_byte bytes 18 low, of_byte bytes 19 high) refl
machine_complete bytes (for_arm64 class low high) =
    rw (of_byte bytes 4 class, of_byte bytes 18 low, of_byte bytes 19 high) refl

within-limit :
    (bytes : List ℕ) (maximum : Option ℕ)
    → exceeds_limit bytes maximum ≡ false
    → (n : ℕ) → maximum ≡ some (suc n)
    → length bytes ≤ suc n
unfolding exceeds_limit
within-limit bytes none h n e = cc
within-limit bytes (some ℕ.zero) h n e = absurd (omega (arith, some-injective _ _ e))
within-limit bytes (some (suc m)) h n e = ground (arith, some-injective (suc m) (suc n) e)

limit-within :
    (bytes : List ℕ) (maximum : Option ℕ)
    → ((n : ℕ) → maximum ≡ some (suc n) → length bytes ≤ suc n)
    → exceeds_limit bytes maximum ≡ false
unfolding exceeds_limit
limit-within bytes none h = refl
limit-within bytes (some ℕ.zero) h = refl
limit-within bytes (some (suc m)) h = let fits = h m refl in ground arith

machine-eq : (p q : ℕ × ℕ) → same_machine p q ≡ true → p ≡ q
machine-eq (a, b) (c, d) h = ground arith

same_machine_refl : (p : ℕ × ℕ) → same_machine p p ≡ true
same_machine_refl (a, b) = ground arith

module _ (sha256 : List ℕ → String) where
  pub check_elf_sound :
      (bytes : List ℕ) (arch : String) (maximum : Option ℕ) {r : ℕ × String}
      → check_elf sha256 bytes arch maximum ≡ ok r
      → IsBinary bytes arch maximum × (r ≡ (length bytes, sha256 bytes))
  unfolding check_elf
  check_elf_sound bytes arch maximum {r} h =
      let (small, h₁) = >>-eq-ok (require _ _) _ h in
      let (elf, h₂) = >>-eq-ok (require _ _) _ h₁ in
      let (machine, known, h₃) = >>=-eq-ok (from_option _ (arch_machine arch)) _ h₂ in
      let (same, h₄) = >>-eq-ok (require _ _) _ h₃ in
      let is = is_elf_sound bytes (require-eq-ok _ _ elf) in
      let found =
        from_option-eq-ok _ _ known ∙ ap some (sym (machine-eq _ _ (require-eq-ok _ _ same))) in
      (
        record {
          within = within-limit bytes maximum (not-true _ (require-eq-ok _ _ small));
          elf = is;
          machine = machine_sound bytes arch is.header found;
        },
        sym (ok-injective h₄),
      )

  check_elf_complete :
      (bytes : List ℕ) (arch : String) (maximum : Option ℕ)
      → IsBinary bytes arch maximum
      → check_elf sha256 bytes arch maximum ≡ ok (length bytes, sha256 bytes)
  unfolding check_elf
  check_elf_complete bytes arch maximum b = rw (
    limit-within bytes maximum b.within,
    is_elf_complete bytes b.elf,
    machine_complete bytes b.machine,
    same_machine_refl (machine_of bytes),
  )

  -- Check_elf returns the size and the digest of a file exactly when that is no larger than a
  -- positive limit, has at least 64 bytes, begins with the magic number, has the little-endian
  -- mark, and names the class and the machine of the architecture in its bytes 4, 18 and 19.
  pub check_elf_iff :
      (bytes : List ℕ) (arch : String) (maximum : Option ℕ)
      → (check_elf sha256 bytes arch maximum ≡ ok (length bytes, sha256 bytes))
        ↔ IsBinary bytes arch maximum
  check_elf_iff bytes arch maximum =
      (λ h. (check_elf_sound bytes arch maximum h).0, check_elf_complete bytes arch maximum)
