-- ===== src/Archive/Elf.antt =====
-- `check_elf` of tools/artifact_utils.py.
pub mod Laws
use tailscale_koolshare.Common.{
  ℕ, zero, suc, ◌+◌, ◌*◌, String, Bool, true, false, ◌&&◌, not, List, [], ◌∷◌, Option, none, some,
  ◌==◌, if◌then◌else◌, eqb, leb, ltb, length, get_elem?,
}
use tailscale_koolshare.Common.Outcome.{
  Result, ok, raise, ◌>>=◌, ◌>>◌, key_error, value_error, require, from_option,
}

-- `MAX_BINARY`
abbrev pub max_binary : ℕ
max_binary = 12 * 1024 * 1024

-- `ARCH_MACHINE`: the class and the machine of each architecture.
unfoldable pub arch_machine : String → Option (ℕ × ℕ)
arch_machine arch =
    if arch == "arm" then some (1, 40) else if arch == "arm64" then some (2, 183) else none

-- A byte of the file; the callers have checked its length.
abbrev pub byte_at : List ℕ → ℕ → ℕ
byte_at bytes i = elim (get_elem? bytes i) [ none ↦ 0 | some b ↦ b ]

-- The file is too large. A limit of `None` or zero is no limit.
unfoldable pub exceeds_limit : List ℕ → Option ℕ → Bool
exceeds_limit bytes none = false
exceeds_limit bytes (some zero) = false
exceeds_limit bytes (some (suc n)) = ltb (suc n) (length bytes)

-- At least a header, the magic number, and the little-endian mark.
unfoldable pub is_elf : List ℕ → Bool
is_elf bytes =
    leb 64 (length bytes)
    && (eqb (byte_at bytes 0) 0x7f
        && eqb (byte_at bytes 1) b'E'
        && eqb (byte_at bytes 2) b'L'
        && eqb (byte_at bytes 3) b'F')
    && eqb (byte_at bytes 5) 1

-- The class and the machine, a 16-bit little-endian number.
abbrev pub machine_of : List ℕ → ℕ × ℕ
machine_of bytes = (byte_at bytes 4, byte_at bytes 18 + 256 * byte_at bytes 19)

abbrev pub same_machine : ℕ × ℕ → ℕ × ℕ → Bool
same_machine (a, b) (c, d) = eqb a c && eqb b d

module _ (sha256 : List ℕ → String) where
  unfoldable pub check_elf : List ℕ → String → Option ℕ → Result (ℕ × String)
  check_elf bytes arch maximum = do
    require (not (exceeds_limit bytes maximum)) "exceeds size gate"
    require (is_elf bytes) "expected little-endian ELF"
    machine ← from_option (key_error arch) (arch_machine arch)
    require (same_machine (machine_of bytes) machine) "ELF architecture mismatch"
    ok (length bytes, sha256 bytes)
