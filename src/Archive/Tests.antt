-- ===== src/Archive/Tests.antt =====
-- A file header, and the theorems at it.
use tailscale_koolshare.Common.{
  ℕ, zero, suc, String, List, [], ◌∷◌, ◌++◌, ◌≡◌, ◌↔◌, refl, none, some,
}
use tailscale_koolshare.Common.Outcome.{ok, raise, value_error}
use tailscale_koolshare.Archive.Elf.{max_binary, arch_machine, exceeds_limit, is_elf, check_elf}
use tailscale_koolshare.Archive.Elf.Laws.{IsBinary, check_elf_iff}

abbrev zeros : ℕ → List ℕ
zeros zero = []
zeros (suc n) = 0 ∷ zeros n

abbrev digest : List ℕ → String
digest bytes = "digest"

-- A header of a 64-bit file for AArch64.
abbrev header : List ℕ
header = 0x7f ∷ b'E' ∷ b'L' ∷ b'F' ∷ 2 ∷ 1 ∷ zeros 12 ++ 183 ∷ zeros 45

opened : Unit {0}
unfolding arch_machine exceeds_limit is_elf check_elf
opened = tt

accepted : check_elf digest header "arm64" (some max_binary) ≡ ok (64, "digest")
unfolding opened
accepted = refl

mismatch : check_elf digest header "arm" none ≡ raise (value_error "ELF architecture mismatch")
unfolding opened
mismatch = refl

check_elf_example :
    (check_elf digest header "arm64" (some max_binary) ≡ ok (64, "digest"))
    ↔ IsBinary header "arm64" (some max_binary)
check_elf_example = check_elf_iff digest header "arm64" (some max_binary)
