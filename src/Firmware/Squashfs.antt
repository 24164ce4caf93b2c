-- ===== src/Firmware/Squashfs.antt =====
-- `squashfs_offset` of tools/firmware_compat.py.
pub mod Scan
pub mod Offsets
use tailscale_koolshare.Common.{
  ℕ, zero, suc, ◌+◌, ◌*◌, String, Bool, true, false, ◌&&◌, List, [], ◌∷◌, ◌++◌, Option, none, some,
  if◌then◌else◌, eqb, leb, length, take, drop, any,
}
use tailscale_koolshare.Common.Outcome.{Result, ok, raise, ◌>>=◌, value_error}

-- A little-endian number.
abbrev pub le_value : List ℕ → ℕ
le_value [] = 0
le_value (b ∷ bs) = b + 256 * le_value bs

-- The field of `width` bytes at a position of the superblock.
abbrev pub le_field : ℕ → ℕ → List ℕ → ℕ
le_field position width bytes = le_value (take width (drop position bytes))

-- `b"hsqs"`
unfoldable pub starts_with_magic : List ℕ → Bool
starts_with_magic (a ∷ b ∷ c ∷ d ∷ bytes) = eqb a b'h' && eqb b b's' && eqb c b'q' && eqb d b's'
starts_with_magic _ = false

abbrev block_sizes : List ℕ
block_sizes = 4096 ∷ 8192 ∷ 16384 ∷ 32768 ∷ 65536 ∷ 131072 ∷ 262144 ∷ 524288 ∷ 1048576 ∷ []

-- The test of the 96 bytes that begin the given bytes, which go on to the end of the image. The
-- block size is the fourth 32-bit number, the version stands at 28, and the size of the file
-- system at 40.
unfoldable pub is_superblock : List ℕ → Bool
is_superblock bytes =
    leb 96 (length bytes)
    && (eqb (le_field 28 2 bytes) 4
        && eqb (le_field 30 2 bytes) 0
        && leb (le_field 40 8 bytes) (length bytes)
        && any (eqb (le_field 12 4 bytes)) block_sizes)

-- The first place of the magic number in the bytes, which begin at place `i` of the image.
unfoldable pub find_in : List ℕ → ℕ → Option ℕ
find_in [] i = none
find_in (b ∷ bytes) i =
    let later = find_in bytes (suc i) in if starts_with_magic (b ∷ bytes) then some i else later

-- `data.find(b"hsqs", offset)`
unfoldable pub find_magic : List ℕ → ℕ → Option ℕ
find_magic image offset = find_in (drop offset image) offset

-- The loop, on fuel: `none` means that the fuel ran out.
unfoldable pub scan : ℕ → List ℕ → ℕ → List ℕ → Option (List ℕ)
scan zero image offset offsets = none
scan (suc fuel) image offset offsets = elim (find_magic image offset) [
  | none ↦ some offsets
  | some o ↦
      scan fuel image (suc o) (if is_superblock (drop o image) then offsets ++ o ∷ [] else offsets)
]

abbrev the_one : Option (List ℕ) → Result ℕ
the_one (some (o ∷ [])) = ok o
the_one _ = raise (value_error "expected one SquashFS v4 filesystem")

-- Each round goes past the place that it found, so one round more than the image has bytes is
-- enough.
unfoldable pub offset_of : List ℕ → Result ℕ
offset_of image = the_one (scan (suc (length image)) image 0 [])

-- The place, and the digest of the image.
unfoldable pub squashfs_offset : (List ℕ → String) → List ℕ → Result (ℕ × String)
squashfs_offset sha256 image = do o ← offset_of image; ok (o, sha256 image)
