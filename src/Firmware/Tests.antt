-- ===== src/Firmware/Tests.antt =====
-- A small image, and the theorems at it.
use tailscale_koolshare.Common.{
  String, ℕ, zero, suc, List, [], ◌∷◌, ◌++◌, ◌≡◌, ◌↔◌, refl, some, length,
}
use tailscale_koolshare.Common.Outcome.{ok, raise, value_error}
use tailscale_koolshare.Firmware.Squashfs.{
  starts_with_magic, is_superblock, find_in, find_magic, scan, offset_of, squashfs_offset,
}
use tailscale_koolshare.Firmware.Squashfs.Scan.{all_offsets, scan-eq-all_offsets}
use tailscale_koolshare.Firmware.Squashfs.Offsets.{IsOnlyOffset, squashfs_offset_iff}

abbrev zeros : ℕ → List ℕ
zeros zero = []
zeros (suc n) = 0 ∷ zeros n

-- A superblock with blocks of 4096 bytes, version 4.0, and a file system of 96 bytes.
abbrev superblock : List ℕ
superblock = b'h' ∷ b's' ∷ b'q' ∷ b's' ∷ zeros 9 ++ 16 ∷ zeros 14 ++ 4 ∷ zeros 11 ++ 96 ∷ zeros 55

-- The magic number alone, then a file system.
abbrev image : List ℕ
image = b'h' ∷ b's' ∷ b'q' ∷ b's' ∷ superblock

abbrev digest : List ℕ → String
digest bytes = "digest"

opened : Unit {0}
unfolding starts_with_magic is_superblock find_in find_magic scan offset_of squashfs_offset
opened = tt

offset_test : squashfs_offset digest image ≡ ok (4, "digest")
unfolding opened
offset_test = refl

none_test : squashfs_offset digest superblock ≡ ok (0, "digest")
unfolding opened
none_test = refl

two_test :
    squashfs_offset digest (superblock ++ superblock)
    ≡ raise (value_error "expected one SquashFS v4 filesystem")
unfolding opened
two_test = refl

squashfs_offset_example : (squashfs_offset digest image ≡ ok (4, "digest")) ↔ IsOnlyOffset image 4
squashfs_offset_example = squashfs_offset_iff digest image 4

scan_example : scan (suc (length image)) image 0 [] ≡ some (all_offsets image 0)
scan_example = scan-eq-all_offsets image
