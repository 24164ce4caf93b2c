-- ===== src/Package/Inputs.antt =====
-- The part of `build_packages` of tools/package.py that checks its inputs.
pub mod Checked
use tailscale_koolshare.Common.{
  ℕ, pos, String, Bool, true, false, not, ◌&&◌, ◌||◌, List, [], ◌∷◌, Option, none, some, any,
}
use tailscale_koolshare.Common.Outcome.{
  Result, ok, raise, ◌>>=◌, ◌>>◌, value_error, require, for_each,
}
use tailscale_koolshare.Python.Interpreter.{Interpreter}
use tailscale_koolshare.Python.Regex.{Regex, one, seq, alt, star, range, times, fullmatch}
use tailscale_koolshare.Python.Text.{is_space, strip}
use tailscale_koolshare.Python.Json.{Json, int, str, json_eq, item, get}
use tailscale_koolshare.Files.{Tree, is_symlink}
use tailscale_koolshare.CoreLock.Identity.{numeric_version, bundle_identity}
use tailscale_koolshare.Archive.Elf.{max_binary, check_elf}
use tailscale_koolshare.Bundle.Stage.{entries, provenance}
use tailscale_koolshare.Package.Installer.{check_host_installer}

-- The files that are read, for an architecture.
pub record Parts : Type 0 where
  pub binary : Result (List ℕ)
  pub descriptor : Result Json
  pub helper : Result (List ℕ)

-- The files of the repository and of its build. `verify` is the verifier with the manifest and the
-- public key, where a verifier is given.
pub record Repository : Type 0 where
  pub version : Result String
  pub installer : Result (List ℕ)
  pub plugin : Tree
  pub public_key : Result String
  pub has_manifest : Bool
  pub pin : Result Json
  pub parts : String → Parts
  pub verify : Option (String → Result Json)
  pub sha256 : List ℕ → String

-- `[0-9a-fA-F]{64}\s*`
abbrev pub public_key : Regex
public_key =
    seq (times 64 (alt (range b'0' b'9') (alt (range b'a' b'f') (range b'A' b'F'))))
      (star (one is_space))

-- `any(path.is_symlink() for path in (root / "plugin").rglob("*"))`
unfoldable pub has_symlink : Tree → Bool
has_symlink tree = any (λ e. is_symlink (some e.1)) tree

-- `any(descriptor.get(key) != bundled[key] for key in bundled)`
unfoldable pub check_bundled : Json → String × Json → Result (Unit {0})
check_bundled descriptor (key, value) = do
  found ← get key descriptor
  require (json_eq found value) "core differs from the bundled core pin"

unfoldable pub check_binary : String → ℕ × String → Json → Result (Unit {0})
check_binary arch (size, digest) descriptor = do
  its_arch ← item "arch" descriptor
  require (json_eq its_arch (str arch)) "binary does not match verified descriptor"
  its_size ← item "unpacked_size" descriptor
  require (json_eq its_size (int (pos size))) "binary does not match verified descriptor"
  its_digest ← item "binary_sha256" descriptor
  require (json_eq its_digest (str digest)) "binary does not match verified descriptor"

unfoldable pub check_signed : Option (String → Result Json) → String → Json → Result (Unit {0})
check_signed none arch descriptor = ok tt
check_signed (some verify) arch descriptor = do
  verified ← verify arch
  require (json_eq verified descriptor) "descriptor is not signed"

unfoldable pub check_recipe : Json → Json → String → Result (Unit {0})
check_recipe arm arm64 key = do
  ours ← item key arm
  theirs ← item key arm64
  require (json_eq ours theirs) "architecture payloads use different source recipes"

module _ (r : Repository) where
  -- A round of the loop over the architectures.
  unfoldable pub check_arch : Json → String → Result Json
  check_arch bundled arch = do
    binary ← (r.parts arch).binary
    measured ← check_elf r.sha256 binary arch (some max_binary)
    descriptor ← (r.parts arch).descriptor
    for_each (check_bundled descriptor) (entries bundled)
    check_binary arch measured descriptor
    check_signed r.verify arch descriptor
    helper ← (r.parts arch).helper
    _ ← check_elf r.sha256 helper arch none
    ok descriptor

  -- The version, and the descriptors of both architectures.
  unfoldable pub check_inputs : ⦃py : Interpreter⦄ → Result (String × (Json × Json))
  check_inputs = do
    text ← r.version
    let version = strip text
    require (fullmatch numeric_version version) "invalid plugin version"
    installer ← r.installer
    check_host_installer installer
    require (not (has_symlink r.plugin)) "plugin package symlinks are not accepted by the installer"
    key ← r.public_key
    require (fullmatch public_key key) "release.pub must contain an Ed25519 public key in hex"
    require r.has_manifest "signed core manifest is required"
    value ← r.pin
    bundled ← bundle_identity value
    arm ← check_arch bundled "arm"
    arm64 ← check_arch bundled "arm64"
    for_each (check_recipe arm arm64) provenance
    ok (version, (arm, arm64))
