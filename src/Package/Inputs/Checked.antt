-- ===== src/Package/Inputs/Checked.antt =====
-- What is known of the inputs that `build_packages` goes on with.
use tailscale_koolshare.Common.{
  or-eq-false, List, [], ◌∷◌, length, ℕ, pos, String, true, false, Option, none, some, ◌≡◌, refl,
  ap, ◌∙◌, All, not-true, subst,
}
use tailscale_koolshare.Common.Outcome.{
  Result, ok, require, for_each, >>=-eq-ok, >>-eq-ok, require-eq-ok, ok-injective,
}
use tailscale_koolshare.Python.Interpreter.{Interpreter}
use tailscale_koolshare.Python.Regex.{codes}
use tailscale_koolshare.Python.Regex.Language.{Lang}
use tailscale_koolshare.Python.Regex.Laws.{fullmatch_iff}
use tailscale_koolshare.Files.{Tree, is_symlink}
use tailscale_koolshare.CoreLock.Identity.Stable.{IsIdentity, bundle_identity-eq-ok}
use tailscale_koolshare.Archive.Elf.Laws.{IsBinary, check_elf_sound}
use tailscale_koolshare.Package.Installer.Rejected.{IsIn, check_host_installer_iff}
use tailscale_koolshare.Python.Text.{strip}
use tailscale_koolshare.Python.Json.{Json, int, str, json_eq, item, get}
use tailscale_koolshare.Python.Json.Laws.{At, json_eq-str}
use tailscale_koolshare.CoreLock.Identity.{numeric_version, bundle_identity}
use tailscale_koolshare.Archive.Elf.{max_binary, check_elf}
use tailscale_koolshare.Bundle.Stage.{entries, provenance}
use tailscale_koolshare.Bundle.Stage.Verified.{Agree}
use tailscale_koolshare.Bundle.Stage.Entries.{entries-At}
use tailscale_koolshare.Signing.Bound.{for_each-All}
use tailscale_koolshare.Package.Installer.{check_host_installer}
use tailscale_koolshare.Package.Inputs.{
  Repository, public_key, has_symlink, check_bundled, check_binary, check_signed, check_recipe,
  check_arch, check_inputs,
}

-- `descriptor.get(key)` is equal to the value of the pin.
pub record IsPinned (descriptor : Json) (entry : String × Json) : Type 0 where
  pub found : Json
  pub got : get entry.0 descriptor ≡ ok found
  pub same : json_eq found entry.1 ≡ true

-- Signed, where there is a verifier.
abbrev pub IsSigned : Option (String → Result Json) → String → Json → Type 0
IsSigned none arch descriptor = Unit {0}
IsSigned (some verify) arch descriptor =
    (signed : Json) × (verify arch ≡ ok signed) × (json_eq signed descriptor ≡ true)

-- An architecture whose binary is the one that the descriptor of the pinned core names.
pub record IsPart (r : Repository) (bundled : Json) (arch : String) (descriptor : Json)
    : Type 0 where
  pub its_size : Json
  pub binary : List ℕ
  pub program : List ℕ
  pub binary_read : (r.parts arch).binary ≡ ok binary
  pub helper_read : (r.parts arch).helper ≡ ok program
  pub is_binary : IsBinary binary arch (some 12582912)
  pub read : (r.parts arch).descriptor ≡ ok descriptor
  pub pinned :
      (key : String) (value : Json) → At key bundled value → IsPinned descriptor (key, value)
  pub at_arch : At "arch" descriptor (str arch)
  pub at_size : At "unpacked_size" descriptor its_size
  pub same_size : json_eq its_size (int (pos (length binary))) ≡ true
  pub at_digest : At "binary_sha256" descriptor (str (r.sha256 binary))
  pub signed : IsSigned r.verify arch descriptor
  pub is_helper : IsBinary program arch none

check_bundled-IsPinned : (d : Json) (e : String × Json) → check_bundled d e ≡ ok tt → IsPinned d e
unfolding check_bundled
check_bundled-IsPinned d (key, value) h =
    let (found, got, h₁) = >>=-eq-ok (get key d) _ h in
    record { found = found; got = got; same = require-eq-ok _ _ h₁ }

has_symlink-All :
    (tree : Tree) → has_symlink tree ≡ false → All (λ e. is_symlink (some e.1) ≡ false) tree
unfolding has_symlink
has_symlink-All [] h = tt
has_symlink-All ((p, n) ∷ tree) h =
    let (here, later) = or-eq-false (is_symlink (some n)) (has_symlink tree) h in
    (here, has_symlink-All tree later)

check_recipe-Agree :
    (arm arm64 : Json) (key : String) → check_recipe arm arm64 key ≡ ok tt → Agree arm arm64 key
unfolding check_recipe
check_recipe-Agree arm arm64 key h =
    let (ours, in_arm, h₁) = >>=-eq-ok (item key arm) _ h in
    let (theirs, in_arm64, h₂) = >>=-eq-ok (item key arm64) _ h₁ in
    record {
      ours = ours;
      theirs = theirs;
      in_arm = in_arm;
      in_arm64 = in_arm64;
      same = require-eq-ok _ _ h₂;
    }

check_signed-IsSigned :
    (v : Option (String → Result Json)) (arch : String) (d : Json)
    → check_signed v arch d ≡ ok tt
    → IsSigned v arch d
unfolding check_signed
check_signed-IsSigned none arch d h = tt
check_signed-IsSigned (some verify) arch d h =
    let (signed, verified, h₁) = >>=-eq-ok (verify arch) _ h in
    (signed, verified, require-eq-ok _ _ h₁)

check_arch-IsPart :
    (r : Repository) (bundled : Json) (arch : String) {descriptor : Json}
    → check_arch r bundled arch ≡ ok descriptor
    → IsPart r bundled arch descriptor
unfolding check_arch check_binary
check_arch-IsPart r bundled arch h =
    let (body, binary_read, h₀) = >>=-eq-ok (r.parts arch).binary _ h in
    let (measured, elf, h₁) = >>=-eq-ok (check_elf r.sha256 body arch (some max_binary)) _ h₀ in
    let (is_binary, is_own) = check_elf_sound r.sha256 body arch (some max_binary) elf in
    let (d, read, h₂) = >>=-eq-ok (r.parts arch).descriptor _ h₁ in
    let (pinned, h₃) = >>-eq-ok (for_each (check_bundled d) (entries bundled)) _ h₂ in
    let (binary, h₄) = >>-eq-ok (check_binary arch measured d) _ h₃ in
    let (a, at_arch, b₁) = >>=-eq-ok (item "arch" d) _ binary in
    let (same_arch, b₂) = >>-eq-ok (require _ _) _ b₁ in
    let (n, at_size, b₃) = >>=-eq-ok (item "unpacked_size" d) _ b₂ in
    let (same_size, b₄) = >>-eq-ok (require _ _) _ b₃ in
    let (g, at_digest, b₅) = >>=-eq-ok (item "binary_sha256" d) _ b₄ in
    let (signed, h₅) = >>-eq-ok (check_signed r.verify arch d) _ h₄ in
    let (program, helper_read, h₆) = >>=-eq-ok (r.parts arch).helper _ h₅ in
    let (helper, helper_elf, h₇) = >>=-eq-ok (check_elf r.sha256 program arch none) _ h₆ in
    subst (IsPart r bundled arch) (ok-injective h₇) (record {
      its_size = n;
      binary = body;
      program = program;
      binary_read = binary_read;
      helper_read = helper_read;
      is_binary = is_binary;
      read = read;
      pinned =
          entries-At (IsPinned d) bundled
            (for_each-All (check_bundled d) (check_bundled-IsPinned d) (entries bundled) pinned);
      at_arch = at_arch ∙ ap ok (json_eq-str a arch (require-eq-ok _ _ same_arch));
      at_size = at_size;
      same_size =
          subst (λ m. json_eq n (int (pos m.0)) ≡ true) is_own (require-eq-ok _ _ same_size);
      at_digest =
          at_digest
          ∙ ap ok (json_eq-str g measured.1 (require-eq-ok _ _ b₅))
          ∙ ap (λ m. ok (str m.1)) is_own;
      signed = check_signed-IsSigned r.verify arch d signed;
      is_helper = (check_elf_sound r.sha256 program arch none helper_elf).0;
    })

-- The inputs of the archives.
pub record IsChecked ⦃py : Interpreter⦄ (r : Repository) (version : String) (arm arm64 : Json)
    : Type 0 where
  pub text : String
  pub key : String
  pub bundled : Json
  pub read : r.version ≡ ok text
  pub stripped : strip text ≡ version
  pub numeric : Lang numeric_version (codes version)
  pub script : List ℕ
  pub script_read : r.installer ≡ ok script
  pub no_detect : ¬ IsIn (codes "detect_package") script
  pub no_tar : ¬ IsIn (codes "ks_tar_install") script
  pub no_links : All (λ e. is_symlink (some e.1) ≡ false) r.plugin
  pub key_read : r.public_key ≡ ok key
  pub is_key : Lang public_key (codes key)
  pub has_manifest : r.has_manifest ≡ true
  pub pin_read : r.pin ≡ ok bundled
  pub is_pin : IsIdentity bundled
  pub arm_part : IsPart r bundled "arm" arm
  pub arm64_part : IsPart r bundled "arm64" arm64
  pub same_version : Agree arm arm64 "version"
  pub same_build : Agree arm arm64 "build"
  pub same_commit : Agree arm arm64 "source_commit"
  pub same_recipe : Agree arm arm64 "recipe_sha256"

-- When the checks before packaging pass, the plugin version is three numbers, its installer has
-- neither of the words that the host rejects, the plugin has no symbolic link, the public key is
-- 64 hexadecimal digits, there is a manifest, and for both architectures the binary is an ELF file
-- of the architecture within the limit whose size and digest are those of the descriptor, the
-- descriptor has the entries of the pin and is what the verifier says where there is one, the
-- helper is an ELF file of the architecture, the pin is the one that was read, with a stable
-- version and a build number, and both descriptors have the same version, build, commit and
-- recipe.
pub check_inputs-IsChecked :
    ⦃py : Interpreter⦄ (r : Repository) (version : String) (arm arm64 : Json)
    → check_inputs r ≡ ok (version, (arm, arm64))
    → IsChecked r version arm arm64
unfolding check_inputs
check_inputs-IsChecked r version arm arm64 h =
    let (text, read, h₁) = >>=-eq-ok r.version _ h in
    let (numeric, h₂) = >>-eq-ok (require _ _) _ h₁ in
    let (script, script_read, h₂') = >>=-eq-ok r.installer _ h₂ in
    let (installer, h₃) = >>-eq-ok (check_host_installer script) _ h₂' in
    let (no_links, h₄) = >>-eq-ok (require _ _) _ h₃ in
    let (key, key_read, h₅) = >>=-eq-ok r.public_key _ h₄ in
    let (is_key, h₆) = >>-eq-ok (require _ _) _ h₅ in
    let (has_manifest, h₇) = >>-eq-ok (require _ _) _ h₆ in
    let (value, pin_read, h₈) = >>=-eq-ok r.pin _ h₇ in
    let (bundled, identified, h₉) = >>=-eq-ok (bundle_identity value) _ h₈ in
    let (is_pin, as_read) = bundle_identity-eq-ok value identified in
    let (d, part, k₁) = >>=-eq-ok (check_arch r bundled "arm") _ h₉ in
    let (d64, part64, k₂) = >>=-eq-ok (check_arch r bundled "arm64") _ k₁ in
    let (same, k₃) = >>-eq-ok (for_each (check_recipe d d64) provenance) _ k₂ in
    let (same_version, (same_build, (same_commit, (same_recipe, _)))) =
      for_each-All (check_recipe d d64) (check_recipe-Agree d d64) provenance same in
    let (no_detect, no_tar) = (check_host_installer_iff script).0 installer in
    let e = ok-injective k₃ in
    let result : IsChecked r (strip text) d d64 = record {
      text = text;
      key = key;
      bundled = bundled;
      read = read;
      stripped = refl;
      numeric = (fullmatch_iff numeric_version (strip text)).0 (require-eq-ok _ _ numeric);
      script = script;
      script_read = script_read;
      no_detect = no_detect;
      no_tar = no_tar;
      no_links =
          has_symlink-All r.plugin (not-true (has_symlink r.plugin) (require-eq-ok _ _ no_links));
      key_read = key_read;
      is_key = (fullmatch_iff public_key key).0 (require-eq-ok _ _ is_key);
      has_manifest = require-eq-ok _ _ has_manifest;
      pin_read = pin_read ∙ ap ok as_read;
      is_pin = subst IsIdentity as_read is_pin;
      arm_part = check_arch-IsPart r bundled "arm" part;
      arm64_part = check_arch-IsPart r bundled "arm64" part64;
      same_version = same_version;
      same_build = same_build;
      same_commit = same_commit;
      same_recipe = same_recipe;
    } in
    subst (λ x. IsChecked r x.0 x.1.0 x.1.1) e result
