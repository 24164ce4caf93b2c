-- ===== src/Package/Tests.antt =====
-- Runs of the checks before packaging, and the theorems at concrete inputs.
use tailscale_koolshare.Common.{
  ℕ, zero, suc, pos, String, true, List, [], ◌∷◌, ◌++◌, some, ◌≡◌, ◌↔◌, refl, ◌==◌, if◌then◌else◌,
}
use tailscale_koolshare.Common.Outcome.{ok, raise, value_error}
use tailscale_koolshare.Common.Order.{codes}
use tailscale_koolshare.Python.Interpreter.{Interpreter, ascii}
use tailscale_koolshare.Python.Regex.{fullmatch}
use tailscale_koolshare.Python.Text.{strip, split_on}
use tailscale_koolshare.Python.Number.{int_of}
use tailscale_koolshare.Python.Json.{
  Json, int, str, obj, field, end, has_exactly, json_eq, item, get, text_item, as_str, lookup,
}
use tailscale_koolshare.Toolchain.Lock.{has_fields}
use tailscale_koolshare.Files.{file}
use tailscale_koolshare.CoreLock.Identity.{
  minor_of, check_pin_fields, check_stable, bundle_identity,
}
use tailscale_koolshare.CoreLock.Sample.{digest}
use tailscale_koolshare.Archive.Elf.{arch_machine, exceeds_limit, is_elf, check_elf}
use tailscale_koolshare.Package.Installer.{begins, occurs, check_token, check_host_installer}
use tailscale_koolshare.Package.Installer.Rejected.{IsIn, check_host_installer_iff}
use tailscale_koolshare.Package.Inputs.{
  Repository, has_symlink, check_bundled, check_binary, check_signed, check_recipe, check_arch,
  check_inputs,
}
use tailscale_koolshare.Package.Inputs.Checked.{IsChecked, check_inputs-IsChecked}

instance abbrev plain : Interpreter
plain = ascii

abbrev zeros : ℕ → List ℕ
zeros zero = []
zeros (suc n) = 0 ∷ zeros n

abbrev elf : ℕ → ℕ → List ℕ
elf class machine = 127 ∷ 69 ∷ 76 ∷ 70 ∷ class ∷ 1 ∷ (zeros 12 ++ machine ∷ 0 ∷ zeros 44)

abbrev elf_for : String → List ℕ
elf_for arch = if arch == "arm" then elf 1 40 else elf 2 183

abbrev pin : Json
pin = obj (field "version" (str "1.98.2") (field "build" (str "r4") end))

abbrev descriptor : String → Json
descriptor arch = obj (
    field "version" (str "1.98.2") (
      field "build" (str "r4") (
        field "arch" (str arch) (
          field "unpacked_size" (int (pos 64)) (
            field "binary_sha256" (str digest)
              (field "source_commit" (str "abcd") (field "recipe_sha256" (str "fedc") end)))))))

abbrev repository : Repository
repository = record {
  version = ok "3.1.0\n";
  installer = ok (codes "#!/bin/sh\nexit 0\n");
  plugin = ("install.sh" ∷ [], file 493 []) ∷ [];
  public_key = ok "0123456789abcdef0123456789abcdef0123456789abcdef0123456789ABCDEF\n";
  has_manifest = true;
  pin = ok pin;
  parts = λ arch. record {
    binary = ok (elf_for arch);
    descriptor = ok (descriptor arch);
    helper = ok (elf_for arch);
  };
  verify = some (λ arch. ok (descriptor arch));
  sha256 = λ body. digest;
}

opened : Unit {0}
unfolding fullmatch strip split_on int_of has_exactly has_fields json_eq item get text_item as_str
    lookup minor_of check_pin_fields check_stable bundle_identity arch_machine exceeds_limit is_elf
    check_elf begins occurs check_token check_host_installer has_symlink check_bundled check_binary
    check_signed check_recipe check_arch check_inputs
opened = tt

inputs_test : check_inputs repository ≡ ok ("3.1.0", (descriptor "arm", descriptor "arm64"))
unfolding opened
inputs_test = refl

blocked_test :
    check_host_installer (codes "# detect_package\n")
    ≡ raise (value_error "software-center installer guard rejects text")
unfolding opened
blocked_test = refl

check_inputs_example : IsChecked repository "3.1.0" (descriptor "arm") (descriptor "arm64")
check_inputs_example =
    check_inputs-IsChecked repository "3.1.0" (descriptor "arm") (descriptor "arm64") inputs_test

check_host_installer_example : (check_host_installer (codes "exit 0") ≡ ok tt) ↔ (
    ¬ IsIn (codes "detect_package") (codes "exit 0")
    × ¬ IsIn (codes "ks_tar_install") (codes "exit 0"))
check_host_installer_example = check_host_installer_iff (codes "exit 0")
