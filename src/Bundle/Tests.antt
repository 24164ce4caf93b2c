-- ===== src/Bundle/Tests.antt =====
-- Runs of the preparation, and the theorems at concrete inputs.
use mathlib.Core.List.{flatten}
use tailscale_koolshare.Common.{ℕ, String, List, [], ◌∷◌, none, ◌≡◌, refl, ◌==◌, if◌then◌else◌}
use tailscale_koolshare.Common.Outcome.{Result, ok, raise, os_error}
use tailscale_koolshare.Python.Interpreter.{Interpreter, ascii}
use tailscale_koolshare.Python.Regex.{fullmatch}
use tailscale_koolshare.Python.Text.{◌<>◌, split_on, after_last}
use tailscale_koolshare.Python.Number.{int_of}
use tailscale_koolshare.Python.Json.{
  Json, str, obj, field, end, has_exactly, json_eq, item, text_item, as_str, lookup,
}
use tailscale_koolshare.Toolchain.Lock.{has_fields}
use tailscale_koolshare.Files.{file, same_path, find_node, put_node}
use tailscale_koolshare.Build.Download.{
  is_expected, is_cached, replace, receive, digest_of, request_into, fetch_unless, download,
}
use tailscale_koolshare.Publish.Descriptor.{archive_file}
use tailscale_koolshare.CoreLock.Identity.{
  minor_of, check_pin_fields, check_stable, bundle_identity,
}
use tailscale_koolshare.Bundle.Stage.{
  Sources, base_url, asset, check_pin_entry, check_pin, check_same, sum_line, fetch_asset,
  manifest_from, archive_from, stage_arch, stage_all,
}
use tailscale_koolshare.Bundle.Prepare.{Inputs, put, Disk, replace_target, install, prepare}
use tailscale_koolshare.Bundle.Prepare.Unchanged.{IsSafe, prepare-IsSafe}
use tailscale_koolshare.Bundle.Prepare.Replaced.{IsPrepared, prepare-IsPrepared}

instance abbrev plain : Interpreter
plain = ascii

abbrev pin : Json
pin = obj (field "version" (str "1.98.2") (field "build" (str "r4") end))

abbrev descriptor : String → Json
descriptor arch = obj (
    field "version" (str "1.98.2") (
      field "build" (str "r4") (
        field "arch" (str arch) (
          field "url" (str ("https://example.com/core-" <> arch <> ".tar.gz")) (
            field "sha256" (str "0123")
              (field "source_commit" (str "abcd") (field "recipe_sha256" (str "fedc") end)))))))

abbrev sources : Sources
sources = record {
  release_dir = none;
  answer = λ url. ok (record { chunks = (1 ∷ []) ∷ []; failure = none });
  sha256 = λ body. "0123";
  verify = λ manifest arch. ok (descriptor arch);
  extract = λ archive d. ok (("tailscale.combined" ∷ [], file 493 archive) ∷ []);
}

abbrev encode : String → List ℕ
encode s = 48 ∷ []

abbrev disk : Disk
disk = record { removed = λ target. ok tt; moved = λ target. ok tt }

abbrev empty : Inputs
empty = record { arm = none; arm64 = none; release = none }

opened : Unit {0}
unfolding has_fields flatten fullmatch split_on after_last int_of has_exactly json_eq item text_item
    as_str lookup same_path find_node put_node is_expected is_cached replace receive digest_of
    request_into fetch_unless download archive_file minor_of check_pin_fields check_stable
    bundle_identity base_url asset check_pin_entry check_pin check_same sum_line fetch_asset
    manifest_from archive_from stage_arch stage_all put replace_target install prepare
opened = tt

abbrev prepared : Result Json × Inputs
prepared = prepare disk encode sources (ok pin) empty

prepare_test : prepared ≡ (ok pin, prepared.1)
unfolding opened
prepare_test = refl

prepare-IsPrepared_example : IsPrepared encode sources (ok pin) pin prepared.1
prepare-IsPrepared_example =
    prepare-IsPrepared disk encode sources (ok pin) empty prepared.1 pin prepare_test

-- A verifier that signs only one architecture.
abbrev half_signed : Sources
half_signed = record {
  release_dir = none;
  answer = sources.answer;
  sha256 = sources.sha256;
  verify = λ manifest arch. if arch == "arm" then ok (descriptor arch) else raise os_error;
  extract = sources.extract;
}

unsigned_test : prepare disk encode half_signed (ok pin) empty ≡ (raise os_error, empty)
unfolding opened
unsigned_test = refl

prepare-IsSafe_example : IsSafe encode sources (ok pin) empty prepared.1
prepare-IsSafe_example = prepare-IsSafe disk encode sources (ok pin) empty
