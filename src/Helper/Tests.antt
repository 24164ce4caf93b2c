-- ===== src/Helper/Tests.antt =====
-- A document of the helper's build, and the theorem at it.
use tailscale_koolshare.Common.{◌≡◌, refl, [], ◌∷◌, pos}
use tailscale_koolshare.Common.Outcome.{ok}
use tailscale_koolshare.Python.Interpreter.{Interpreter, ascii}
use tailscale_koolshare.Python.Json.{Json, null, int, str, obj, field, end}
use tailscale_koolshare.Python.Regex.{fullmatch}
use tailscale_koolshare.Python.Text.{
  strip, remove_prefix, split_on, words, before_comment, splitlines,
}
use tailscale_koolshare.Python.Number.{int_of}
use tailscale_koolshare.Python.Json.{has_exactly, json_eq, item, as_str, lookup}
use tailscale_koolshare.Toolchain.Version.{version, key, key_ltb, max_from, max_by_key}
use tailscale_koolshare.Toolchain.Requirements.{
  directive, scan_lines, suggested_version, upstream_version, selected, from_directives,
  requirements,
}
use tailscale_koolshare.Toolchain.Lock.{
  has_fields, is_match, is_positive_int, archive_name, archive_url, check_archive,
  check_requirement, check_greatest, validate_go_lock,
}
use tailscale_koolshare.Toolchain.Resolve.{
  entry_is, entry, is_archive_of, resolve_archive, resolve_go,
}
use tailscale_koolshare.Toolchain.Sample.{sum, sample_lock}
use tailscale_koolshare.Python.Json.{text_item}
use tailscale_koolshare.Helper.Lock.{
  Checkout, source_fingerprints, with_entry, catalog_file, locked_archives, locked_catalog,
  check_fingerprint, validate_helper_lock,
}
use tailscale_koolshare.Helper.Prepare.{
  has_text, is_current, new_document, write_document, refresh, reuse_if, prepare_from,
  prepare_helper_toolchain,
}
use tailscale_koolshare.Helper.Prepare.Kept.{Holds, prepare_helper_toolchain-Kept}
use tailscale_koolshare.Common.{none, some}
use tailscale_koolshare.Common.Outcome.{raise, os_error}
use tailscale_koolshare.Helper.Matching.{IsHelperLock, validate_helper_lock-IsHelperLock}

instance abbrev plain : Interpreter
plain = ascii

abbrev root : Checkout
root = record {
  go_mod = 1 ∷ [];
  go_mod_text = "module m\n\ngo 1.26\ntoolchain go1.26.6\n";
  recipe = 2 ∷ [];
  go_baseline = null;
  sha256 = λ bytes. sum;
}

abbrev document : Json
document = obj (
    field "schema" (int (pos 1)) (
      field "go_mod_sha256" (str sum)
        (field "recipe_sha256" (str sum) (field "go" sample_lock end))))

opened : Unit {0}
unfolding has_text is_current new_document write_document refresh reuse_if prepare_from
    prepare_helper_toolchain version key key_ltb max_from max_by_key strip remove_prefix fullmatch
    split_on int_of directive scan_lines words before_comment splitlines suggested_version
    upstream_version selected from_directives requirements has_fields has_exactly is_match
    is_positive_int archive_name archive_url json_eq item check_archive check_requirement
    check_greatest as_str validate_go_lock entry_is lookup entry is_archive_of resolve_archive
    resolve_go text_item source_fingerprints with_entry catalog_file locked_archives locked_catalog
    check_fingerprint validate_helper_lock
opened = tt

helper_test : validate_helper_lock root document ≡ ok sample_lock
unfolding opened
helper_test = refl

validate_helper_lock_example : IsHelperLock root document sample_lock
validate_helper_lock_example = validate_helper_lock-IsHelperLock root document helper_test

-- The catalog with the locked release, and no file yet.
refresh_test :
    prepare_helper_toolchain root (locked_catalog sample_lock) none
    ≡ (ok sample_lock, some (ok document))
unfolding opened
refresh_test = refl

prepare_helper_toolchain_example :
    Holds root (some (ok document)) sample_lock
    × (prepare_helper_toolchain root (raise os_error) (some (ok document))
        ≡ (ok sample_lock, some (ok document)))
prepare_helper_toolchain_example =
    prepare_helper_toolchain-Kept root (locked_catalog sample_lock) (raise os_error) none
      (some (ok document)) sample_lock refresh_test
