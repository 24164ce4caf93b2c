-- ===== src/Toolchain/Tests.antt =====
-- Runs of the toolchain functions, and the theorems at concrete inputs.
use tailscale_koolshare.Common.{◌≡◌, ◌↔◌, refl, true, [], ◌∷◌, String, pos}
use tailscale_koolshare.Common.Outcome.{ok, raise, value_error}
use tailscale_koolshare.Python.Interpreter.{Interpreter, ascii}
use tailscale_koolshare.Python.Text.{◌<>◌}
use tailscale_koolshare.Python.Json.{Json, null, bool, int, str, arr, obj, cons, nil, field, end}
use tailscale_koolshare.Python.Regex.{fullmatch}
use tailscale_koolshare.Python.Text.{
  strip, remove_prefix, split_on, words, before_comment, splitlines,
}
use tailscale_koolshare.Python.Number.{int_of}
use tailscale_koolshare.Python.Json.{has_exactly, json_eq, item, as_str, lookup}
use tailscale_koolshare.Toolchain.Version.{version, key, key_ltb, max_from, max_by_key}
use tailscale_koolshare.Toolchain.Requirements.{
  directive, scan_lines, suggested_version, upstream_version, selected, from_directives,
  requirements,
}
use tailscale_koolshare.Toolchain.Lock.{
  has_fields, is_match, is_positive_int, archive_name, archive_url, check_archive,
  check_requirement, check_greatest, validate_go_lock,
}
use tailscale_koolshare.Toolchain.Lock.Valid.{IsGoLock, validate_go_lock_iff}
use tailscale_koolshare.Toolchain.Resolve.Sound.{IsResolved, resolve_go-IsResolved}
use tailscale_koolshare.Toolchain.Resolve.{
  entry_is, entry, is_archive_of, resolve_archive, resolve_go,
}
use tailscale_koolshare.Toolchain.Sample.{sum, sample_lock}

instance abbrev plain : Interpreter
plain = ascii

abbrev entry_for : String → Json
entry_for arch = obj (
    field "filename" (str ("go1.26.6.linux-" <> arch <> ".tar.gz")) (
      field "os" (str "linux") (
        field "arch" (str arch) (
          field "version" (str "go1.26.6") (
            field "sha256" (str sum)
              (field "size" (int (pos 70)) (field "kind" (str "archive") end)))))))

abbrev catalog : Json
catalog = arr (
    cons
      (obj (
        field "version" (str "go1.26.6") (
          field "stable" (bool true)
            (field "files" (arr (cons (entry_for "amd64") (cons (entry_for "arm64") nil))) end))))
      nil)

abbrev go_mod : Json
go_mod = str "module m\n\ngo 1.26 // language\r\ntoolchain go1.26.6\n"

-- Opens all that the runs below compute with.
opened : Unit {0}
unfolding version key key_ltb max_from max_by_key strip remove_prefix fullmatch split_on int_of
    directive scan_lines words before_comment splitlines suggested_version upstream_version selected
    from_directives requirements has_fields has_exactly is_match is_positive_int archive_name
    archive_url json_eq item check_archive check_requirement check_greatest as_str validate_go_lock
    entry_is lookup entry is_archive_of resolve_archive resolve_go
opened = tt

version_test : version (str " go1.26\n") true ≡ ok "1.26.0"
unfolding opened
version_test = refl

key_test : key "1.26.6" ≡ ok (pos 1 ∷ pos 26 ∷ pos 6 ∷ [])
unfolding opened
key_test = refl

resolve_test : resolve_go go_mod null catalog ≡ ok sample_lock
unfolding opened
resolve_test = refl

ambiguous_directives :
    requirements (str "go 1.26\ngo 1.27\n") null
    ≡ raise (value_error "expected one go directive and at most one toolchain directive")
unfolding opened
ambiguous_directives = refl

greatest_test : max_by_key ("1.9.0" ∷ "1.10.0" ∷ "1.2.30" ∷ []) ≡ ok "1.10.0"
unfolding opened
greatest_test = refl

validate_go_lock_example : (validate_go_lock sample_lock ≡ ok sample_lock) ↔ IsGoLock sample_lock
validate_go_lock_example = validate_go_lock_iff sample_lock

resolve_go_example : IsResolved go_mod null catalog sample_lock
resolve_go_example = resolve_go-IsResolved go_mod null catalog resolve_test
