-- ===== src/CoreLock/Tests.antt =====
-- A lock and a pin, and the theorems at them.
use tailscale_koolshare.Common.{true, ◌≡◌, ◌↔◌, refl}
use tailscale_koolshare.Common.Outcome.{ok, raise, value_error}
use tailscale_koolshare.Python.Interpreter.{Interpreter, ascii}
use tailscale_koolshare.Python.Text.{strip, remove_prefix, split_on}
use tailscale_koolshare.Python.Number.{int_of}
use tailscale_koolshare.Python.Regex.{fullmatch}
use tailscale_koolshare.Python.Json.{
  Json, str, obj, field, end, has_exactly, json_eq, item, as_str, lookup, text_item,
}
use tailscale_koolshare.CoreLock.Identity.{
  minor_of, check_pin_fields, check_stable, bundle_identity,
}
use tailscale_koolshare.CoreLock.Identity.Stable.{
  IsStable, check_stable_iff, IsIdentity, bundle_identity_iff,
}
use tailscale_koolshare.CoreLock.Lock.{
  is_int_one, source_url, check_version, check_source, validate_lock,
}
use tailscale_koolshare.CoreLock.Lock.Valid.{IsCoreLock, validate_lock_iff}
use tailscale_koolshare.Toolchain.Version.{version, key, key_ltb, max_from, max_by_key}
use tailscale_koolshare.Toolchain.Lock.{
  has_fields, is_match, is_positive_int, archive_name, archive_url, check_archive,
  check_requirement, check_greatest, validate_go_lock,
}
use tailscale_koolshare.CoreLock.Sample.{lock, recipe}

instance abbrev plain : Interpreter
plain = ascii

abbrev pin : Json
pin = obj (field "build" (str "r4") (field "version" (str "1.98.2") end))

opened : Unit {0}
unfolding version key key_ltb max_from max_by_key strip remove_prefix fullmatch split_on int_of
    has_fields has_exactly is_match is_positive_int archive_name archive_url json_eq item text_item
    as_str check_archive check_requirement check_greatest validate_go_lock lookup minor_of
    check_pin_fields check_stable bundle_identity is_int_one source_url check_version check_source
    validate_lock
opened = tt

lock_test : validate_lock recipe true lock ≡ ok lock
unfolding opened
lock_test = refl

pin_test : bundle_identity pin ≡ ok pin
unfolding opened
pin_test = refl

unstable_test : check_stable "unstable" "1.97.2" ≡ raise (value_error "unstable")
unfolding opened
unstable_test = refl

check_stable_example : (check_stable "unstable" "1.98.2" ≡ ok tt) ↔ IsStable "1.98.2"
check_stable_example = check_stable_iff "unstable" "1.98.2"

bundle_identity_example : (bundle_identity pin ≡ ok pin) ↔ IsIdentity pin
bundle_identity_example = bundle_identity_iff pin

validate_lock_example : (validate_lock recipe true lock ≡ ok lock) ↔ IsCoreLock recipe true lock
validate_lock_example = validate_lock_iff recipe true lock
