-- ===== src/Toolchain/Lock.antt =====
-- `validate_go_lock` of tools/toolchain.py.
pub mod Archive
pub mod Valid
use tailscale_koolshare.Common.{
  suc, pos, String, Bool, true, false, not, ◌&&◌, List, [], ◌∷◌, ◌==◌, if◌then◌else◌, keep,
}
use tailscale_koolshare.Common.Outcome.{
  Result, ok, raise, ◌>>=◌, ◌>>◌, value_error, require, traverse, for_each,
}
use tailscale_koolshare.Python.Interpreter.{Interpreter}
use tailscale_koolshare.Python.Regex.{Regex, range, alt, times, fullmatch}
use tailscale_koolshare.Python.Text.{◌<>◌}
use tailscale_koolshare.Python.Json.{
  Json, null, int, str, obj, values, has_exactly, json_eq, item, as_str, is_null,
}
use tailscale_koolshare.Toolchain.Version.{version, max_by_key}

abbrev pub arches : List String
arches = "amd64" ∷ "arm64" ∷ []

abbrev pub hex : Regex
hex = alt (range b'0' b'9') (range b'a' b'f')

-- `isinstance(v, dict) and set(v) == {…}`
unfoldable pub has_fields : List String → Json → Bool
has_fields names (obj fs) = has_exactly names fs
has_fields names _ = false

-- `isinstance(v, str) and re.fullmatch(…, v)`
unfoldable pub is_match : Regex → Json → Bool
is_match r (str s) = fullmatch r s
is_match r _ = false

-- `type(v) is int and v > 0`
unfoldable pub is_positive_int : Json → Bool
is_positive_int (int (pos (suc n))) = true
is_positive_int _ = false

abbrev pub values_of : Json → List Json
values_of (obj fs) = values fs
values_of _ = []

unfoldable pub archive_name : String → String → String
archive_name v arch = "go" <> v <> ".linux-" <> arch <> ".tar.gz"

unfoldable pub archive_url : String → String
archive_url name = "https://go.dev/dl/" <> name

unfoldable pub check_archive : String → Json → String → Result (Unit {0})
check_archive v archives arch = do
  archive ← item arch archives
  require (has_fields ("filename" ∷ "url" ∷ "sha256" ∷ "size" ∷ []) archive)
      "invalid Go archive fields"
  filename ← item "filename" archive
  url ← item "url" archive
  require
      (json_eq filename (str (archive_name v arch))
        && json_eq url (str (archive_url (archive_name v arch))))
      "Go archive must use its exact official download URL"
  sha ← item "sha256" archive
  require (is_match (times 64 hex) sha) "invalid Go archive SHA-256"
  size ← item "size" archive
  require (is_positive_int size) "invalid Go archive size"

module _ ⦃py : Interpreter⦄ where
  -- A requirement is absent, or a canonical version.
  unfoldable pub check_requirement : Json → Result (Unit {0})
  check_requirement null = ok tt
  check_requirement v = do
    canonical ← version v false
    require (json_eq (str canonical) v) "Go requirements must be canonical"

  unfoldable pub check_greatest : String → List Json → Result (Unit {0})
  check_greatest v required = do
    names ← traverse as_str (keep (λ r. not (is_null r)) required)
    greatest ← max_by_key names
    require (v == greatest) "Go lock does not match the source requirements"

  unfoldable pub validate_go_lock : Json → Result Json
  validate_go_lock lock = do
    require (has_fields ("version" ∷ "requirements" ∷ "archives" ∷ []) lock)
        "invalid Go lock fields"
    given ← item "version" lock
    v ← version given false
    require (json_eq (str v) given) "Go lock version must be canonical"
    required ← item "requirements" lock
    require (has_fields ("go" ∷ "toolchain" ∷ "upstream" ∷ []) required) "invalid Go requirements"
    minimum ← item "go" required
    require (not (is_null minimum)) "Go minimum is required"
    for_each check_requirement (values_of required)
    check_greatest v (values_of required)
    archives ← item "archives" lock
    require (has_fields arches archives) "Go archives must cover linux amd64 and arm64"
    for_each (check_archive v archives) arches
    ok lock
