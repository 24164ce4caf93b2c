-- ===== src/CoreLock/Lock.antt =====
-- `validate_lock` of tools/resolve_core.py.
pub mod Source
pub mod Valid
use tailscale_koolshare.Common.{
  ℕ, ℤ, pos, String, Bool, true, false, not, ◌&&◌, ◌||◌, List, [], ◌∷◌, ◌==◌, eqb, if◌then◌else◌,
}
use tailscale_koolshare.Common.Outcome.{Result, ok, raise, ◌>>=◌, ◌>>◌, value_error, require}
use tailscale_koolshare.Python.Interpreter.{Interpreter}
use tailscale_koolshare.Python.Regex.{times}
use tailscale_koolshare.Python.Text.{◌<>◌}
use tailscale_koolshare.Python.Json.{Json, null, int, str, item, json_eq, is_null, text_item}
use tailscale_koolshare.Toolchain.Lock.{hex, has_fields, is_match, validate_go_lock}
use tailscale_koolshare.CoreLock.Identity.{build_number, check_stable}

-- What the validation takes from the checkout: `go_policy` of tools/core_recipe.json, and
-- `recipe_hash()` of tools/build_core.py, a digest of five of its files.
pub record Recipe : Type 0 where
  pub go_policy : Json
  pub hash : String

abbrev pub lock_fields : List String
lock_fields =
    "schema" ∷ "version" ∷ "build" ∷ "source" ∷ "go" ∷ "upstream_toolchain_rev"
    ∷ "recipe_source_sha256" ∷ []

-- `type(v) is int and v == 1`
unfoldable pub is_int_one : Json → Bool
is_int_one (int (pos n)) = eqb n 1
is_int_one _ = false

unfoldable pub source_url : String → String
source_url commit = "https://codeload.github.com/tailscale/tailscale/tar.gz/" <> commit

module _ ⦃py : Interpreter⦄ where
  -- A text that is a stable version.
  unfoldable pub check_version : Json → Result (Unit {0})
  check_version (str version) = check_stable "lock must identify a stable core version" version
  check_version _ = raise (value_error "lock must identify a stable core version")

  unfoldable pub check_source : Json → Json → Result (Unit {0})
  check_source source recipe = do
    require (has_fields ("commit" ∷ "url" ∷ "sha256" ∷ []) source) "invalid source lock"
    commit ← item "commit" source
    sha256 ← item "sha256" source
    require (is_match (times 40 hex) commit) "invalid dependency provenance hash"
    require (is_match (times 64 hex) sha256) "invalid dependency provenance hash"
    require (is_match (times 64 hex) recipe) "invalid dependency provenance hash"
    url ← item "url" source
    text ← text_item "commit" source
    require (json_eq url (str (source_url text))) "untrusted source archive URL"

  unfoldable pub validate_lock : Recipe → Bool → Json → Result Json
  validate_lock recipe check_recipe lock = do
    require (has_fields lock_fields lock) "invalid core dependency lock"
    schema ← item "schema" lock
    require (is_int_one schema) "invalid core dependency lock"
    version ← item "version" lock
    check_version version
    build ← item "build" lock
    require (is_match build_number build) "invalid core build identity"
    source ← item "source" lock
    locked_recipe ← item "recipe_source_sha256" lock
    check_source source locked_recipe
    revision ← item "upstream_toolchain_rev" lock
    require (is_null revision || is_match (times 40 hex) revision)
        "invalid upstream toolchain revision"
    go ← item "go" lock
    go' ← validate_go_lock go
    require (json_eq recipe.go_policy (str "upstream-stable-official"))
        "unsupported Go dependency policy"
    require (not check_recipe || json_eq locked_recipe (str recipe.hash))
        "locked recipe differs from current sources; use the original recipe or a new build number"
    ok lock
