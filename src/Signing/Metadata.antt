-- ===== src/Signing/Metadata.antt =====
-- `validate_metadata` and `validated_core` of tools/release_core.py, and `lock_hash` of
-- tools/resolve_core.py.
use tailscale_koolshare.Common.{
  ℕ, pos, String, Bool, true, false, not, ◌&&◌, ◌||◌, List, [], ◌∷◌, none, some, eqb,
}
use tailscale_koolshare.Common.Outcome.{
  Result, ok, raise, ◌>>=◌, ◌>>◌, attribute_error, require, for_each,
}
use tailscale_koolshare.Python.Interpreter.{Interpreter}
use tailscale_koolshare.Python.Text.{◌<>◌}
use tailscale_koolshare.Python.Json.{
  Json, int, str, obj, lookup, contains, keys, json_eq, item, get, is_obj,
}
use tailscale_koolshare.CoreLock.Lock.{Recipe, validate_lock}
use tailscale_koolshare.Archive.Elf.{max_binary, check_elf}

-- `json.dumps` with sorted keys and the shortest separators, and SHA-256 of a text and of a file.
pub record Library : Type 0 where
  pub dumps : Json → String
  pub text_sha256 : String → String
  pub file_sha256 : List ℕ → String

unfoldable pub lock_hash : Library → Json → String
lock_hash lib lock = lib.text_sha256 ("tailscale-core-lock-v1\0" <> lib.dumps lock)

-- `metadata.get("schema", 1)`
unfoldable pub schema_of : Json → Result Json
schema_of (obj fs) = elim (lookup "schema" fs) [ none ↦ ok (int (pos 1)) | some v ↦ ok v ]
schema_of _ = raise attribute_error

-- `type(v) is int and v == n`
unfoldable pub is_int : ℕ → Json → Bool
is_int n (int (pos k)) = eqb k n
is_int n _ = false

-- `k in d`
unfoldable pub has_key : String → Json → Bool
has_key k (obj fs) = contains k (keys fs)
has_key k _ = false

-- `metadata.get(key) == value`, for each key.
unfoldable pub check_entry : Json → String × Json → Result (Unit {0})
check_entry metadata (key, value) = do
  found ← get key metadata
  require (json_eq found value) "core build metadata differs from its dependency lock"

-- What the lock says of the build.
unfoldable pub expected_entries : Library → Json → Result (List (String × Json))
expected_entries lib lock = do
  version ← item "version" lock
  build ← item "build" lock
  source ← item "source" lock
  commit ← item "commit" source
  sha256 ← item "sha256" source
  go ← item "go" lock
  go_version ← item "version" go
  recipe ← item "recipe_source_sha256" lock
  ok (
      ("version", version)
      ∷ ("build", build)
      ∷ ("source_commit", commit)
      ∷ ("source_sha256", sha256)
      ∷ ("go_version", go_version)
      ∷ ("recipe_source_sha256", recipe)
      ∷ ("recipe_sha256", str (lock_hash lib lock))
      ∷ [])

-- `metadata.get(key) == recipe[key]`, with the recipe from tools/core_recipe.json.
unfoldable pub check_recipe_entry : Json → Json → String → Result (Unit {0})
check_recipe_entry metadata recipe key = do
  found ← get key metadata
  value ← item key recipe
  require (json_eq found value) "core build metadata differs from the locked build recipe"

-- `built.get(key) == metadata[key]`
unfoldable pub check_built : Json → Json → String → Result (Unit {0})
check_built built metadata key = do
  found ← get key built
  value ← item key metadata
  require (json_eq found value) "architecture build provenance differs from release metadata"

abbrev pub provenance_keys : Bool → List String
provenance_keys true =
    "version" ∷ "build" ∷ "source_commit" ∷ "recipe_sha256" ∷ "go_version" ∷ "source_sha256" ∷ []
provenance_keys false = "version" ∷ "build" ∷ "source_commit" ∷ "recipe_sha256" ∷ []

module _ ⦃py : Interpreter⦄ (lib : Library) (recipe : Recipe) (core_recipe : Json) where
  -- The part for schema 2.
  unfoldable pub check_locked : Json → Result (Unit {0})
  check_locked metadata = do
    lock ← get "dependency_lock" metadata
    require (is_obj lock) "core build metadata requires a dependency lock"
    lock' ← validate_lock recipe true lock
    entries ← expected_entries lib lock
    for_each (check_entry metadata) entries
    for_each (check_recipe_entry metadata core_recipe) ("upx_version" ∷ "tags" ∷ [])

  -- The part after the test of the schema, by whether that is 1.
  unfoldable pub check_schema : Bool → Json → Result (Unit {0})
  check_schema true metadata =
      require (not (has_key "dependency_lock" metadata))
        "dependency lock requires core build metadata schema 2"
  check_schema false metadata = check_locked metadata

  unfoldable pub validate_metadata : Json → Result (Unit {0})
  validate_metadata metadata = do
    schema ← schema_of metadata
    require (is_int 1 schema || is_int 2 schema) "unsupported core build metadata schema"
    check_schema (is_int 1 schema) metadata

  -- The bytes are those of the binary of the architecture, and `built` is its build.json.
  unfoldable pub validated_core : String → Json → List ℕ → Json → Result (ℕ × String)
  validated_core arch metadata binary built = do
    validate_metadata metadata
    core ← check_elf lib.file_sha256 binary arch (some max_binary)
    schema ← get "schema" metadata
    for_each (check_built built metadata) (provenance_keys (json_eq schema (int (pos 2))))
    built_arch ← get "arch" built
    size ← get "binary_size" built
    digest ← get "binary_sha256" built
    require
        (json_eq built_arch (str arch)
          && json_eq size (int (pos core.0))
          && json_eq digest (str core.1))
        "architecture binary differs from its successful build record"
    ok core
