-- ===== src/Helper/Lock.antt =====
-- `validate_helper_lock` of tools/build_helper.py.
use tailscale_koolshare.Common.{ℕ, pos, String, true, List, [], ◌∷◌, ◌==◌, if◌then◌else◌}
use tailscale_koolshare.Common.Outcome.{
  Result, ok, raise, ◌>>=◌, ◌>>◌, type_error, attribute_error, require, for_each, traverse,
}
use tailscale_koolshare.Python.Interpreter.{Interpreter}
use tailscale_koolshare.Python.Text.{◌<>◌}
use tailscale_koolshare.Python.Json.{
  Json, bool, int, str, arr, obj, nil, cons, to_items, Fields, end, field, fields, json_eq, item,
  text_item,
}
use tailscale_koolshare.Toolchain.Lock.{has_fields, validate_go_lock}
use tailscale_koolshare.Toolchain.Resolve.{resolve_go}

-- The digests of go.mod and of tools/helper_recipe.json: what `source_fingerprints` returns.
pub record Fingerprints : Type 0 where
  pub go_mod_sha256 : String
  pub recipe_sha256 : String

-- What the checkout holds: the two files that are read, `go_baseline` of the recipe, and SHA-256.
pub record Checkout : Type 0 where
  pub go_mod : List ℕ
  pub go_mod_text : String
  pub recipe : List ℕ
  pub go_baseline : Json
  pub sha256 : List ℕ → String

unfoldable pub source_fingerprints : Checkout → Fingerprints
source_fingerprints root = record {
  go_mod_sha256 = root.sha256 root.go_mod;
  recipe_sha256 = root.sha256 root.recipe;
}

-- `{**d, k: v}`: an entry that is there keeps its place.
unfoldable pub with_entry : String → Json → Fields → Fields
with_entry k v end = field k v end
with_entry k v (field j u fs) =
    let rest = with_entry k v fs in if j == k then field j v fs else field j u rest

-- The entry of the catalog for a locked archive.
unfoldable pub catalog_file : String → String × Json → Result Json
catalog_file version (arch, obj fs) = ok (
    obj (
      with_entry "kind" (str "archive") (
        with_entry "arch" (str arch)
          (with_entry "os" (str "linux") (with_entry "version" (str ("go" <> version)) fs)))))
catalog_file version (arch, _) = raise type_error

unfoldable pub locked_archives : Json → Result (List (String × Json))
locked_archives (obj fs) = ok (fields fs)
locked_archives _ = raise attribute_error

-- The catalog with the locked release alone.
unfoldable pub locked_catalog : Json → Result Json
locked_catalog locked = do
  version ← text_item "version" locked
  archives ← item "archives" locked
  entries ← locked_archives archives
  files ← traverse (catalog_file version) entries
  ok (
      arr (
        cons
          (obj (
            field "version" (str ("go" <> version))
              (field "stable" (bool true) (field "files" (arr (to_items files)) end))))
          nil))

-- `document[key] == value`
unfoldable pub check_fingerprint : Json → String × String → Result (Unit {0})
check_fingerprint document (key, value) = do
  found ← item key document
  require (json_eq found (str value)) "helper toolchain lock differs from its source or recipe"

abbrev pub fingerprint_entries : Fingerprints → List (String × String)
fingerprint_entries f = ("go_mod_sha256", f.go_mod_sha256) ∷ ("recipe_sha256", f.recipe_sha256) ∷ []

module _ ⦃py : Interpreter⦄ where
  unfoldable pub validate_helper_lock : Checkout → Json → Result Json
  validate_helper_lock root document = do
    require (has_fields ("schema" ∷ "go_mod_sha256" ∷ "recipe_sha256" ∷ "go" ∷ []) document)
        "invalid helper toolchain lock fields"
    schema ← item "schema" document
    require (json_eq schema (int (pos 1))) "unsupported helper toolchain lock schema"
    go ← item "go" document
    go' ← validate_go_lock go
    for_each (check_fingerprint document) (fingerprint_entries (source_fingerprints root))
    catalog ← locked_catalog go
    selected ← resolve_go (str root.go_mod_text) root.go_baseline catalog
    require (json_eq selected go) "helper toolchain lock does not match its own Go requirements"
    ok go
