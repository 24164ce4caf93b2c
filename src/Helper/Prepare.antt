-- ===== src/Helper/Prepare.antt =====
-- `prepare_helper_toolchain` of tools/build_helper.py, on the file of the lock: what `json.loads`
-- makes of its contents, where it is there. What `json.dump` writes is taken to be read as the value
-- that was written.
pub mod Kept
use tailscale_koolshare.Common.{pos, String, Bool, true, false, ◌&&◌, List, Option, none, some, all}
use tailscale_koolshare.Common.Outcome.{Result, ok, raise}
use tailscale_koolshare.Common.State.{Run, ◌>>=◌, ◌>>◌, lift, modify, pure}
use tailscale_koolshare.Python.Interpreter.{Interpreter}
use tailscale_koolshare.Python.Json.{Json, int, str, obj, field, end, json_eq, lookup, or_null}
use tailscale_koolshare.Toolchain.Resolve.{resolve_go}
use tailscale_koolshare.Helper.Lock.{
  Fingerprints, Checkout, source_fingerprints, fingerprint_entries, validate_helper_lock,
}

abbrev pub LockFile : Type 0
LockFile = Option (Result Json)

-- `isinstance(d, dict) and d.get(key) == value`
unfoldable pub has_text : Json → String × String → Bool
has_text (obj fs) (key, value) = json_eq (or_null (lookup key fs)) (str value)
has_text _ (key, value) = false

unfoldable pub is_current : Checkout → Json → Bool
is_current root document = all (has_text document) (fingerprint_entries (source_fingerprints root))

unfoldable pub new_document : Fingerprints → Json → Json
new_document f lock = obj (
    field "schema" (int (pos 1)) (
      field "go_mod_sha256" (str f.go_mod_sha256)
        (field "recipe_sha256" (str f.recipe_sha256) (field "go" lock end))))

-- The catalog is the one that is given, or what the request for it gives.
module _ ⦃py : Interpreter⦄ (root : Checkout) (catalog : Result Json) where
  unfoldable pub write_document : Json → Run LockFile (Unit {0})
  write_document document = modify (λ _. some (ok document))

  unfoldable pub refresh : Run LockFile Json
  refresh = do
    entries ← lift catalog
    lock ← lift (resolve_go (str root.go_mod_text) root.go_baseline entries)
    let document = new_document (source_fingerprints root) lock
    _ ← lift (validate_helper_lock root document)
    write_document document
    pure lock

  -- By whether the document was made from the same files.
  unfoldable pub reuse_if : Bool → Json → Run LockFile Json
  reuse_if true document = lift (validate_helper_lock root document)
  reuse_if false document = refresh

  unfoldable pub prepare_from : LockFile → Run LockFile Json
  prepare_from none = refresh
  prepare_from (some contents) =
      lift contents >>= λ document. reuse_if (is_current root document) document

  unfoldable pub prepare_helper_toolchain : Run LockFile Json
  prepare_helper_toolchain path = prepare_from path path
