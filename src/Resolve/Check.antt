-- ===== src/Resolve/Check.antt =====
-- The part of `published_lock` of tools/resolve_core.py that checks the metadata of a release.
use tailscale_koolshare.Common.{pos, String, Bool, true, ◌&&◌, [], ◌∷◌}
use tailscale_koolshare.Common.Outcome.{Result, ok, ◌>>=◌, ◌>>◌, require, for_each}
use tailscale_koolshare.Python.Interpreter.{Interpreter}
use tailscale_koolshare.Python.Json.{Json, int, str, json_eq, item, get}
use tailscale_koolshare.Publish.Descriptor.{Descriptors}
use tailscale_koolshare.Signing.Metadata.{Library, lock_hash, has_key}
use tailscale_koolshare.CoreLock.Lock.{Recipe, validate_lock}

-- `v == 2`
unfoldable pub is_two : Json → Bool
is_two v = json_eq v (int (pos 2))

-- `lock["source"]["commit"]`
unfoldable pub commit_in : Json → Result Json
commit_in lock = do source ← item "source" lock; item "commit" source

module _ (lib : Library) (version build : String) where
  unfoldable pub check_descriptor : Json → Json → Result (Unit {0})
  check_descriptor lock descriptor = do
    its_version ← item "version" descriptor
    its_build ← item "build" descriptor
    its_commit ← item "source_commit" descriptor
    its_recipe ← item "recipe_sha256" descriptor
    commit ← commit_in lock
    require
        (json_eq its_version (str version)
          && json_eq its_build (str build)
          && json_eq its_commit commit
          && json_eq its_recipe (str (lock_hash lib lock)))
        "published dependency lock does not match its signed recipe"

  unfoldable pub metadata_lock : ⦃py : Interpreter⦄ → Recipe → Json → Descriptors → Result Json
  metadata_lock recipe metadata ds = do
    schema ← get "schema" metadata
    require (is_two schema && has_key "dependency_lock" metadata)
        "published core predates dependency locks; reproduce it using its original source checkout"
    given ← item "dependency_lock" metadata
    lock ← validate_lock recipe true given
    for_each (check_descriptor lock) (ds.arm ∷ ds.arm64 ∷ [])
    ok lock
