-- ===== src/Resolve/Locked.antt =====
-- `resolve` of tools/resolve_core.py.
use tailscale_koolshare.Common.{
  String, Bool, true, false, not, ◌&&◌, ◌||◌, Option, none, some, ◌==◌,
}
use tailscale_koolshare.Common.Outcome.{Result, ok, require}
use tailscale_koolshare.Python.Interpreter.{Interpreter}
use tailscale_koolshare.Python.Json.{Json, str, json_eq, item}
use tailscale_koolshare.Publish.Action.{
  Bytes, World, Action, ◌>>=◌, ◌>>◌, pure, lift, api, write_file,
}
use tailscale_koolshare.Signing.Metadata.{Library}
use tailscale_koolshare.CoreLock.Lock.{Recipe, validate_lock}
use tailscale_koolshare.Discovery.Commit.{source_commit}
use tailscale_koolshare.Resolve.Check.{commit_in}
use tailscale_koolshare.Resolve.New.{Pins, Upstream, fetch_source, source_files, finish_lock}
use tailscale_koolshare.Resolve.Published.{published_lock}

abbrev pub catalog_url : String
catalog_url = "https://go.dev/dl/?mode=json&include=all"

-- What `resolve` runs in: `cached` is the JSON of the lock file, where there is one.
pub record Workspace : Type 0 where
  pub lib : Library
  pub recipe : Recipe
  pub pins : Pins
  pub upstream : Upstream
  pub loads : Bytes → Result Json
  pub helper : Bool
  pub path : String
  pub cached : Option (Result Json)
  -- `json.dumps` with an indent, and a line end
  pub printed : Json → Bytes

-- Two locks, where there are two, are equal.
unfoldable pub same_locks : Option Json → Option Json → Result (Unit {0})
same_locks (some lock) (some cached) =
    require (json_eq lock cached) "cached dependency lock differs from the signed published lock"
same_locks _ _ = ok tt

-- `lock or cached`, for locks that are valid and so not empty
unfoldable pub either_lock : Option Json → Option Json → Option Json
either_lock (some lock) cached = some lock
either_lock none cached = cached

unfoldable pub check_pinned : Pins → String → String → Result (Unit {0})
check_pinned pins version commit =
    require (not (version == pins.initial_version) || commit == pins.initial_source_commit)
      "pinned upstream source tag moved"

module _ ⦃py : Interpreter⦄ (w : World) (c : Workspace) where
  unfoldable pub reused_lock : Bool → String → Action (Option Json)
  reused_lock true version = published_lock w c.lib c.recipe c.loads c.helper version c.pins.build
  reused_lock false version = pure none

  unfoldable pub cached_lock : Option (Result Json) → Action (Option Json)
  cached_lock none = pure none
  cached_lock (some contents) = do
    given ← lift contents
    lock ← lift (validate_lock c.recipe true given)
    pure (some lock)

  -- The identity of a lock that is there.
  unfoldable pub check_identity : String → String → Json → Action Json
  check_identity version commit lock = do
    its_version ← lift (item "version" lock)
    its_build ← lift (item "build" lock)
    its_commit ← lift (commit_in lock)
    lift (
        require
          (json_eq its_version (str version)
            && json_eq its_build (str c.pins.build)
            && json_eq its_commit (str commit))
          "cached dependency lock has a different source or release identity")
    pure lock

  unfoldable pub lock_from : String → String → Option Json → Action Json
  lock_from version commit (some lock) = check_identity version commit lock
  lock_from version commit none = do
    source ← lift (fetch_source c.lib c.recipe c.pins c.upstream version commit)
    required ← lift (source_files c.lib c.recipe c.pins c.upstream version commit source.1)
    catalog ← api w catalog_url
    lift (finish_lock c.lib c.recipe c.pins c.upstream version commit source.0 required catalog)

  unfoldable pub resolve : Bool → String → String → Action Json
  resolve reuse_published version commit = do
    tagged ← source_commit w version
    lift (require (tagged == commit) "upstream source tag changed after version discovery")
    lift (check_pinned c.pins version commit)
    published ← reused_lock reuse_published version
    cached ← cached_lock c.cached
    lift (same_locks published cached)
    lock ← lock_from version commit (either_lock published cached)
    write_file c.path (c.printed lock)
    pure lock
