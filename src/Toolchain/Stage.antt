-- ===== src/Toolchain/Stage.antt =====
-- The steps of `provision_go` of tools/toolchain.py that do not depend on the disk. What a caller
-- hands over, the codecs and the other processes are parameters.
use tailscale_koolshare.Common.{ℕ, String, List, [], ◌∷◌, ◌++◌, Option, none, some}
use tailscale_koolshare.Common.Outcome.{Exception, os_error, Result, ok, raise, ◌>>=◌, ◌>>◌}
use tailscale_koolshare.Python.Text.{◌<>◌}
use tailscale_koolshare.Python.Json.{Json, item, text_item}
use tailscale_koolshare.Files.{
  Node, file, link, dir, Tree, Place, missing, directory, other, find_node, put_node,
}
use tailscale_koolshare.Toolchain.Tree.{Codec, marker_path, tree_hash, check_extracted, marker}
use tailscale_koolshare.Toolchain.Install.{prefix}

pub record Disk : Type 0 where
  pub cached : Option Node
  pub target : Place

-- Where other processes may act.
pub data Moment : Type 0 where
  before_reuse : Moment
  before_extract : Moment
  before_recheck : Moment
  before_move : Moment

pub record Outside : Type 0 where
  pub codec : Codec
  -- the file that `download` leaves, for a URL and a digest
  pub download : String → String → Result (Option Node)
  -- the directory that `extract` leaves, an absent one being empty
  pub extract : Option Node → Result Tree
  -- writing through a symbolic link of the tree
  pub write_through : String → List ℕ → Tree → Result Tree
  -- the permissions of a new file
  pub new_mode : ℕ
  pub others : Moment → Disk → Disk
  -- what a rename of a directory raises where the destination is a directory with entries
  pub collision : Exception

-- `lock["archives"][host]`
unfoldable pub archive_of : Json → String → Result Json
archive_of lock host = do archives ← item "archives" lock; item host archives

-- The name of the archive in the cache.
unfoldable pub cached_name : Json → Result String
cached_name archive = do
  sha256 ← text_item "sha256" archive
  filename ← text_item "filename" archive
  ok (prefix 16 sha256 <> "-" <> filename)

-- `candidate.replace(cached)`
unfoldable pub replace_file : Option Node → Option Node → Result (Option Node)
replace_file candidate (some dir) = raise os_error
replace_file candidate cached = ok candidate

-- `staging.rename(target)`: an empty directory is replaced.
unfoldable pub rename_onto : Exception → Tree → Place → Result Place
rename_onto collision staging missing = ok (directory staging)
rename_onto collision staging (directory []) = ok (directory staging)
rename_onto collision staging (directory (e ∷ es)) = raise collision
rename_onto collision staging (other node) = raise os_error

module _ (w : Outside) where
  -- `path.write_bytes(…)` for the marker
  unfoldable pub write_marker : List ℕ → Option Node → Tree → Result Tree
  write_marker body none tree = ok (put_node marker_path (file w.new_mode body) tree)
  write_marker body (some (file mode old)) tree = ok (put_node marker_path (file mode body) tree)
  write_marker body (some (link path)) tree = w.write_through path body tree
  write_marker body (some _) tree = raise os_error

  -- The tree that is extracted, checked and marked.
  unfoldable pub stage : Json → String → Option Node → Result Tree
  stage lock host cached = do
    staging ← w.extract cached
    version ← text_item "version" lock
    check_extracted w.codec staging version
    digest ← tree_hash w.codec staging
    write_marker (w.codec.encoded (marker lock host digest) ++ 10 ∷ [])
        (find_node marker_path staging) staging
