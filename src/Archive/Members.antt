-- ===== src/Archive/Members.antt =====
-- `archive_tree` of tools/artifact_utils.py: the members that it writes, in their order. How they
-- are encoded, and compressed without a name or a time, is that of tarfile and gzip.
pub mod Stable
mod Tests
use tailscale_koolshare.Common.{
  ℕ, String, Bool, true, false, not, ◌&&◌, List, [], ◌∷◌, ◌==◌, if◌then◌else◌,
}
use tailscale_koolshare.Common.Outcome.{Result, ok, raise, value_error, traverse}
use tailscale_koolshare.Python.Text.{◌<>◌, starts_with}
use tailscale_koolshare.Files.{
  RelativePath, Node, file, link, dir, special, Tree, is_executable, listing,
}
use tailscale_koolshare.Toolchain.Tree.{posix}

pub data Contents : Type 0 where
  symbolic_link : String → Contents
  directory : Contents
  regular : List ℕ → Contents

pub record TarInfo : Type 0 where
  pub name : String
  pub uid : ℕ
  pub gid : ℕ
  pub mtime : ℕ
  pub uname : String
  pub gname : String
  pub mode : ℕ
  pub contents : Contents

-- `"/".join(p for p in (prefix, rel) if p)`
unfoldable pub joined : String → String → String
joined prefix rel = if prefix == "" then rel else if rel == "" then prefix else prefix <> "/" <> rel

unfoldable pub member_name : String → RelativePath → String
member_name prefix path = if posix path == "." then prefix else joined prefix (posix path)

unfoldable pub info : String → RelativePath → ℕ → Contents → TarInfo
info prefix path mode contents = record {
  name = member_name prefix path;
  uid = 0;
  gid = 0;
  mtime = 0;
  uname = "root";
  gname = "root";
  mode = mode;
  contents = contents;
}

-- The permissions of a file in the archive: 0o755 or 0o644.
unfoldable pub file_mode : ℕ → ℕ
file_mode mode = if is_executable mode then 493 else 420

-- `inside` is whether a path, with its symbolic links followed, stays below the source.
module _ (inside : RelativePath → Bool) (prefix : String) where
  unfoldable pub link_member : Bool → RelativePath → String → Result TarInfo
  link_member true path target = ok (info prefix path 511 (symbolic_link target))
  link_member false path target = raise (value_error "unsafe package symlink")

  unfoldable pub member : RelativePath × Node → Result TarInfo
  member (path, link target) = link_member (not (starts_with "/" target) && inside path) path target
  member (path, dir) = ok (info prefix path 493 directory)
  member (path, file mode body) = ok (info prefix path (file_mode mode) (regular body))
  member (path, special) = raise (value_error "unsupported package member")

  -- The source itself comes first, where there is a prefix.
  unfoldable pub paths : Node → Tree → Tree
  paths root tree = if prefix == "" then listing tree else ([], root) ∷ listing tree

  unfoldable pub archive_tree : Node → Tree → Result (List TarInfo)
  archive_tree root tree = traverse member (paths root tree)
