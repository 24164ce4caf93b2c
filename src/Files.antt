-- ===== src/Files.antt =====
-- Directory trees as the tools read and write them.
pub mod Laws
use tailscale_koolshare.Common.{
  ℕ, ◌+◌, ◌/◌, ◌%◌, String, Bool, true, false, not, ◌&&◌, ◌||◌, List, [], ◌∷◌, Option, none, some,
  eqb, ◌==◌, if◌then◌else◌,
}
use tailscale_koolshare.Common.Order.{path_order}
use tailscale_koolshare.Python.Sorted.{sorted, Distinct}

-- A path below a root, by its parts.
abbrev pub RelativePath : Type 0
RelativePath = List String

pub data Node : Type 0 where
  -- a regular file, with its permissions and contents
  file : ℕ → List ℕ → Node
  -- a symbolic link to a path
  link : String → Node
  dir : Node
  -- a device, a socket or a pipe
  special : Node

-- What `rglob("*")` lists below a directory: each path once, in the order of the file system.
abbrev pub Tree : Type 0
Tree = List (RelativePath × Node)

-- What stands at a path of the disk.
pub data Place : Type 0 where
  missing : Place
  directory : Tree → Place
  other : Node → Place

unfoldable pub same_path : RelativePath → RelativePath → Bool
same_path [] [] = true
same_path (a ∷ p) (b ∷ q) = a == b && same_path p q
same_path _ _ = false

unfoldable pub find_node : RelativePath → Tree → Option Node
find_node p [] = none
find_node p ((q, n) ∷ tree) = if same_path q p then some n else find_node p tree

-- Writing a file: a new path is listed last.
unfoldable pub put_node : RelativePath → Node → Tree → Tree
put_node p n [] = (p, n) ∷ []
put_node p n ((q, m) ∷ tree) =
    let rest = put_node p n tree in if same_path q p then (q, n) ∷ tree else (q, m) ∷ rest

-- `p.is_symlink()`
abbrev pub is_symlink : Option Node → Bool
is_symlink (some (link target)) = true
is_symlink _ = false

-- `mode & 0o111`
abbrev pub is_executable : ℕ → Bool
is_executable mode = not (eqb (mode % 2) 0 && eqb (mode / 8 % 2) 0 && eqb (mode / 64 % 2) 0)

-- `sorted(root.rglob("*"))`
unfoldable pub listing : Tree → Tree
listing tree = sorted path_order (λ e. e.0) tree

-- No path is listed twice.
abbrev pub IsTree : Tree → Type 0
IsTree tree = Distinct path_order (λ e. e.0) tree
