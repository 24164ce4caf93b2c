-- ===== src/Toolchain/Tree.antt =====
-- `_tree_hash`, `_check_extracted` and `_installed_valid` of tools/toolchain.py.
pub mod Marked
pub mod Extracted
pub mod Installed
use tailscale_koolshare.Common.{
  ℕ, ◌%◌, pos, String, Bool, true, false, not, ◌&&◌, ◌||◌, List, [], ◌∷◌, ◌++◌, Option, none, some,
  ◌==◌, if◌then◌else◌,
}
use tailscale_koolshare.Common.Outcome.{
  Exception, value_error, os_error, file_exists_error, index_error, http_error, Result, ok, raise,
  ◌>>=◌, ◌>>◌, require,
}
use tailscale_koolshare.Python.Text.{◌<>◌, splitlines}
use tailscale_koolshare.Python.Json.{
  Json, int, str, arr, obj, cons, nil, field, end, json_eq, text_item,
}
use tailscale_koolshare.Files.{
  RelativePath, Node, file, link, dir, special, Tree, Place, missing, directory, other, find_node,
  is_symlink, is_executable, listing,
}

-- `_encoded`, `Path.read_text`, `json.loads` and SHA-256.
pub record Codec : Type 0 where
  pub encoded : Json → List ℕ
  pub read_text : List ℕ → Result String
  pub loads : String → Result Json
  pub sha256 : List ℕ → String

-- `as_posix()`
unfoldable pub posix : RelativePath → String
posix [] = "."
posix (a ∷ []) = a
posix (a ∷ b ∷ p) = a <> "/" <> posix (b ∷ p)

abbrev pub marker_path : RelativePath
marker_path = ".toolchain.json" ∷ []

-- The first line of a list of lines is the text.
unfoldable pub starts_with_line : String → List String → Bool
starts_with_line s [] = false
starts_with_line s (l ∷ ls) = l == s

abbrev pub is_runnable : Option Node → Bool
is_runnable (some (file mode body)) = is_executable mode
is_runnable _ = false

-- `except (OSError, ValueError, IndexError): return False`
unfoldable pub or_false : Result Bool → Result Bool
or_false (raise (os_error)) = ok false
or_false (raise (file_exists_error)) = ok false
or_false (raise (http_error status)) = ok false
or_false (raise (value_error message)) = ok false
or_false (raise (index_error)) = ok false
or_false result = result

-- `{"lock": lock, "host": host, "tree_sha256": digest}`
unfoldable pub marker : Json → String → String → Json
marker lock host digest =
    obj (field "lock" lock (field "host" (str host) (field "tree_sha256" (str digest) end)))

module _ (c : Codec) where
  -- What is hashed for an entry.
  unfoldable pub entry_value : RelativePath × Node → Result Json
  entry_value (p, link target) =
      ok (arr (cons (str (posix p)) (cons (str "link") (cons (str target) nil))))
  entry_value (p, file mode body) = ok (
      arr (
        cons (str (posix p))
          (cons (str "file") (cons (int (pos (mode % 512))) (cons (str (c.sha256 body)) nil)))))
  entry_value (p, dir) = ok (arr (cons (str (posix p)) (cons (str "dir") nil)))
  entry_value (p, special) = raise (value_error "unexpected file type in Go toolchain")

  -- The bytes that the loop feeds to the digest.
  unfoldable pub hash_input : Tree → Result (List ℕ)
  hash_input [] = ok []
  hash_input (e ∷ es) =
      let rest = hash_input es in
      if posix e.0 == ".toolchain.json"
      then rest
      else entry_value e >>= λ v. rest >>= λ bytes. ok (c.encoded v ++ 10 ∷ bytes)

  unfoldable pub tree_hash : Tree → Result String
  tree_hash tree = hash_input (listing tree) >>= λ bytes. ok (c.sha256 bytes)

  unfoldable pub check_stamp : String → Option Node → Result (Unit {0})
  check_stamp version (some (file mode body)) = do
    text ← c.read_text body
    require (starts_with_line ("go" <> version) (splitlines text))
        "extracted Go version differs from lock"
  check_stamp version _ = raise (value_error "extracted Go version differs from lock")

  unfoldable pub check_extracted : Tree → String → Result (Unit {0})
  check_extracted tree version = do
    require
        (not (
          is_symlink (find_node ("go" ∷ []) tree)
          || is_symlink (find_node ("go" ∷ "bin" ∷ []) tree)))
        "Go archive has an invalid executable directory"
    require (is_runnable (find_node ("go" ∷ "bin" ∷ "go" ∷ []) tree))
        "Go archive has no executable go/bin/go"
    check_stamp version (find_node ("go" ∷ "VERSION" ∷ []) tree)

  -- The comparison of the marker that is read with the one expected.
  unfoldable pub marker_matches : Json → String → Tree → Option Node → Result Bool
  marker_matches lock host tree (some (file mode body)) = do
    text ← c.read_text body
    found ← c.loads text
    digest ← tree_hash tree
    ok (json_eq found (marker lock host digest))
  marker_matches lock host tree (some (link target)) = ok false
  marker_matches lock host tree _ = raise os_error

  -- The body of the `try` statement, for a directory.
  unfoldable pub tree_valid : Json → String → Tree → Result Bool
  tree_valid lock host tree = do
    version ← text_item "version" lock
    check_extracted tree version
    marker_matches lock host tree (find_node marker_path tree)

  unfoldable pub installed_valid : Place → Json → String → Result Bool
  installed_valid (directory tree) lock host = or_false (tree_valid lock host tree)
  installed_valid missing lock host = ok false
  installed_valid (other node) lock host = ok false
