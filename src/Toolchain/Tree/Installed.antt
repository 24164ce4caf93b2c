-- ===== src/Toolchain/Tree/Installed.antt =====
-- What `_installed_valid` accepts, and a tree after its marker has been written.
use tailscale_koolshare.Common.{
  ℕ, String, Bool, true, List, [], ◌∷◌, Option, none, some, ◌≡◌, refl, ◌↔◌, ◌∙◌,
}
use tailscale_koolshare.Common.Outcome.{
  value_error, os_error, file_exists_error, index_error, http_error, runtime_error, type_error,
  key_error, attribute_error, called_process_error, Result, ok, raise, >>=-eq-ok, >>-eq-ok,
  ok-injective,
}
use tailscale_koolshare.Python.Json.{Json, json_eq, text_item}
use tailscale_koolshare.Files.{
  Node, file, link, dir, special, Tree, directory, same_path, find_node, put_node, IsTree,
}
use tailscale_koolshare.Files.Laws.{find_node-put_node, find_node-put_other}
use tailscale_koolshare.Toolchain.Tree.{
  Codec, marker_path, tree_hash, check_extracted, marker, marker_matches, tree_valid, or_false,
  installed_valid,
}
use tailscale_koolshare.Toolchain.Tree.Marked.{tree_hash-put_node}
use tailscale_koolshare.Toolchain.Tree.Extracted.{
  IsExtracted, check_extracted-IsExtracted, IsExtracted-check_extracted,
}

-- A file that is read as JSON that is equal to a value.
pub record Reads (c : Codec) (v : Json) (body : List ℕ) : Type 0 where
  pub text : String
  pub found : Json
  pub decoded : c.read_text body ≡ ok text
  pub loaded : c.loads text ≡ ok found
  pub same : json_eq found v ≡ true

-- A tree with the executable and the stamp of the locked version, and a marker that records the
-- lock, the host and the hash of the tree.
pub record IsInstalled (c : Codec) (lock : Json) (host : String) (tree : Tree) : Type 0 where
  pub version : String
  pub digest : String
  pub mode : ℕ
  pub body : List ℕ
  pub locked : text_item "version" lock ≡ ok version
  pub extracted : IsExtracted c tree version
  pub hashed : tree_hash c tree ≡ ok digest
  pub written : find_node marker_path tree ≡ some (file mode body)
  pub recorded : Reads c (marker lock host digest) body

or_false-eq-true : (r : Result Bool) → or_false r ≡ ok true → r ≡ ok true
unfolding or_false
or_false-eq-true (ok b) h = h
or_false-eq-true (raise (os_error)) h = cc
or_false-eq-true (raise (file_exists_error)) h = cc
or_false-eq-true (raise (http_error status)) h = cc
or_false-eq-true (raise (value_error message)) h = cc
or_false-eq-true (raise (index_error)) h = cc
or_false-eq-true (raise (runtime_error message)) h = cc
or_false-eq-true (raise (type_error)) h = cc
or_false-eq-true (raise (key_error k)) h = cc
or_false-eq-true (raise (attribute_error)) h = cc
or_false-eq-true (raise (called_process_error)) h = cc

module _ (c : Codec) (lock : Json) (host : String) where
  marker-Reads :
      (tree : Tree) (n : Option Node)
      → marker_matches c lock host tree n ≡ ok true
      → (mode : ℕ) × ((body : List ℕ) × ((digest : String) × ((n ≡ some (file mode body))
              × ((tree_hash c tree ≡ ok digest) × Reads c (marker lock host digest) body))))
  unfolding marker_matches
  marker-Reads tree (some (file mode body)) h =
      let (text, decoded, h₁) = >>=-eq-ok (c.read_text body) _ h in
      let (found, loaded, h₂) = >>=-eq-ok (c.loads text) _ h₁ in
      let (digest, hashed, h₃) = >>=-eq-ok (tree_hash c tree) _ h₂ in
      (
        mode,
        (
          body,
          (
            digest,
            (
              refl,
              (
                hashed,
                record {
                  text = text;
                  found = found;
                  decoded = decoded;
                  loaded = loaded;
                  same = ok-injective h₃;
                },
              ),
            ),
          ),
        ),
      )
  marker-Reads tree (some (link target)) h = cc
  marker-Reads tree (some dir) h = cc
  marker-Reads tree (some special) h = cc
  marker-Reads tree none h = cc

  pub installed_valid_sound :
      (tree : Tree)
      → installed_valid c (directory tree) lock host ≡ ok true
      → IsInstalled c lock host tree
  unfolding installed_valid tree_valid
  installed_valid_sound tree h =
      let valid = or_false-eq-true (tree_valid c lock host tree) h in
      let (version, locked, h₁) = >>=-eq-ok (text_item "version" lock) _ valid in
      let (extracted, h₂) = >>-eq-ok (check_extracted c tree version) _ h₁ in
      let (mode, (body, (digest, (written, (hashed, recorded))))) =
        marker-Reads tree (find_node marker_path tree) h₂ in
      record {
        version = version;
        digest = digest;
        mode = mode;
        body = body;
        locked = locked;
        extracted = check_extracted-IsExtracted c tree version extracted;
        hashed = hashed;
        written = written;
        recorded = recorded;
      }

  pub installed_valid_complete :
      (tree : Tree)
      → IsInstalled c lock host tree
      → installed_valid c (directory tree) lock host ≡ ok true
  unfolding installed_valid tree_valid marker_matches or_false
  installed_valid_complete tree i =
      rw
        (
          i.locked,
          IsExtracted-check_extracted c tree i.version i.extracted,
          i.written,
          i.recorded.decoded,
          i.recorded.loaded,
          i.hashed,
          i.recorded.same,
        )
        refl

  -- A directory is taken for an installed toolchain exactly when its go and go/bin are no symbolic
  -- links, go/bin/go is a regular file with an execute bit, go/VERSION is a regular file whose
  -- first line is the locked version, and the marker is a regular file that reads as the lock, the
  -- host and the hash of the directory.
  pub installed_valid_iff :
      (tree : Tree)
      → (installed_valid c (directory tree) lock host ≡ ok true) ↔ IsInstalled c lock host tree
  installed_valid_iff tree = (installed_valid_sound tree, installed_valid_complete tree)

  -- Writing the marker does not change what `_check_extracted` looks at.
  pub check_extracted-put_node :
      (n : Node) (tree : Tree) (version : String)
      → check_extracted c (put_node marker_path n tree) version ≡ check_extracted c tree version
  unfolding check_extracted same_path
  check_extracted-put_node n tree version =
      rw
        (
          find_node-put_other marker_path ("go" ∷ []) n tree refl,
          find_node-put_other marker_path ("go" ∷ "bin" ∷ []) n tree refl,
          find_node-put_other marker_path ("go" ∷ "bin" ∷ "go" ∷ []) n tree refl,
          find_node-put_other marker_path ("go" ∷ "VERSION" ∷ []) n tree refl,
        )
        refl

  -- A tree that passes the check of its executable and version, into which a marker is written
  -- that reads back as the lock, the host and the hash of the tree, is a complete toolchain: the
  -- marker is not counted in the hash of the tree, and changes nothing that the check looks at.
  pub put_node-IsInstalled :
      (tree : Tree) (mode : ℕ) (body : List ℕ) (version digest : String)
      → IsTree tree
      → text_item "version" lock ≡ ok version
      → check_extracted c tree version ≡ ok tt
      → tree_hash c tree ≡ ok digest
      → Reads c (marker lock host digest) body
      → IsInstalled c lock host (put_node marker_path (file mode body) tree)
  put_node-IsInstalled tree mode body version digest d locked extracted hashed recorded =
      let n = file mode body in
      record {
        version = version;
        digest = digest;
        mode = mode;
        body = body;
        locked = locked;
        extracted =
            check_extracted-IsExtracted c (put_node marker_path n tree) version
              (check_extracted-put_node n tree version ∙ extracted);
        hashed = tree_hash-put_node c n tree d ∙ hashed;
        written = find_node-put_node marker_path n tree;
        recorded = recorded;
      }
