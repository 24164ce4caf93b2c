-- ===== src/Toolchain/Tree/Marked.antt =====
-- What the hash of a tree depends on, and the marker that says that a tree is complete.
use mathlib.Core.List.{Permᴰ}
use tailscale_koolshare.Common.{[], ◌∷◌, ◌≡◌, refl, sym, ◌∙◌, inl, inr, Bool-cases}
use tailscale_koolshare.Common.Order.{path_order}
use tailscale_koolshare.Python.Sorted.{insert, sorted, sorted-perm, Distinct-perm}
use tailscale_koolshare.Files.{Node, Tree, put_node, listing, IsTree}
use tailscale_koolshare.Files.Laws.{put_node-perm}
use tailscale_koolshare.Toolchain.Tree.{Codec, posix, marker_path, hash_input, tree_hash}

-- The order in which the file system lists a tree does not matter.
pub listing-perm : {t u : Tree} → Permᴰ t u → IsTree t → listing t ≡ listing u
unfolding listing
listing-perm p d = sorted-perm path_order (λ e. e.0) p d

module _ (c : Codec) where
  -- The hash of a tree, where no path is listed twice, does not depend on the order in which the
  -- file system lists it.
  pub tree_hash-perm : {t u : Tree} → Permᴰ t u → IsTree t → tree_hash c t ≡ tree_hash c u
  unfolding tree_hash
  tree_hash-perm p d = rw (listing-perm p d) refl

  -- The marker is skipped.
  hash_input-insert :
      (n : Node) (l : Tree)
      → hash_input c (insert path_order (λ e. e.0) (marker_path, n) l) ≡ hash_input c l
  unfolding hash_input insert posix
  hash_input-insert n [] = refl
  hash_input-insert n ((q, m) ∷ l) = elim (Bool-cases (path_order.before q marker_path)) [
    | inl first ↦ rw (first, hash_input-insert n l) refl
    | inr other ↦ rw other refl
  ]

  pub tree_hash-marker : (n : Node) (t : Tree) → tree_hash c ((marker_path, n) ∷ t) ≡ tree_hash c t
  unfolding tree_hash listing sorted
  tree_hash-marker n t = rw (hash_input-insert n (sorted path_order (λ e. e.0) t)) refl

  -- Writing the marker does not change the hash of the tree.
  pub tree_hash-put_node :
      (n : Node) (t : Tree) → IsTree t → tree_hash c (put_node marker_path n t) ≡ tree_hash c t
  tree_hash-put_node n t d = elim (put_node-perm marker_path n t) [
    | inl (perm, apart) ↦ sym (tree_hash-perm perm (apart, d)) ∙ tree_hash-marker n t
    | inr (m, (rest, (before, after))) ↦
        let (apart, d') = Distinct-perm path_order (λ e. e.0) before d in
        sym (tree_hash-perm after (apart, d'))
        ∙ tree_hash-marker n rest
        ∙ sym (tree_hash-marker m rest)
        ∙ sym (tree_hash-perm before d)
  ]
