-- ===== src/Archive/Members/Stable.antt =====
-- What an archive depends on.
use mathlib.Core.List.{Permᴰ}
use tailscale_koolshare.Common.{
  ℕ, String, Bool, map, ◌≡◌, refl, sym, ◌∙◌, ◌==◌, Bool-cases, inl, inr,
}
use tailscale_koolshare.Common.Order.{path_order}
use tailscale_koolshare.Python.Sorted.Map.{sorted-map, Distinct-map, traverse-map}
use tailscale_koolshare.Files.{
  RelativePath, Node, file, link, dir, special, Tree, is_executable, listing, IsTree,
}
use tailscale_koolshare.Toolchain.Tree.Marked.{listing-perm}
use tailscale_koolshare.Archive.Members.{file_mode, member, paths, archive_tree}

-- A node up to what an archive does not keep: of its permissions, only whether a file can be run.
unfoldable pub normal : Node → Node
normal (file mode body) = file (file_mode mode) body
normal (link target) = link target
normal dir = dir
normal special = special

abbrev pub normal_entry : RelativePath × Node → RelativePath × Node
normal_entry e = (e.0, normal e.1)

file_mode-twice : (mode : ℕ) → file_mode (file_mode mode) ≡ file_mode mode
unfolding file_mode
file_mode-twice mode = elim (Bool-cases (is_executable mode)) [
  | inl runs ↦ rw runs refl
  | inr other ↦ rw other refl
]

module _ (inside : RelativePath → Bool) (prefix : String) where
  member-normal :
      (e : RelativePath × Node) → member inside prefix (normal_entry e) ≡ member inside prefix e
  unfolding member normal
  member-normal (p, file mode body) = rw (file_mode-twice mode) refl
  member-normal (p, link target) = refl
  member-normal (p, dir) = refl
  member-normal (p, special) = refl

  listing-normal : (t : Tree) → listing (map normal_entry t) ≡ map normal_entry (listing t)
  unfolding listing
  listing-normal t = sorted-map path_order (λ e. e.0) normal_entry (λ e. refl) t

  archive_tree-normal :
      (root : Node) (t : Tree)
      → archive_tree inside prefix root (map normal_entry t) ≡ archive_tree inside prefix root t
  unfolding archive_tree paths
  archive_tree-normal root t = elim (Bool-cases (prefix == "")) [
    | inl none ↦
        rw (none, listing-normal t)
          (traverse-map normal_entry (member inside prefix) member-normal (listing t))
    | inr other ↦
        rw
          (
            other,
            listing-normal t,
            traverse-map normal_entry (member inside prefix) member-normal (listing t),
          )
          refl
  ]

  archive_tree-perm :
      (root : Node) {t u : Tree}
      → Permᴰ t u
      → IsTree t
      → archive_tree inside prefix root t ≡ archive_tree inside prefix root u
  unfolding archive_tree paths
  archive_tree-perm root p d = rw (listing-perm p d) refl

  -- Two trees have the same members in the archive, in the same order, or fail in the same way,
  -- where one lists the entries of the other in any order and with any permissions that leave it
  -- the same whether a file can be run.
  pub archive_tree-normal_eq :
      (root : Node) (t u : Tree)
      → IsTree t
      → Permᴰ (map normal_entry t) (map normal_entry u)
      → archive_tree inside prefix root t ≡ archive_tree inside prefix root u
  archive_tree-normal_eq root t u d p =
      sym (archive_tree-normal root t)
      ∙ archive_tree-perm root p (Distinct-map path_order (λ e. e.0) normal_entry (λ e. refl) t d)
      ∙ archive_tree-normal root u
