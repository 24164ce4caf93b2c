-- ===== src/Archive/Members/Tests.antt =====
-- The members of a small tree, and what an archive depends on at two trees.
use mathlib.Core.List.{Permᴰ}
use tailscale_koolshare.Common.{String, true, false, List, [], ◌∷◌, ◌≡◌, refl, map, ◌==◌, eq_iff}
use tailscale_koolshare.Common.Outcome.{ok, raise, value_error}
use tailscale_koolshare.Python.Sorted.{insert, sorted}
use tailscale_koolshare.Python.Text.{starts_with}
use tailscale_koolshare.Files.{file, link, dir, Tree, listing, IsTree}
use tailscale_koolshare.Toolchain.Tree.{posix}
use tailscale_koolshare.Archive.Members.{
  directory, regular, joined, member_name, info, file_mode, link_member, member, paths,
  archive_tree,
}
use tailscale_koolshare.Archive.Members.Stable.{normal, normal_entry, archive_tree-normal_eq}

abbrev scripts_first : Tree
scripts_first =
    ("scripts" ∷ [], dir)
    ∷ ("scripts" ∷ "a.sh" ∷ [], file 448 (35 ∷ []))
    ∷ ("VERSION" ∷ [], file 384 (51 ∷ []))
    ∷ []

abbrev version_first : Tree
version_first =
    ("scripts" ∷ [], dir)
    ∷ ("VERSION" ∷ [], file 436 (51 ∷ []))
    ∷ ("scripts" ∷ "a.sh" ∷ [], file 509 (35 ∷ []))
    ∷ []

opened : Unit {0}
unfolding insert sorted starts_with listing posix joined member_name info file_mode link_member
    member paths archive_tree normal
opened = tt

names_test :
    archive_tree (λ path. true) "tailscale" dir (("VERSION" ∷ [], file 384 (51 ∷ [])) ∷ [])
    ≡ ok (
        info "tailscale" [] 493 directory
        ∷ info "tailscale" ("VERSION" ∷ []) 420 (regular (51 ∷ []))
        ∷ [])
unfolding opened
names_test = refl

unsafe_test :
    archive_tree (λ path. true) "tailscale" dir (("up" ∷ [], link "/etc") ∷ [])
    ≡ raise (value_error "unsafe package symlink")
unfolding opened
unsafe_test = refl

first_differs : (a b : String) (p q : List String) → (a == b) ≡ false → a ∷ p ≡ b ∷ q → ⊥
first_differs a b p q differs h = let same : a ≡ b = cc in let e = (eq_iff a b).1 same in cc

distinct : IsTree scripts_first
distinct = (
  (λ h. cc, (first_differs "scripts" "VERSION" [] [] refl, tt)),
  ((first_differs "scripts" "VERSION" ("a.sh" ∷ []) [] refl, tt), (tt, tt)),
)

same : Permᴰ (map normal_entry scripts_first) (map normal_entry version_first)
unfolding opened
same = Permᴰ.cons refl (Permᴰ.swap refl refl)

archive_tree_example :
    archive_tree (λ path. true) "tailscale" dir scripts_first
    ≡ archive_tree (λ path. true) "tailscale" dir version_first
archive_tree_example =
    archive_tree-normal_eq (λ path. true) "tailscale" dir scripts_first version_first distinct same
