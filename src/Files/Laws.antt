-- ===== src/Files/Laws.antt =====
-- Reading a tree after a file has been written, and the listing of a tree with one more entry.
use mathlib.Core.List.{Permᴰ}
use mathlib.Core.List.Permᴰ
use tailscale_koolshare.Common.{
  true, false, [], ◌∷◌, some, ◌≡◌, refl, sym, ap, ◌∙◌, ◌⊎◌, inl, inr, ◌==◌, eq_iff, and-eq-true,
  Bool-cases, if◌then◌else◌,
}
use tailscale_koolshare.Common.Order.{path_order}
use tailscale_koolshare.Python.Sorted.{Apart}
use tailscale_koolshare.Files.{RelativePath, Node, Tree, same_path, find_node, put_node}

pub same_path_sound : (p q : RelativePath) → same_path p q ≡ true → p ≡ q
unfolding same_path
same_path_sound [] [] h = refl
same_path_sound [] (b ∷ q) h = cc
same_path_sound (a ∷ p) [] h = cc
same_path_sound (a ∷ p) (b ∷ q) h =
    let (first, rest) = and-eq-true (a == b) (same_path p q) h in
    let e = (eq_iff a b).0 first in let e' = same_path_sound p q rest in cc

pub same_path_refl : (p : RelativePath) → same_path p p ≡ true
unfolding same_path
same_path_refl [] = refl
same_path_refl (a ∷ p) = rw ((eq_iff a a).1 refl, same_path_refl p) refl

pub find_node-put_node :
    (p : RelativePath) (n : Node) (t : Tree) → find_node p (put_node p n t) ≡ some n
unfolding find_node put_node
find_node-put_node p n [] = rw (same_path_refl p) refl
find_node-put_node p n ((q, m) ∷ t) = elim (Bool-cases (same_path q p)) [
  | inl same ↦ rw (same, same) refl
  | inr differs ↦ rw (differs, differs) (find_node-put_node p n t)
]

-- Writing one path does not change what is read at another.
pub find_node-put_other :
    (p q : RelativePath) (n : Node) (t : Tree)
    → same_path p q ≡ false
    → find_node q (put_node p n t) ≡ find_node q t
unfolding find_node put_node
find_node-put_other p q n [] h = rw h refl
find_node-put_other p q n ((r, m) ∷ t) h = elim (Bool-cases (same_path r p)) [
  | inl same ↦
      let other : same_path r q ≡ false = ap (λ s. same_path s q) (same_path_sound r p same) ∙ h in
      rw (same, other) refl
  | inr differs ↦
      rw differs
        (ap (λ rest. if same_path r q then some m else rest) (find_node-put_other p q n t h))
]

apart_of : {p q : RelativePath} → p ≡ q → same_path q p ≡ false → ⊥
apart_of {p = p} {q = q} same differs =
    let e : true ≡ false = sym (same_path_refl p) ∙ ap (λ r. same_path r p) same ∙ differs in cc

-- After a file has been written it is one more entry, or stands in the place of one.
pub put_node-perm :
    (p : RelativePath) (n : Node) (t : Tree)
    → (Permᴰ ((p, n) ∷ t) (put_node p n t) × Apart path_order (λ e. e.0) t (p, n))
      ⊎ ((m : Node) × ((rest : Tree) × (Permᴰ t ((p, m) ∷ rest)
              × Permᴰ ((p, n) ∷ rest) (put_node p n t))))
unfolding put_node
put_node-perm p n [] = inl (Permᴰ.refl ((p, n) ∷ []), tt)
put_node-perm p n ((q, m) ∷ t) = elim (Bool-cases (same_path q p)) [
  | inl same ↦
      let e = same_path_sound q p same in
      rw same (
        inr (
          m,
          (
            t,
            (
              Permᴰ.cons (ap (λ r. (r, m)) e) (Permᴰ.refl t),
              Permᴰ.cons (ap (λ r. (r, n)) (sym e)) (Permᴰ.refl t),
            ),
          ),
        ))
  | inr differs ↦ rw differs (elim (put_node-perm p n t) [
    | inl (perm, apart) ↦ inl (
      Permᴰ.trans (Permᴰ.swap refl refl) (Permᴰ.cons refl perm),
      (λ same. apart_of same differs, apart),
    )
    | inr (k, (rest, (before, after))) ↦ inr (
      k,
      (
        (q, m) ∷ rest,
        (
          Permᴰ.trans (Permᴰ.cons refl before) (Permᴰ.swap refl refl),
          Permᴰ.trans (Permᴰ.swap refl refl) (Permᴰ.cons refl after),
        ),
      ),
    )
  ])
]
