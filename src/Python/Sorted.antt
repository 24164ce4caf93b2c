-- ===== src/Python/Sorted.antt =====
-- `sorted`, which keeps the order of entries with equal keys, and what it does to entries whose
-- keys differ.
pub mod Map
use mathlib.Core.List.{Permᴰ}
use tailscale_koolshare.Common.{
  true, List, [], ◌∷◌, ◌≡◌, refl, ap, ◌∙◌, sym, All, arith, subst, if◌then◌else◌, Bool-cases, inl,
  inr,
}
use tailscale_koolshare.Common.Order.{Order, one_first}

module _ {A B : Type 0} (o : Order B) (key : A → B) where
  unfoldable pub insert : A → List A → List A
  insert a [] = a ∷ []
  insert a (b ∷ bs) =
      let rest = insert a bs in if o.before (key b) (key a) then b ∷ rest else a ∷ b ∷ bs

  -- `sorted(l, key=key)`
  unfoldable pub sorted : List A → List A
  sorted [] = []
  sorted (a ∷ as') = insert a (sorted as')

  abbrev pub Apart : List A → A → Type 0
  Apart l a = All (λ b. ¬ (key a ≡ key b)) l

  -- The keys of any two entries differ.
  abbrev pub Distinct : List A → Type 0
  Distinct [] = Unit {0}
  Distinct (a ∷ as') = Apart as' a × Distinct as'

  insert-insert :
      (a b : A)
      → o.before (key a) (key b) ≡ true
      → (l : List A) → insert a (insert b l) ≡ insert b (insert a l)
  unfolding insert
  insert-insert a b h [] = ground (arith, o.asymm (key a) (key b))
  insert-insert a b h (c ∷ l) =
      ground
        (arith, o.asymm (key a) (key b), o.trans (key c) (key a) (key b), insert-insert a b h l)

  insert_comm :
      (a b : A) → ¬ (key a ≡ key b) → (l : List A) → insert a (insert b l) ≡ insert b (insert a l)
  insert_comm a b differ l = elim (Bool-cases (o.before (key a) (key b))) [
    | inl first ↦ insert-insert a b first l
    | inr other ↦ sym (insert-insert b a (one_first o (key a) (key b) differ other) l)
  ]

  All-perm : (P : A → Type 0) {l m : List A} → Permᴰ l m → All P l → All P m
  All-perm P Permᴰ.nil h = h
  All-perm P (Permᴰ.cons e p) (here, rest) = (subst P e here, All-perm P p rest)
  All-perm P (Permᴰ.swap e e') (first, (second, rest)) =
      (subst P e' second, (subst P e first, rest))
  All-perm P (Permᴰ.trans p q) h = All-perm P q (All-perm P p h)

  pub Distinct-perm : {l m : List A} → Permᴰ l m → Distinct l → Distinct m
  Distinct-perm Permᴰ.nil d = d
  Distinct-perm (Permᴰ.cons {b = b} {l₁ = l} e p) (here, rest) =
      (All-perm (λ c. ¬ (key b ≡ key c)) p (subst (Apart l) e here), Distinct-perm p rest)
  Distinct-perm (Permᴰ.swap {l = l} e e') ((differ, first), (second, rest)) = (
    (λ same. differ (ap key e ∙ sym same ∙ ap key (sym e')), subst (Apart l) e' second),
    (subst (Apart l) e first, rest),
  )
  Distinct-perm (Permᴰ.trans p q) d = Distinct-perm q (Distinct-perm p d)

  -- The order in which the entries are listed does not matter.
  pub sorted-perm : {l m : List A} → Permᴰ l m → Distinct l → sorted l ≡ sorted m
  unfolding sorted
  sorted-perm Permᴰ.nil d = refl
  sorted-perm (Permᴰ.cons e p) (here, rest) = rw (e, sorted-perm p rest) refl
  sorted-perm (Permᴰ.swap {a = a} {b = b} {l = l} e e') ((differ, _), _) =
      insert_comm a b differ (sorted l) ∙ (λ i. insert (e' i) (insert (e i) (sorted l)))
  sorted-perm (Permᴰ.trans p q) d = sorted-perm p d ∙ sorted-perm q (Distinct-perm p d)
