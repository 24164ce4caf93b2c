-- ===== src/Python/Sorted/Map.antt =====
-- Sorting, and a `for` loop that may raise, after a change of the entries that keeps their keys.
use tailscale_koolshare.Common.{List, [], ◌∷◌, map, ◌≡◌, refl, ap, sym, ◌∙◌, Bool-cases, inl, inr}
use tailscale_koolshare.Common.Outcome.{Result, traverse}
use tailscale_koolshare.Common.Order.{Order}
use tailscale_koolshare.Python.Sorted.{insert, sorted, Apart, Distinct}

module _ {A B : Type 0} (o : Order B) (key : A → B) (f : A → A)
    (same : (a : A) → key (f a) ≡ key a) where
  insert-map : (a : A) (l : List A) → insert o key (f a) (map f l) ≡ map f (insert o key a l)
  unfolding insert
  insert-map a [] = refl
  insert-map a (b ∷ l) = elim (Bool-cases (o.before (key b) (key a))) [
    | inl first ↦ rw (same a, same b, first) (ap (λ m. f b ∷ m) (insert-map a l))
    | inr other ↦ rw (same a, same b, other) refl
  ]

  pub sorted-map : (l : List A) → sorted o key (map f l) ≡ map f (sorted o key l)
  unfolding sorted
  sorted-map [] = refl
  sorted-map (a ∷ l) = ap (insert o key (f a)) (sorted-map l) ∙ insert-map a (sorted o key l)

  Apart-map : (a : A) (l : List A) → Apart o key l a → Apart o key (map f l) (f a)
  Apart-map a [] h = tt
  Apart-map a (b ∷ l) (differ, rest) = (λ e. differ (sym (same a) ∙ e ∙ same b), Apart-map a l rest)

  pub Distinct-map : (l : List A) → Distinct o key l → Distinct o key (map f l)
  Distinct-map [] h = tt
  Distinct-map (a ∷ l) (here, rest) = (Apart-map a l here, Distinct-map l rest)

pub traverse-map :
    {A C : Type 0} (f : A → A) (g : A → Result C)
    → ((a : A) → g (f a) ≡ g a)
    → (l : List A) → traverse g (map f l) ≡ traverse g l
traverse-map f g same [] = refl
traverse-map f g same (a ∷ l) = rw (same a, traverse-map f g same l) refl
