-- ===== src/Common/State.antt =====
-- Code that returns or raises, and changes a state either way.
use mathlib.Core.Path.{◌≡◌, refl, ap}
use mathlib.Core.List.{List, [], ◌∷◌}
use tailscale_koolshare.Common.Outcome.{Result, ok, raise}

abbrev pub Run : Type 0 → Type 0 → Type 0
Run S A = S → Result A × S

module _ {S A B : Type 0} where
  abbrev pub continue : Result A → (A → Run S B) → Run S B
  continue (ok a) f s = f a s
  continue (raise e) f s = (raise e, s)

  infixl 5 ◌>>=◌
  abbrev pub ◌>>=◌ : Run S A → (A → Run S B) → Run S B
  ◌>>=◌ m f s = let (r, t) = m s in continue r f t

  continue-eq-ok :
      (p : Result A × S) (f : A → Run S B) {b : B} {t : S}
      → continue p.0 f p.1 ≡ (ok b, t)
      → (a : A) × (u : S) × (p ≡ (ok a, u)) × (f a u ≡ (ok b, t))
  continue-eq-ok (ok a, u) f h = (a, u, refl, h)
  continue-eq-ok (raise e, u) f h = cc

  -- Where the whole has returned, so has the call, and what comes after it from there.
  pub bind-eq-ok :
      (m : Run S A) (f : A → Run S B) (s : S) {b : B} {t : S}
      → (m >>= f) s ≡ (ok b, t)
      → (a : A) × (u : S) × (m s ≡ (ok a, u)) × (f a u ≡ (ok b, t))
  bind-eq-ok m f s h = continue-eq-ok (m s) f h

module _ {S B : Type 0} where
  infixl 5 ◌>>◌
  abbrev pub ◌>>◌ : Run S (Unit {0}) → Run S B → Run S B
  m >> k = m >>= λ _. k

module _ {S A : Type 0} where
  abbrev pub pure : A → Run S A
  pure a s = (ok a, s)

  abbrev pub lift : Result A → Run S A
  lift r s = (r, s)

  pub lift-eq-ok :
      (r : Result A) (s : S) {a : A} {t : S} → lift r s ≡ (ok a, t) → (r ≡ ok a) × (s ≡ t)
  lift-eq-ok r s h = (ap (λ p. p.0) h, ap (λ p. p.1) h)

  abbrev pub gets : (S → A) → Run S A
  gets f s = (ok (f s), s)

module _ {S : Type 0} where
  abbrev pub modify : (S → S) → Run S (Unit {0})
  modify f s = (ok tt, f s)

  -- `for` over a list
  unfoldable pub for_all : {A : Type 0} → (A → Run S (Unit {0})) → List A → Run S (Unit {0})
  for_all f [] s = (ok tt, s)
  for_all f (a ∷ as') s = (f a >> for_all f as') s

-- A predicate of the state that holds after an action where it has held before, whether the
-- action returns or raises.
abbrev pub Preserves : {S A : Type 0} → (S → Type 0) → Run S A → Type 0
Preserves P m = (s : _) → P s → P (m s).1

module _ {S A B : Type 0} (P : S → Type 0) where
  continue-Preserves :
      (r : Result A) (f : A → Run S B)
      → ((a : A) → Preserves P (f a))
      → (s : S) → P s
      → P (continue r f s).1
  continue-Preserves (ok a) f after s h = after a s h
  continue-Preserves (raise e) f after s h = h

  pub bind-Preserves :
      (m : Run S A) (f : A → Run S B)
      → Preserves P m
      → ((a : A) → Preserves P (f a))
      → Preserves P (m >>= f)
  bind-Preserves m f first after s h = continue-Preserves (m s).0 f after (m s).1 (first s h)

module _ {S B : Type 0} (P : S → Type 0) where
  pub then-Preserves :
      (m : Run S (Unit {0})) (k : Run S B) → Preserves P m → Preserves P k → Preserves P (m >> k)
  then-Preserves m k first after = bind-Preserves P m (λ _. k) first (λ _. after)
