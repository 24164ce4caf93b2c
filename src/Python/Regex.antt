-- ===== src/Python/Regex.antt =====
-- Regular expressions of `re.fullmatch`, decided by derivatives.
pub mod Language
pub mod Laws
pub use tailscale_koolshare.Common.Order.{codes}
use tailscale_koolshare.Common.{
  ℕ, zero, suc, String, Bool, true, false, ◌&&◌, ◌||◌, List, [], ◌∷◌, ◌++◌, ◌≡◌, Option, none, some,
  leb, eqb, if◌then◌else◌,
}
use tailscale_koolshare.Python.Interpreter.{Interpreter}

pub data Regex : Type 0 where
  void : Regex
  eps : Regex
  one : (ℕ → Bool) → Regex
  seq : Regex → Regex → Regex
  alt : Regex → Regex → Regex
  star : Regex → Regex

abbrev pub chars : List ℕ → Regex
chars [] = eps
chars (c ∷ s) = seq (one (λ d. eqb d c)) (chars s)

-- A text that stands for itself.
abbrev pub lit : String → Regex
lit s = chars (codes s)

-- `[lo-hi]`
abbrev pub range : ℕ → ℕ → Regex
range lo hi = one (λ c. leb lo c && leb c hi)

abbrev pub plus : Regex → Regex
plus r = seq r (star r)

-- `r{n}`
abbrev pub times : ℕ → Regex → Regex
times zero r = eps
times (suc n) r = seq r (times n r)

-- `r{0,n}`
abbrev pub up_to : ℕ → Regex → Regex
up_to zero r = eps
up_to (suc n) r = alt eps (seq r (up_to n r))

abbrev is_some {ℓ} : {A : Type ℓ} → Option A → Bool
is_some none = false
is_some (some a) = true

-- `\d`
abbrev pub digit : ⦃py : Interpreter⦄ → Regex
digit ⦃py⦄ = one (λ c. is_some (py.decimal c))

pub nullable : Regex → Bool
nullable void = false
nullable eps = true
nullable (one p) = false
nullable (seq r q) = nullable r && nullable q
nullable (alt r q) = nullable r || nullable q
nullable (star r) = true

-- Alternation and sequence that drop a side that is `void`.
pub either : Regex → Regex → Regex
either void q = q
either r void = r
either r q = alt r q

pub chain : Regex → Regex → Regex
chain void q = void
chain eps q = q
chain r q = seq r q

deriv : Regex → ℕ → Regex
unfolding either chain nullable
deriv void c = void
deriv eps c = void
deriv (one p) c = if p c then eps else void
deriv (seq r q) c =
    let first = chain (deriv r c) q in
    let second = deriv q c in if nullable r then either first second else first
deriv (alt r q) c = either (deriv r c) (deriv q c)
deriv (star r) c = chain (deriv r c) (star r)

matches : Regex → List ℕ → Bool
unfolding nullable deriv
matches r [] = nullable r
matches r (c ∷ s) = matches (deriv r c) s

-- `re.fullmatch(r, s) is not None`
unfoldable pub fullmatch : Regex → String → Bool
unfolding matches
fullmatch r s = matches r (codes s)
