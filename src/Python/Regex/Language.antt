-- ===== src/Python/Regex/Language.antt =====
-- The language of an expression, and what the helpers of the matcher do to it.
use tailscale_koolshare.Common.{
  ℕ, Bool, true, ◌||◌, List, [], ◌∷◌, ◌++◌, ◌≡◌, refl, sym, subst, ◌⊎◌, inl, inr, arith,
  and-eq-true, and-intro, or-eq-true,
}
use tailscale_koolshare.Python.Regex.{
  Regex, void, eps, one, seq, alt, star, nullable, either, chain,
}

-- Repetition of a language: finitely many non-empty texts of it, one after the other.
pub data Star (P : List ℕ → Type 0) : List ℕ → Type 0 where
  done : Star P []
  more : (c : ℕ) (s t : List ℕ) → P (c ∷ s) → Star P t → Star P (c ∷ (s ++ t))

-- The texts that an expression describes.
abbrev pub Lang : Regex → List ℕ → Type 0
Lang void s = ⊥
Lang eps s = s ≡ []
Lang (one p) s = (c : ℕ) × (s ≡ c ∷ []) × (p c ≡ true)
Lang (seq r q) s = (a : List ℕ) × (b : List ℕ) × (s ≡ a ++ b) × Lang r a × Lang q b
Lang (alt r q) s = Lang r s ⊎ Lang q s
Lang (star r) s = Star (Lang r) s

pub either_sound : (r q : Regex) (s : List ℕ) → Lang (either r q) s → Lang r s ⊎ Lang q s
unfolding either
either_sound void q s h = inr h
either_sound eps void s h = inl h
either_sound (one p) void s h = inl h
either_sound (seq r r') void s h = inl h
either_sound (alt r r') void s h = inl h
either_sound (star r) void s h = inl h
either_sound r q s h = h

pub either-left : (r q : Regex) (s : List ℕ) → Lang r s → Lang (either r q) s
unfolding either
either-left void q s h = absurd h
either-left eps void s h = h
either-left (one p) void s h = h
either-left (seq r r') void s h = h
either-left (alt r r') void s h = h
either-left (star r) void s h = h
either-left r q s h = inl h

pub either-right : (r q : Regex) (s : List ℕ) → Lang q s → Lang (either r q) s
unfolding either
either-right void q s h = h
either-right eps void s h = absurd h
either-right (one p) void s h = absurd h
either-right (seq r r') void s h = absurd h
either-right (alt r r') void s h = absurd h
either-right (star r) void s h = absurd h
either-right r q s h = inr h

pub chain_sound :
    (r q : Regex) (s : List ℕ)
    → Lang (chain r q) s
    → (a : List ℕ) × (b : List ℕ) × (s ≡ a ++ b) × Lang r a × Lang q b
unfolding chain
chain_sound void q s h = absurd h
chain_sound eps q s h = ([], s, refl, refl, h)
chain_sound r q s h = h

pub chain_complete : (r q : Regex) (a b : List ℕ) → Lang r a → Lang q b → Lang (chain r q) (a ++ b)
unfolding chain
chain_complete void q a b h k = absurd h
chain_complete eps q a b h k = rw h k
chain_complete r q a b h k = (a, b, refl, h, k)

pub nullable_sound : (r : Regex) → nullable r ≡ true → Lang r []
unfolding nullable
nullable_sound void h = cc
nullable_sound eps h = refl
nullable_sound (one p) h = cc
nullable_sound (seq r q) h =
    let (here, there) = and-eq-true _ _ h in
    ([], [], refl, nullable_sound r here, nullable_sound q there)
nullable_sound (alt r q) h = elim (or-eq-true _ _ h) [
  | inl here ↦ inl (nullable_sound r here)
  | inr there ↦ inr (nullable_sound q there)
]
nullable_sound (star r) h = done

pub nil-of-append : (a b : List ℕ) → [] ≡ a ++ b → (a ≡ []) × (b ≡ [])
nil-of-append [] b e = (refl, sym e)
nil-of-append (x ∷ a) b e = cc

Star-nil-or : (b c : Bool) → b ≡ true → (b || c) ≡ true
Star-nil-or b c h = ground arith

pub nullable_complete : (r : Regex) → Lang r [] → nullable r ≡ true
unfolding nullable
nullable_complete void h = absurd h
nullable_complete eps h = refl
nullable_complete (one p) (c, e, h) = cc
nullable_complete (seq r q) (a, b, e, h, k) =
    let (a-nil, b-nil) = nil-of-append a b e in
    and-intro (nullable_complete r (subst (Lang r) a-nil h))
      (nullable_complete q (subst (Lang q) b-nil k))
nullable_complete (alt r q) (inl h) = let p = nullable_complete r h in ground arith
nullable_complete (alt r q) (inr h) = let p = nullable_complete q h in ground arith
nullable_complete (star r) h = refl

-- How a text that starts with `c` splits in two.
