-- ===== src/Python/Regex/Laws.antt =====
-- The derivative matcher decides the language of an expression.
use tailscale_koolshare.Common.{
  ℕ, Bool, true, List, [], ◌∷◌, ◌++◌, ◌≡◌, refl, sym, subst, ap, ◌↔◌, ◌⊎◌, inl, inr, String,
  if◌then◌else◌, Bool-cases,
}
use tailscale_koolshare.Python.Regex.{
  Regex, void, eps, one, seq, alt, star, codes, nullable, either, chain, deriv, matches, fullmatch,
}
use tailscale_koolshare.Python.Regex.Language.{
  Star, done, more, Lang, either_sound, either-left, either-right, chain_sound, chain_complete,
  nullable_sound, nullable_complete,
}

append-cons :
    (c : ℕ) (s a b : List ℕ)
    → c ∷ s ≡ a ++ b
    → ((a ≡ []) × (b ≡ c ∷ s)) ⊎ ((a' : List ℕ) × (a ≡ c ∷ a') × (s ≡ a' ++ b))
append-cons c s [] b e = inl (refl, sym e)
append-cons c s (x ∷ a) b e = inr (a, cc, cc)

Star-more :
    {P : List ℕ → Type 0} {c : ℕ} (s a b : List ℕ)
    → s ≡ a ++ b
    → P (c ∷ a)
    → Star P b
    → Star P (c ∷ s)
Star-more {P} {c} s a b e h k = subst (λ t. Star P (c ∷ t)) (sym e) (more c a b h k)

one_sound :
    (p : ℕ → Bool) (c : ℕ) (s : List ℕ) → Lang (if p c then eps else void) s → Lang (one p) (c ∷ s)
one_sound p c s h = elim (Bool-cases (p c)) [
  | inl e ↦ (c, ap (λ t. c ∷ t) (rw e at h), e)
  | inr e ↦ absurd (rw e at h)
]

seq_sound :
    (r q r' q' : Regex) (c : ℕ) (s : List ℕ)
    → ((t : List ℕ) → Lang r' t → Lang r (c ∷ t))
    → ((t : List ℕ) → Lang q' t → Lang q (c ∷ t))
    → Lang (if nullable r then either (chain r' q) q' else chain r' q) s
    → Lang (seq r q) (c ∷ s)
seq_sound r q r' q' c s on-r on-q h = elim (Bool-cases (nullable r)) [
  | inl e ↦ elim (either_sound (chain r' q) q' s (rw e at h)) [
    | inl k ↦ first k
    | inr k ↦ ([], c ∷ s, refl, nullable_sound r e, on-q s k)
  ]
  | inr e ↦ first (rw e at h)
]
  where
    first : Lang (chain r' q) s → Lang (seq r q) (c ∷ s)
    first k =
        let (a, b, e, ha, hb) = chain_sound r' q s k in (c ∷ a, b, ap (λ t. c ∷ t) e, on-r a ha, hb)

deriv_sound : (r : Regex) (c : ℕ) (s : List ℕ) → Lang (deriv r c) s → Lang r (c ∷ s)
unfolding deriv
deriv_sound void c s h = absurd h
deriv_sound eps c s h = absurd h
deriv_sound (one p) c s h = one_sound p c s h
deriv_sound (seq r q) c s h =
    seq_sound r q (deriv r c) (deriv q c) c s (deriv_sound r c) (deriv_sound q c) h
deriv_sound (alt r q) c s h = elim (either_sound (deriv r c) (deriv q c) s h) [
  | inl k ↦ inl (deriv_sound r c s k)
  | inr k ↦ inr (deriv_sound q c s k)
]
deriv_sound (star r) c s h =
    let (a, b, e, first, rest) = chain_sound (deriv r c) (star r) s h in
    Star-more s a b e (deriv_sound r c a first) rest

one_complete :
    (p : ℕ → Bool) (c d : ℕ) (s : List ℕ)
    → c ∷ s ≡ d ∷ []
    → p d ≡ true
    → Lang (if p c then eps else void) s
one_complete p c d s e h = let same : c ≡ d = cc in let empty : s ≡ [] = cc in rw (same, h) empty

seq_complete :
    (r q r' q' : Regex) (c : ℕ) (s a b : List ℕ)
    → ((t : List ℕ) → Lang r (c ∷ t) → Lang r' t)
    → ((t : List ℕ) → Lang q (c ∷ t) → Lang q' t)
    → c ∷ s ≡ a ++ b
    → Lang r a
    → Lang q b
    → Lang (if nullable r then either (chain r' q) q' else chain r' q) s
seq_complete r q r' q' c s a b on-r on-q e h k = elim (append-cons c s a b e) [
  | inl (a-nil, b-all) ↦
      let n = nullable_complete r (subst (Lang r) a-nil h) in
      rw n (either-right (chain r' q) q' s (on-q s (subst (Lang q) b-all k)))
  | inr (a', a-cons, split) ↦
      let first : Lang (chain r' q) s =
        subst (Lang (chain r' q)) (sym split)
          (chain_complete r' q a' b (on-r a' (subst (Lang r) a-cons h)) k) in
      elim (Bool-cases (nullable r)) [
        | inl n ↦ rw n (either-left (chain r' q) q' s first)
        | inr n ↦ rw n first
      ]
]

Star-cons :
    {P : List ℕ → Type 0} (c : ℕ) (s u : List ℕ)
    → Star P u
    → u ≡ c ∷ s
    → (a : List ℕ) × (b : List ℕ) × (s ≡ a ++ b) × P (c ∷ a) × Star P b
Star-cons c s _ done e = cc
Star-cons {P} c s _ (more d a b h k) e =
    let same : d ≡ c = cc in (a, b, cc, subst (λ x. P (x ∷ a)) same h, k)

deriv_complete : (r : Regex) (c : ℕ) (s : List ℕ) → Lang r (c ∷ s) → Lang (deriv r c) s
unfolding deriv
deriv_complete void c s h = absurd h
deriv_complete eps c s h = cc
deriv_complete (one p) c s (d, e, h) = one_complete p c d s e h
deriv_complete (seq r q) c s (a, b, e, h, k) =
    seq_complete r q (deriv r c) (deriv q c) c s a b (deriv_complete r c) (deriv_complete q c) e h k
deriv_complete (alt r q) c s (inl h) =
    either-left (deriv r c) (deriv q c) s (deriv_complete r c s h)
deriv_complete (alt r q) c s (inr h) =
    either-right (deriv r c) (deriv q c) s (deriv_complete q c s h)
deriv_complete (star r) c s h =
    let (a, b, e, first, rest) = Star-cons c s (c ∷ s) h refl in
    subst (Lang (chain (deriv r c) (star r))) (sym e)
      (chain_complete (deriv r c) (star r) a b (deriv_complete r c a first) rest)

matches_iff : (r : Regex) (s : List ℕ) → (matches r s ≡ true) ↔ Lang r s
unfolding matches
matches_iff r [] = (nullable_sound r, nullable_complete r)
matches_iff r (c ∷ s) =
    let (to, from) = matches_iff (deriv r c) s in
    (λ h. deriv_sound r c s (to h), λ h. from (deriv_complete r c s h))

-- The matcher accepts exactly the texts of the expression's language.
pub fullmatch_iff : (r : Regex) (s : String) → (fullmatch r s ≡ true) ↔ Lang r (codes s)
unfolding fullmatch
fullmatch_iff r s = matches_iff r (codes s)
