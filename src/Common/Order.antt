-- ===== src/Common/Order.antt =====
-- Strict orders by a Boolean test, and the order of lists that comes from one.
use text.Mathlib.TextEquality.{Char-path}
use Prim.Native.Char.{code}
use Prim.Native.Nat.{ℕ}
use Prim.Native.String.{String}
use mathlib.Core.Path.{◌≡◌, refl}
use mathlib.Core.Bool.{Bool, true, false, not, ◌&&◌, ◌||◌}
use mathlib.Core.List.{List, [], ◌∷◌}
use native.Mathlib.Omega.{arith}
use mathlib.Core.Logic.{inl, inr}
use tailscale_koolshare.Common.Tests.{ltb, Bool-cases}

pub record Order (A : Type 0) : Type 0 where
  pub before : A → A → Bool
  pub asymm : (a b : A) → before a b ≡ true → before b a ≡ false
  pub trans : (a b c : A) → before a b ≡ true → before b c ≡ true → before a c ≡ true
  pub connected : (a b : A) → before a b ≡ false → before b a ≡ false → a ≡ b

-- Of two values that differ, one comes first.
pub one_first :
    {A : Type 0} (o : Order A) (a b : A) → ¬ (a ≡ b) → o.before a b ≡ false → o.before b a ≡ true
one_first o a b differ h = elim (Bool-cases (o.before b a)) [
  | inl first ↦ first
  | inr other ↦ absurd (differ (o.connected a b h other))
]

pub ltb_asymm : (a b : ℕ) → ltb a b ≡ true → ltb b a ≡ false
ltb_asymm a b h = ground arith

pub ltb_trans : (a b c : ℕ) → ltb a b ≡ true → ltb b c ≡ true → ltb a c ≡ true
ltb_trans a b c h g = ground arith

pub ltb_connected : (a b : ℕ) → ltb a b ≡ false → ltb b a ≡ false → a ≡ b
ltb_connected a b h g = ground arith

abbrev pub nat_order : Order ℕ
nat_order = record { before = ltb; asymm = ltb_asymm; trans = ltb_trans; connected = ltb_connected }

-- The first place where two lists differ decides; a list comes before what extends it.
abbrev pub lex : {A : Type 0} → (A → A → Bool) → List A → List A → Bool
lex before [] [] = false
lex before [] (b ∷ bs) = true
lex before (a ∷ as') [] = false
lex before (a ∷ as') (b ∷ bs) = before a b || (not (before b a) && lex before as' bs)

module _ {A : Type 0} (o : Order A) where
  pub lex_asymm : (k l : List A) → lex o.before k l ≡ true → lex o.before l k ≡ false
  lex_asymm [] [] h = cc
  lex_asymm [] (b ∷ l) h = refl
  lex_asymm (a ∷ k) [] h = cc
  lex_asymm (a ∷ k) (b ∷ l) h = ground (arith, o.asymm a b, o.asymm b a, lex_asymm k l)

  pub lex_connected : (k l : List A) → lex o.before k l ≡ false → lex o.before l k ≡ false → k ≡ l
  lex_connected [] [] h g = refl
  lex_connected [] (b ∷ l) h g = cc
  lex_connected (a ∷ k) [] h g = cc
  lex_connected (a ∷ k) (b ∷ l) h g = ground (arith, o.connected a b, lex_connected k l)

  pub lex_trans :
      (k l m : List A) → lex o.before k l ≡ true → lex o.before l m ≡ true → lex o.before k m ≡ true
  lex_trans [] [] m h g = cc
  lex_trans [] (b ∷ l) [] h g = cc
  lex_trans [] (b ∷ l) (c ∷ m) h g = refl
  lex_trans (a ∷ k) [] m h g = cc
  lex_trans (a ∷ k) (b ∷ l) [] h g = cc
  lex_trans (a ∷ k) (b ∷ l) (c ∷ m) h g = ground (
    arith,
    o.asymm a b,
    o.asymm b c,
    o.asymm a c,
    o.trans a b c,
    o.connected a b,
    o.connected b c,
    lex_trans k l m,
  )

  abbrev pub list_order : Order (List A)
  list_order = record {
    before = lex o.before;
    asymm = lex_asymm;
    trans = lex_trans;
    connected = lex_connected;
  }

-- The code points of a text, and the order of texts that Python has.
abbrev pub codes : String → List ℕ
codes String.[] = []
codes (String.◌∷◌ c s) = code c ∷ codes s

pub codes_injective : (s t : String) → codes s ≡ codes t → s ≡ t
codes_injective String.[] String.[] h = refl
codes_injective String.[] (String.◌∷◌ c t) h = cc
codes_injective (String.◌∷◌ c s) String.[] h = cc
codes_injective (String.◌∷◌ c s) (String.◌∷◌ d t) h =
    let first : code c ≡ code d = cc in
    let same = Char-path c d first in let rest = codes_injective s t (cc) in cc

-- The order of values by a key that tells them apart.
abbrev pub order_by :
    {A B : Type 0} (f : A → B) → ((a b : A) → f a ≡ f b → a ≡ b) → Order B → Order A
order_by f injective o = record {
  before = λ a b. o.before (f a) (f b);
  asymm = λ a b. o.asymm (f a) (f b);
  trans = λ a b c. o.trans (f a) (f b) (f c);
  connected = λ a b h g. injective a b (o.connected (f a) (f b) h g);
}

abbrev pub text_order : Order String
text_order = order_by codes codes_injective (list_order nat_order)

-- Paths compare by their parts.
abbrev pub path_order : Order (List String)
path_order = list_order text_order
