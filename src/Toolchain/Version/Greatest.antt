-- ===== src/Toolchain/Version/Greatest.antt =====
-- The order of version keys, and what `max(…, key=_key)` finds.
use tailscale_koolshare.Common.{
  ℤ, String, true, false, List, [], ◌∷◌, ◌≡◌, refl, sym, inl, inr, arith, eqb_ℤ-eq, All, In,
  Bool-cases,
}
use tailscale_koolshare.Common.Outcome.{ok, >>=-eq-ok}
use tailscale_koolshare.Python.Interpreter.{Interpreter}
use tailscale_koolshare.Toolchain.Version.{key, key_ltb, max_from, max_by_key}

-- A key that no later key in the order is below.
abbrev pub AtMost : List ℤ → List ℤ → Type 0
AtMost k l = key_ltb l k ≡ false

pub AtMost-refl : (k : List ℤ) → AtMost k k
unfolding key_ltb
AtMost-refl [] = refl
AtMost-refl (x ∷ k) = ground (arith, AtMost-refl k)

pub AtMost-trans : (k l m : List ℤ) → AtMost k l → AtMost l m → AtMost k m
unfolding key_ltb
AtMost-trans [] l [] h g = refl
AtMost-trans [] [] (z ∷ m) h g = refl
AtMost-trans [] (y ∷ l) (z ∷ m) h g = refl
AtMost-trans (x ∷ k) [] m h g = cc
AtMost-trans (x ∷ k) (y ∷ l) [] h g = cc
AtMost-trans (x ∷ k) (y ∷ l) (z ∷ m) h g = ground (arith, AtMost-trans k l m)

pub ltb-AtMost : (k l : List ℤ) → key_ltb k l ≡ true → AtMost k l
unfolding key_ltb
ltb-AtMost [] [] h = cc
ltb-AtMost [] (y ∷ l) h = refl
ltb-AtMost (x ∷ k) [] h = cc
ltb-AtMost (x ∷ k) (y ∷ l) h = ground (arith, ltb-AtMost k l)

-- Keys that are at most one another are the same.
pub AtMost-antisymm : (k l : List ℤ) → AtMost k l → AtMost l k → k ≡ l
unfolding key_ltb
AtMost-antisymm [] [] h g = refl
AtMost-antisymm [] (y ∷ l) h g = cc
AtMost-antisymm (x ∷ k) [] h g = cc
AtMost-antisymm (x ∷ k) (y ∷ l) h g =
    ground (arith, AtMost-antisymm k l, eqb_ℤ-eq x y, eqb_ℤ-eq y x)

module _ ⦃py : Interpreter⦄ where
  -- The version has a key, and that is at most the given one.
  abbrev pub KeyAtMost : List ℤ → String → Type 0
  KeyAtMost k v = (kv : List ℤ) × (key v ≡ ok kv) × AtMost kv k

  -- One of the versions, with a key that no other one exceeds.
  pub record IsGreatest (m : String) (vs : List String) : Type 0 where
    pub greatest_key : List ℤ
    pub has_key : key m ≡ ok greatest_key
    pub member : In m vs
    pub bound : All (KeyAtMost greatest_key) vs

  head-bound :
      (w : String) (ws : List String) {kw : List ℤ} (g : List ℤ)
      → All (KeyAtMost g) (w ∷ ws)
      → key w ≡ ok kw
      → AtMost kw g
  head-bound w ws g ((kv, e, below), _) e' = ground arith

  In-skip : {m w v : String} (ws : List String) → In m (w ∷ ws) → In m (w ∷ v ∷ ws)
  In-skip ws (inl p) = inl p
  In-skip ws (inr p) = inr (inr p)

  max_from-IsGreatest :
      (best : String) (k : List ℤ) (vs : List String) {m : String}
      → key best ≡ ok k
      → max_from best k vs ≡ ok m
      → IsGreatest m (best ∷ vs)
  unfolding max_from
  max_from-IsGreatest best k [] {m} e h =
      let same : best ≡ m = cc in
      record {
        greatest_key = k;
        has_key = rw (← same) e;
        member = inl (sym same);
        bound = ((k, e, AtMost-refl k), tt);
      }
  max_from-IsGreatest best k (v ∷ vs) {m} e h =
      let (kv, key_v, rest) = >>=-eq-ok (key v) _ h in
      elim (Bool-cases (key_ltb k kv)) [
        | inl later ↦
            let r = max_from-IsGreatest v kv vs key_v (rw later at rest) in
            let below =
              AtMost-trans k kv r.greatest_key (ltb-AtMost k kv later)
                (head-bound v vs r.greatest_key r.bound key_v) in
            record {
              greatest_key = r.greatest_key;
              has_key = r.has_key;
              member = inr r.member;
              bound = ((k, e, below), r.bound);
            }
        | inr not_later ↦
            let r = max_from-IsGreatest best k vs e (rw not_later at rest) in
            record {
              greatest_key = r.greatest_key;
              has_key = r.has_key;
              member = In-skip vs r.member;
              bound = (
                r.bound.0,
                (
                  (
                    kv,
                    key_v,
                    AtMost-trans kv k r.greatest_key not_later
                        (head-bound best vs r.greatest_key r.bound e),
                  ),
                  r.bound.1,
                ),
              );
            }
      ]

  -- The version that max returns is one of the versions, each version has a key, and no version
  -- has a key above that of the one returned.
  pub max_by_key-IsGreatest :
      (vs : List String) {m : String} → max_by_key vs ≡ ok m → IsGreatest m vs
  unfolding max_by_key
  max_by_key-IsGreatest [] h = cc
  max_by_key-IsGreatest (v ∷ vs) h =
      let (k, e, rest) = >>=-eq-ok (key v) _ h in max_from-IsGreatest v k vs e rest
