-- ===== src/Python/Json.antt =====
-- JSON values as `json.loads` returns them, and what the tools do with them.
pub mod Laws
use tailscale_koolshare.Common.{
  ℕ, zero, suc, ◌+◌, ◌*◌, ◌^◌, String, Bool, true, false, ◌&&◌, ◌||◌, not, List, [], ◌∷◌, Option,
  none, some, eqb, ◌==◌, if◌then◌else◌, ℤ, pos, negsuc, pos_part, neg_part, length, all, any,
}
use tailscale_koolshare.Common.Outcome.{
  Result, ok, raise, ◌>>=◌, from_option, type_error, key_error, attribute_error, value_error,
}

-- A finite float is a dyadic fraction: `float m k` is m / 2^k. `NaN` and the infinities, which
-- are no JSON, are left out.
mutual
  pub data Json : Type 0 where
    null : Json
    bool : Bool → Json
    int : ℤ → Json
    float : ℤ → ℕ → Json
    str : String → Json
    arr : Items → Json
    obj : Fields → Json

  pub data Items : Type 0 where
    nil : Items
    cons : Json → Items → Items

  pub data Fields : Type 0 where
    end : Fields
    field : String → Json → Fields → Fields

abbrev pub items : Items → List Json
items nil = []
items (cons v vs) = v ∷ items vs

abbrev pub fields : Fields → List (String × Json)
fields end = []
fields (field k v fs) = (k, v) ∷ fields fs

abbrev pub to_items : List Json → Items
to_items [] = nil
to_items (v ∷ vs) = cons v (to_items vs)

abbrev pub keys : Fields → List String
keys end = []
keys (field k v fs) = k ∷ keys fs

abbrev pub values : Fields → List Json
values end = []
values (field k v fs) = v ∷ values fs

-- `d.get(k)` on the entries of a dict.
unfoldable pub lookup : String → Fields → Option Json
lookup k end = none
lookup k (field j v fs) = if j == k then some v else lookup k fs

abbrev pub contains : String → List String → Bool
contains k [] = false
contains k (j ∷ ks) = j == k || contains k ks

-- `set(d) == {…}`
unfoldable pub has_exactly : List String → Fields → Bool
has_exactly names fs =
    all (λ k. contains k (keys fs)) names && all (λ k. contains k names) (keys fs)

-- The number that a value is: a `bool` is one in Python.
abbrev pub number? : Json → Option (ℤ × ℕ)
number? (bool true) = some (pos 1, 0)
number? (bool false) = some (pos 0, 0)
number? (int n) = some (n, 0)
number? (float m k) = some (m, k)
number? _ = none

abbrev pub same_number : ℤ × ℕ → ℤ × ℕ → Bool
same_number (m, k) (n, l) =
    eqb (pos_part m * 2 ^ l + neg_part n * 2 ^ k) (pos_part n * 2 ^ k + neg_part m * 2 ^ l)

abbrev pub same_numbers : Option (ℤ × ℕ) → Option (ℤ × ℕ) → Bool
same_numbers (some p) (some q) = same_number p q
same_numbers _ _ = false

-- `v == w`. The order of a dict's entries does not count.
unfoldable mutual
  unfolding lookup

  pub json_eq : Json → Json → Bool
  json_eq null null = true
  json_eq (str s) (str t) = s == t
  json_eq (arr vs) (arr ws) = items_eq vs (items ws)
  json_eq (obj fs) (obj gs) = eqb (length (keys fs)) (length (keys gs)) && fields_eq fs gs
  json_eq v w = same_numbers (number? v) (number? w)

  pub items_eq : Items → List Json → Bool
  items_eq nil [] = true
  items_eq (cons v vs) (w ∷ ws) = json_eq v w && items_eq vs ws
  items_eq _ _ = false

  pub fields_eq : Fields → Fields → Bool
  fields_eq end gs = true
  fields_eq (field k v fs) gs =
      elim (lookup k gs) [ none ↦ false | some w ↦ json_eq v w ] && fields_eq fs gs

-- `d[k]`
unfoldable pub item : String → Json → Result Json
unfolding lookup
item k (obj fs) = from_option (key_error k) (lookup k fs)
item k _ = raise type_error

abbrev pub or_null : Option Json → Json
or_null none = null
or_null (some v) = v

-- `d.get(k)`
unfoldable pub get : String → Json → Result Json
unfolding lookup
get k (obj fs) = ok (or_null (lookup k fs))
get k _ = raise attribute_error

-- A value used where only a text will do.
unfoldable pub as_str : Json → Result String
as_str (str s) = ok s
as_str _ = raise type_error

-- `d[k]` where only a text will do.
unfoldable pub text_item : String → Json → Result String
text_item k v = do w ← item k v; as_str w

-- The truth value of a value.
unfoldable pub truthy : Json → Bool
truthy null = false
truthy (bool b) = b
truthy (int n) = not (eqb (pos_part n + neg_part n) 0)
truthy (float m k) = not (eqb (pos_part m + neg_part m) 0)
truthy (str s) = not (s == "")
truthy (arr vs) = not (eqb (length (items vs)) 0)
truthy (obj fs) = not (eqb (length (fields fs)) 0)

abbrev pub is_null : Json → Bool
is_null null = true
is_null _ = false

abbrev pub is_obj : Json → Bool
is_obj (obj fs) = true
is_obj _ = false
