-- ===== src/Python/Json/Laws.antt =====
-- Equality with a text, and lookups.
use tailscale_koolshare.Common.{String, ◌∙◌, true, false, ◌≡◌, refl, sym, eq_iff, ap}
use text.Mathlib.TextPositions.{eq_refl}
use tailscale_koolshare.Common.Outcome.{ok, >>=-eq-ok}
use tailscale_koolshare.Python.Json.{
  Json, null, bool, int, float, str, arr, obj, json_eq, item, as_str, text_item,
}

-- `k` has the value `v` in the dict.
abbrev pub At : String → Json → Json → Type 0
At k j v = item k j ≡ ok v

pub json_eq-str : (v : Json) (s : String) → json_eq v (str s) ≡ true → v ≡ str s
unfolding json_eq
json_eq-str (str t) s h = ap str ((eq_iff t s).0 h)
json_eq-str null s h = cc
json_eq-str (bool true) s h = cc
json_eq-str (bool false) s h = cc
json_eq-str (int n) s h = cc
json_eq-str (float m k) s h = cc
json_eq-str (arr vs) s h = cc
json_eq-str (obj fs) s h = cc

pub str-json_eq : (v : Json) (s : String) → json_eq (str s) v ≡ true → v ≡ str s
unfolding json_eq
str-json_eq (str t) s h = ap str (sym ((eq_iff s t).0 h))
str-json_eq null s h = cc
str-json_eq (bool b) s h = cc
str-json_eq (int n) s h = cc
str-json_eq (float m k) s h = cc
str-json_eq (arr vs) s h = cc
str-json_eq (obj fs) s h = cc

pub json_eq-str_refl : (s : String) → json_eq (str s) (str s) ≡ true
unfolding json_eq
json_eq-str_refl s = eq_refl s

pub as_str-eq-ok : (v : Json) (s : String) → as_str v ≡ ok s → v ≡ str s
unfolding as_str
as_str-eq-ok (str t) s h = cc
as_str-eq-ok null s h = cc
as_str-eq-ok (bool b) s h = cc
as_str-eq-ok (int n) s h = cc
as_str-eq-ok (float m k) s h = cc
as_str-eq-ok (arr vs) s h = cc
as_str-eq-ok (obj fs) s h = cc

pub text_item-eq-ok : (k : String) (v : Json) {s : String} → text_item k v ≡ ok s → At k v (str s)
unfolding text_item
text_item-eq-ok k v h =
    let (found, at, text) = >>=-eq-ok (item k v) _ h in at ∙ ap ok (as_str-eq-ok found _ text)

pub text_item-At : (k : String) (v : Json) {s : String} → At k v (str s) → text_item k v ≡ ok s
unfolding as_str text_item
text_item-At k v h = rw h refl
