-- ===== src/Toolchain/Version.antt =====
-- `_version`, `_key` and the greatest version of tools/toolchain.py.
pub mod Greatest
use tailscale_koolshare.Common.{
  ℤ, String, Bool, true, false, ◌&&◌, List, [], ◌∷◌, if◌then◌else◌, eqb_ℤ, ltb_ℤ,
}
use tailscale_koolshare.Common.Outcome.{Result, ok, raise, ◌>>=◌, value_error, traverse}
use tailscale_koolshare.Python.Interpreter.{Interpreter}
use tailscale_koolshare.Python.Regex.{Regex, lit, range, seq, alt, star, digit, fullmatch}
use tailscale_koolshare.Python.Text.{◌<>◌, strip, remove_prefix, split_on}
use tailscale_koolshare.Python.Number.{int_of}
use tailscale_koolshare.Python.Json.{Json, str}

-- The order of tuples: the first difference decides, and a prefix comes first.
unfoldable pub key_ltb : List ℤ → List ℤ → Bool
key_ltb [] [] = false
key_ltb [] (y ∷ ys) = true
key_ltb (x ∷ xs) [] = false
key_ltb (x ∷ xs) (y ∷ ys) = if eqb_ℤ x y then key_ltb xs ys else ltb_ℤ x y

-- `==` of tuples.
unfoldable pub key_eqb : List ℤ → List ℤ → Bool
key_eqb [] [] = true
key_eqb (x ∷ xs) (y ∷ ys) = eqb_ℤ x y && key_eqb xs ys
key_eqb _ _ = false

module _ ⦃py : Interpreter⦄ where
  -- `0|[1-9]\d*`
  abbrev pub numeral : Regex
  numeral = alt (lit "0") (seq (range b'1' b'9') (star digit))

  abbrev pub language_version : Regex
  language_version = seq (lit "1.") numeral

  abbrev pub full_version : Regex
  full_version = seq (lit "1.") (seq numeral (seq (lit ".") numeral))

  -- A language version names no patch release: zero is meant.
  abbrev with_patch : Bool → String → String
  with_patch language value =
      if language && fullmatch language_version value then value <> ".0" else value

  unfoldable pub version : Json → Bool → Result String
  version (str s) language =
      let value = with_patch language (remove_prefix "go" (strip s)) in
      if fullmatch full_version value
      then ok value
      else raise (value_error "Go version must be a stable numeric version")
  version _ language = raise (value_error "Go version must be a stable numeric version")

  unfoldable pub key : String → Result (List ℤ)
  key v = traverse int_of (split_on b'.' v)

  -- The loop of `max(…, key=_key)`: of equal keys the first one stays.
  unfoldable pub max_from : String → List ℤ → List String → Result String
  max_from best k [] = ok best
  max_from best k (v ∷ vs) = do
    kv ← key v
    max_from (if key_ltb k kv then v else best) (if key_ltb k kv then kv else k) vs

  unfoldable pub max_by_key : List String → Result String
  max_by_key [] = raise (value_error "max() iterable argument is empty")
  max_by_key (v ∷ vs) = do k ← key v; max_from v k vs
