-- ===== src/CoreLock/Identity.antt =====
-- Upstream versions, build numbers and commits as the release tools accept them.
pub mod Stable
pub mod Commit
use tailscale_koolshare.Common.{
  ℕ, ℤ, String, Bool, true, false, not, List, [], ◌∷◌, Option, none, some, ◌==◌, if◌then◌else◌,
  is_odd, ◌&&◌, ◌||◌, all, any,
}
use tailscale_koolshare.Common.Outcome.{
  Result, ok, raise, ◌>>=◌, ◌>>◌, value_error, type_error, index_error, require, from_option,
}
use tailscale_koolshare.Python.Interpreter.{Interpreter}
use tailscale_koolshare.Python.Regex.{Regex, lit, range, seq, plus, times, up_to, digit, fullmatch}
use tailscale_koolshare.Python.Text.{split_on}
use tailscale_koolshare.Python.Number.{int_of}
use tailscale_koolshare.Python.Json.{Json, arr, obj, str, items, json_eq, text_item, item, as_str}
use tailscale_koolshare.Toolchain.Lock.{hex, has_fields}

-- The commit of an object of type "commit", in `source_commit` of tools/build_core.py.
unfoldable pub commit_of : Json → Result String
commit_of object = do
  sha ← text_item "sha" object
  require (fullmatch (times 40 hex) sha) "invalid upstream commit"
  ok sha

abbrev pub second_piece : List String → Option String
second_piece (_ ∷ minor ∷ _) = some minor
second_piece _ = none

abbrev pub pin_fields : List String
pin_fields = "version" ∷ "build" ∷ []

-- What no set can hold.
abbrev is_container : Json → Bool
is_container (arr vs) = true
is_container (obj fs) = true
is_container _ = false

-- A list that gives the set of the two names.
abbrev are_fields : List Json → Bool
are_fields vs =
    all (λ v. json_eq v (str "version") || json_eq v (str "build")) vs
    && any (λ v. json_eq v (str "version")) vs
    && any (λ v. json_eq v (str "build")) vs

-- `set(value) != {"version", "build"}`, and the index by a name that follows. What cannot be
-- iterated, a list that no set can hold, and a list that is indexed by a name are type errors.
unfoldable pub check_pin_fields : Json → Result (Unit {0})
check_pin_fields (obj fs) = require (has_fields pin_fields (obj fs)) "invalid bundled core identity"
check_pin_fields (arr vs) =
    if any is_container (items vs) || are_fields (items vs)
    then raise type_error
    else raise (value_error "invalid bundled core identity")
check_pin_fields (str s) = raise (value_error "invalid bundled core identity")
check_pin_fields _ = raise type_error

module _ ⦃py : Interpreter⦄ where
  -- `\d+\.\d+\.\d+`
  abbrev pub numeric_version : Regex
  numeric_version = seq (plus digit) (seq (lit ".") (seq (plus digit) (seq (lit ".") (plus digit))))

  -- `r[1-9]\d{0,5}`
  abbrev pub build_number : Regex
  build_number = seq (lit "r") (seq (range b'1' b'9') (up_to 5 digit))

  -- `int(version.split(".")[1])`
  unfoldable pub minor_of : String → Result ℤ
  minor_of version = do
    minor ← from_option index_error (second_piece (split_on b'.' version))
    int_of minor

  -- A numeric version with an even minor number: upstream's stable releases.
  unfoldable pub check_stable : String → String → Result (Unit {0})
  check_stable message version = do
    require (fullmatch numeric_version version) message
    minor ← minor_of version
    require (not (is_odd minor)) message

  -- `bundle_identity` of tools/prepare_bundle.py, from the JSON of the pin.
  unfoldable pub bundle_identity : Json → Result Json
  bundle_identity value = do
    check_pin_fields value
    version ← text_item "version" value
    check_stable "invalid bundled core identity" version
    build ← text_item "build" value
    require (fullmatch build_number build) "invalid bundled core identity"
    ok value
