-- ===== src/CoreLock/Identity/Stable.antt =====
-- What `check_stable` and `bundle_identity` accept.
use mathlib.Core.Option.{some-injective}
use tailscale_koolshare.Common.{
  pos_part, neg_part, ◌+◌, ◌%◌, List, [], ◌∷◌, some, ap, ℤ, String, true, false, ◌≡◌, ◌↔◌, refl,
  is_odd, not-true, arith,
}
use tailscale_koolshare.Common.Outcome.{
  ok, ok-injective, require, from_option, from_option-eq-ok, index_error, >>=-eq-ok, >>-eq-ok,
  require-eq-ok,
}
use tailscale_koolshare.Python.Interpreter.{Interpreter}
use tailscale_koolshare.Python.Regex.{codes, fullmatch}
use tailscale_koolshare.Python.Regex.Language.{Lang}
use tailscale_koolshare.Python.Regex.Laws.{fullmatch_iff}
use tailscale_koolshare.Python.Json.{Json, null, bool, int, float, arr, obj, str, text_item}
use tailscale_koolshare.Python.Json.Laws.{At, text_item-eq-ok, text_item-At}
use tailscale_koolshare.Python.Text.{split_on}
use tailscale_koolshare.Python.Number.{int_of}
use tailscale_koolshare.Toolchain.Lock.{has_fields}
use tailscale_koolshare.CoreLock.Identity.{
  numeric_version, build_number, second_piece, minor_of, pin_fields, check_pin_fields, check_stable,
  bundle_identity,
}

module _ ⦃py : Interpreter⦄ where
  -- Three runs of digits with dots between them, and an even number in the middle.
  pub record IsStable (v : String) : Type 0 where
    pub numeric : Lang numeric_version (codes v)
    pub first : String
    pub middle : String
    pub rest : List String
    pub pieces : split_on b'.' v ≡ first ∷ middle ∷ rest
    pub minor : ℤ
    pub is_minor : int_of middle ≡ ok minor
    pub even : (pos_part minor + neg_part minor) % 2 ≡ 0

  second_piece-eq-some :
      (pieces : List String) {middle : String}
      → second_piece pieces ≡ some middle
      → (first : String) × (rest : List String) × (pieces ≡ first ∷ middle ∷ rest)
  second_piece-eq-some [] h = cc
  second_piece-eq-some (first ∷ []) h = cc
  second_piece-eq-some (first ∷ middle ∷ rest) h =
      (first, rest, ap (λ m. first ∷ m ∷ rest) (some-injective _ _ h))

  minor_of_sound :
      (v : String) {minor : ℤ}
      → minor_of v ≡ ok minor
      → (first : String) × (middle : String) × (rest : List String) × (split_on b'.' v
          ≡ first ∷ middle ∷ rest)
        × (int_of middle ≡ ok minor)
  unfolding minor_of
  minor_of_sound v h =
      let (middle, found, is_minor) =
        >>=-eq-ok (from_option index_error (second_piece (split_on b'.' v))) _ h in
      let (first, rest, pieces) = second_piece-eq-some _ (from_option-eq-ok _ _ found) in
      (first, middle, rest, pieces, is_minor)

  minor_of_complete : (v : String) (s : IsStable v) → minor_of v ≡ ok s.minor
  unfolding minor_of
  minor_of_complete v s = rw (s.pieces, s.is_minor) refl

  pub check_stable_sound : (m v : String) → check_stable m v ≡ ok tt → IsStable v
  unfolding check_stable
  check_stable_sound m v h =
      let (matched, h₁) = >>-eq-ok (require (fullmatch numeric_version v) _) _ h in
      let (minor, has_minor, h₂) = >>=-eq-ok (minor_of v) _ h₁ in
      let (first, middle, rest, pieces, is_minor) = minor_of_sound v has_minor in
      let not_odd : is_odd minor ≡ false = not-true _ (require-eq-ok _ _ h₂) in
      record {
        numeric = (fullmatch_iff numeric_version v).0 (require-eq-ok _ _ matched);
        first = first;
        middle = middle;
        rest = rest;
        pieces = pieces;
        minor = minor;
        is_minor = is_minor;
        even = ground (arith, not_odd);
      }

  pub check_stable_complete : (m v : String) → IsStable v → check_stable m v ≡ ok tt
  unfolding check_stable
  check_stable_complete m v s =
      let even : is_odd s.minor ≡ false = (let e = s.even in ground (arith, e)) in
      rw ((fullmatch_iff numeric_version v).1 s.numeric, minor_of_complete v s, even)

  -- A version passes the test for upstream's stable releases exactly when it consists of three
  -- runs of digits with dots between them and the second of the pieces between its dots is read as
  -- an even number.
  pub check_stable_iff : (m v : String) → (check_stable m v ≡ ok tt) ↔ IsStable v
  check_stable_iff m v = (check_stable_sound m v, check_stable_complete m v)

  -- A pin with a stable version and a build number, and nothing else.
  pub record IsIdentity (value : Json) : Type 0 where
    pub exact : has_fields pin_fields value ≡ true
    pub version : String
    pub at_version : At "version" value (str version)
    pub stable : IsStable version
    pub build : String
    pub at_build : At "build" value (str build)
    pub is_build : Lang build_number (codes build)

  check_pin_fields_sound :
      (value : Json) → check_pin_fields value ≡ ok tt → has_fields pin_fields value ≡ true
  unfolding check_pin_fields
  check_pin_fields_sound (obj fs) h = require-eq-ok _ _ h
  check_pin_fields_sound (arr vs) h = ground arith
  check_pin_fields_sound (str s) h = cc
  check_pin_fields_sound null h = cc
  check_pin_fields_sound (bool b) h = cc
  check_pin_fields_sound (int n) h = cc
  check_pin_fields_sound (float m k) h = cc

  check_pin_fields_complete :
      (value : Json) → has_fields pin_fields value ≡ true → check_pin_fields value ≡ ok tt
  unfolding check_pin_fields has_fields
  check_pin_fields_complete (obj fs) h = rw h refl
  check_pin_fields_complete (arr vs) h = cc
  check_pin_fields_complete (str s) h = cc
  check_pin_fields_complete null h = cc
  check_pin_fields_complete (bool b) h = cc
  check_pin_fields_complete (int n) h = cc
  check_pin_fields_complete (float m k) h = cc

  pub bundle_identity-eq-ok :
      (value : Json) {identity : Json}
      → bundle_identity value ≡ ok identity
      → IsIdentity value × (value ≡ identity)
  unfolding bundle_identity
  bundle_identity-eq-ok value h =
      let (exact, h₁) = >>-eq-ok (check_pin_fields value) _ h in
      let (v, at_v, h₂) = >>=-eq-ok (text_item "version" value) _ h₁ in
      let (stable, h₃) = >>-eq-ok (check_stable _ v) _ h₂ in
      let (b, at_b, h₄) = >>=-eq-ok (text_item "build" value) _ h₃ in
      let (matched, h₅) = >>-eq-ok (require (fullmatch build_number b) _) _ h₄ in
      let is : IsIdentity value = record {
        exact = check_pin_fields_sound value exact;
        version = v;
        at_version = text_item-eq-ok "version" value at_v;
        stable = check_stable_sound _ v stable;
        build = b;
        at_build = text_item-eq-ok "build" value at_b;
        is_build = (fullmatch_iff build_number b).0 (require-eq-ok _ _ matched);
      } in
      (is, ok-injective h₅)

  bundle_identity_complete : (value : Json) → IsIdentity value → bundle_identity value ≡ ok value
  unfolding bundle_identity
  bundle_identity_complete value i = rw (
    check_pin_fields_complete value i.exact,
    text_item-At "version" value i.at_version,
    check_stable_complete "invalid bundled core identity" i.version i.stable,
    text_item-At "build" value i.at_build,
    (fullmatch_iff build_number i.build).1 i.is_build,
  )

  -- Bundle_identity returns the pin exactly when that is a dict of a stable version and a build
  -- number and nothing else.
  pub bundle_identity_iff : (value : Json) → (bundle_identity value ≡ ok value) ↔ IsIdentity value
  bundle_identity_iff value =
      (λ h. (bundle_identity-eq-ok value h).0, bundle_identity_complete value)
