-- ===== src/Toolchain/Lock/Valid.antt =====
-- What a toolchain lock that passes the validation holds, independently of the validating code.
use tailscale_koolshare.Common.{
  String, Bool, true, false, not, List, [], ◌∷◌, eq_iff, ◌≡◌, ◌⊎◌, inl, inr, keep, All, refl, ap,
  ◌∙◌, sym, not-true, ◌↔◌,
}
use text.Mathlib.TextPositions.{eq_refl}
use tailscale_koolshare.Common.Outcome.{
  Result, ok, require, traverse, for_each, >>=-eq-ok, >>-eq-ok, require-eq-ok,
}
use tailscale_koolshare.Python.Interpreter.{Interpreter}
use tailscale_koolshare.Python.Json.{
  Json, null, bool, int, float, str, arr, obj, json_eq, item, as_str, is_null,
}
use tailscale_koolshare.Python.Json.Laws.{At, str-json_eq, json_eq-str_refl}
use tailscale_koolshare.Toolchain.Lock.Archive.{
  IsArchive, check_archive_sound, check_archive_complete,
}
use tailscale_koolshare.Toolchain.Version.{version, max_by_key}
use tailscale_koolshare.Toolchain.Lock.{
  arches, has_fields, values_of, check_archive, check_requirement, check_greatest, validate_go_lock,
}

module _ ⦃py : Interpreter⦄ where
  -- A requirement is `None`, or a text that is a canonical version.
  abbrev pub IsRequirement : Json → Type 0
  IsRequirement r = (r ≡ null) ⊎ ((s : String) × (r ≡ str s) × (version (str s) false ≡ ok s))

  -- The version is canonical and the greatest of the requirements, of which `go` is one; and the
  -- archives are those of the two Linux hosts.
  pub record IsGoLock (lock : Json) : Type 0 where
    pub exact : has_fields ("version" ∷ "requirements" ∷ "archives" ∷ []) lock ≡ true
    pub chosen : String
    pub at_version : At "version" lock (str chosen)
    pub canonical : version (str chosen) false ≡ ok chosen
    pub required : Json
    pub at_requirements : At "requirements" lock required
    pub required_exact : has_fields ("go" ∷ "toolchain" ∷ "upstream" ∷ []) required ≡ true
    pub minimum : Json
    pub at_go : At "go" required minimum
    pub has_minimum : is_null minimum ≡ false
    pub each : All IsRequirement (values_of required)
    pub names : List String
    pub named : traverse as_str (keep (λ r. not (is_null r)) (values_of required)) ≡ ok names
    pub greatest : max_by_key names ≡ ok chosen
    pub archives : Json
    pub at_archives : At "archives" lock archives
    pub archives_exact : has_fields arches archives ≡ true
    pub amd64 : IsArchive chosen archives "amd64"
    pub arm64 : IsArchive chosen archives "arm64"

  version_text :
      (v : Json) (l : Bool) {w : String} → version v l ≡ ok w → (s : String) × (v ≡ str s)
  unfolding version
  version_text (str s) l h = (s, refl)
  version_text null l h = cc
  version_text (bool b) l h = cc
  version_text (int n) l h = cc
  version_text (float m k) l h = cc
  version_text (arr vs) l h = cc
  version_text (obj fs) l h = cc

  canonical_sound :
      (v : Json) {w : String}
      → version v false ≡ ok w
      → json_eq (str w) v ≡ true
      → (v ≡ str w) × (version (str w) false ≡ ok w)
  canonical_sound v {w} h e = let same = str-json_eq v w e in (same, rw same at h)

  check_requirement_sound : (r : Json) → check_requirement r ≡ ok tt → IsRequirement r
  unfolding check_requirement
  check_requirement_sound null h = inl refl
  check_requirement_sound (str s) h =
      let (w, versioned, same) = >>=-eq-ok (version (str s) false) _ h in
      let (is_text, canonical) = canonical_sound (str s) versioned (require-eq-ok _ _ same) in
      inr (w, is_text, canonical)
  check_requirement_sound r h =
      let (w, versioned, same) = >>=-eq-ok (version _ false) _ h in
      let (s, is_text) = version_text _ false versioned in cc

  check_requirement_complete : (r : Json) → IsRequirement r → check_requirement r ≡ ok tt
  unfolding check_requirement
  check_requirement_complete r (inl e) = rw e
  check_requirement_complete r (inr (s, e, canonical)) = rw (e, canonical, json_eq-str_refl s)

  for_each_sound :
      {P : Json → Type 0} (f : Json → Result (Unit {0}))
      → ((r : Json) → f r ≡ ok tt → P r)
      → (rs : List Json) → for_each f rs ≡ ok tt
      → All P rs
  for_each_sound f on [] h = tt
  for_each_sound f on (r ∷ rs) h =
      let (here, later) = >>-eq-ok (f r) _ h in (on r here, for_each_sound f on rs later)

  for_each_complete :
      {P : Json → Type 0} (f : Json → Result (Unit {0}))
      → ((r : Json) → P r → f r ≡ ok tt)
      → (rs : List Json) → All P rs
      → for_each f rs ≡ ok tt
  for_each_complete f on [] h = refl
  for_each_complete f on (r ∷ rs) (here, later) = rw (on r here) (for_each_complete f on rs later)

  check_greatest_sound :
      (v : String) (rs : List Json)
      → check_greatest v rs ≡ ok tt
      → (names : List String) × (traverse as_str (keep (λ r. not (is_null r)) rs) ≡ ok names)
        × (max_by_key names ≡ ok v)
  unfolding check_greatest
  check_greatest_sound v rs h =
      let (names, named, h₁) = >>=-eq-ok (traverse as_str _) _ h in
      let (m, greatest, same) = >>=-eq-ok (max_by_key names) _ h₁ in
      (names, named, greatest ∙ ap ok (sym ((eq_iff v m).0 (require-eq-ok _ _ same))))

  pub validate_go_lock_sound :
      (lock : Json) {r : Json} → validate_go_lock lock ≡ ok r → (r ≡ lock) × IsGoLock lock
  unfolding validate_go_lock
  validate_go_lock_sound lock {r} h =
      let (exact, h₁) = >>-eq-ok (require _ _) _ h in
      let (given, at_given, h₂) = >>=-eq-ok (item "version" lock) _ h₁ in
      let (v, versioned, h₃) = >>=-eq-ok (version given false) _ h₂ in
      let (same, h₄) = >>-eq-ok (require _ _) _ h₃ in
      let (required, at_required, h₅) = >>=-eq-ok (item "requirements" lock) _ h₄ in
      let (required_exact, h₆) = >>-eq-ok (require _ _) _ h₅ in
      let (minimum, at_go, h₇) = >>=-eq-ok (item "go" required) _ h₆ in
      let (not_null, h₈) = >>-eq-ok (require _ _) _ h₇ in
      let (each, h₉) = >>-eq-ok (for_each check_requirement _) _ h₈ in
      let (greatest, h₁₀) = >>-eq-ok (check_greatest v _) _ h₉ in
      let (archives, at_archives, h₁₁) = >>=-eq-ok (item "archives" lock) _ h₁₀ in
      let (archives_exact, h₁₂) = >>-eq-ok (require _ _) _ h₁₁ in
      let (checked, h₁₃) = >>-eq-ok (for_each (check_archive v archives) arches) _ h₁₂ in
      let (first, second) = >>-eq-ok (check_archive v archives "amd64") _ checked in
      let (second', _) = >>-eq-ok (check_archive v archives "arm64") _ second in
      let (is_text, canonical) = canonical_sound given versioned (require-eq-ok _ _ same) in
      let (names, named, is_max) = check_greatest_sound v _ greatest in
      (
        cc,
        record {
          exact = require-eq-ok _ _ exact;
          chosen = v;
          at_version = at_given ∙ ap ok is_text;
          canonical = canonical;
          required = required;
          at_requirements = at_required;
          required_exact = require-eq-ok _ _ required_exact;
          minimum = minimum;
          at_go = at_go;
          has_minimum = not-true (is_null minimum) (require-eq-ok _ _ not_null);
          each = for_each_sound check_requirement check_requirement_sound (values_of required) each;
          names = names;
          named = named;
          greatest = is_max;
          archives = archives;
          at_archives = at_archives;
          archives_exact = require-eq-ok _ _ archives_exact;
          amd64 = check_archive_sound v archives "amd64" first;
          arm64 = check_archive_sound v archives "arm64" second';
        },
      )

  pub validate_go_lock_complete : (lock : Json) → IsGoLock lock → validate_go_lock lock ≡ ok lock
  unfolding validate_go_lock check_greatest
  validate_go_lock_complete lock g = rw (
    g.exact,
    g.at_version,
    g.canonical,
    json_eq-str_refl g.chosen,
    g.at_requirements,
    g.required_exact,
    g.at_go,
    g.has_minimum,
    for_each_complete check_requirement check_requirement_complete (values_of g.required) g.each,
    g.named,
    g.greatest,
    eq_refl g.chosen,
    g.at_archives,
    g.archives_exact,
    check_archive_complete g.chosen g.archives "amd64" g.amd64,
    check_archive_complete g.chosen g.archives "arm64" g.arm64,
  )

  -- Validate_go_lock returns its argument exactly when that is a lock with the right fields at
  -- each level, a canonical version that is the greatest of its canonical requirements, and for
  -- both architectures the official name and URL, a SHA-256 and a positive size.
  pub validate_go_lock_iff : (lock : Json) → (validate_go_lock lock ≡ ok lock) ↔ IsGoLock lock
  validate_go_lock_iff lock =
      (λ h. (validate_go_lock_sound lock h).1, validate_go_lock_complete lock)
