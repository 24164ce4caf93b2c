-- ===== src/Helper/Matching.antt =====
-- What `validate_helper_lock` accepts.
use tailscale_koolshare.Common.{String, true, [], ◌∷◌, ◌≡◌, ap, ◌∙◌, pos, subst}
use tailscale_koolshare.Common.Outcome.{
  Result, ok, ◌>>◌, require, for_each, >>=-eq-ok, >>-eq-ok, require-eq-ok, ok-injective,
}
use tailscale_koolshare.Python.Interpreter.{Interpreter}
use tailscale_koolshare.Python.Json.{Json, int, str, json_eq, item}
use tailscale_koolshare.Python.Json.Laws.{At, json_eq-str}
use tailscale_koolshare.Toolchain.Lock.{has_fields, validate_go_lock}
use tailscale_koolshare.Toolchain.Lock.Valid.{IsGoLock, validate_go_lock_sound}
use tailscale_koolshare.Toolchain.Resolve.{resolve_go}
use tailscale_koolshare.Toolchain.Resolve.Sound.{IsResolved, resolve_go-IsResolved}
use tailscale_koolshare.Helper.Lock.{
  Checkout, source_fingerprints, locked_catalog, check_fingerprint, fingerprint_entries,
  validate_helper_lock,
}

check_fingerprint_sound :
    (document : Json) (key value : String)
    → check_fingerprint document (key, value) ≡ ok tt
    → At key document (str value)
unfolding check_fingerprint
check_fingerprint_sound document key value h =
    let (found, at, h₁) = >>=-eq-ok (item key document) _ h in
    at ∙ ap ok (json_eq-str found value (require-eq-ok _ _ h₁))

fingerprints_sound :
    (root : Checkout) (document : Json)
    → for_each (check_fingerprint document) (fingerprint_entries (source_fingerprints root)) ≡ ok tt
    → At "go_mod_sha256" document (str (root.sha256 root.go_mod))
      × At "recipe_sha256" document (str (root.sha256 root.recipe))
unfolding source_fingerprints
fingerprints_sound root document h =
    let go_mod = root.sha256 root.go_mod in
    let recipe = root.sha256 root.recipe in
    let last : Result (Unit {0}) = check_fingerprint document ("recipe_sha256", recipe) >> ok tt in
    let (first, h₁) = >>-eq-ok (check_fingerprint document ("go_mod_sha256", go_mod)) last h in
    let (second, _) = >>-eq-ok (check_fingerprint document ("recipe_sha256", recipe)) (ok tt) h₁ in
    (
      check_fingerprint_sound document "go_mod_sha256" go_mod first,
      check_fingerprint_sound document "recipe_sha256" recipe second,
    )

module _ ⦃py : Interpreter⦄ where
  -- The document was made from the files of the checkout, and its lock is valid and is what the
  -- requirements of the checkout select from a catalog with the locked release alone.
  pub record IsHelperLock (root : Checkout) (document go : Json) : Type 0 where
    pub exact :
        has_fields ("schema" ∷ "go_mod_sha256" ∷ "recipe_sha256" ∷ "go" ∷ []) document ≡ true
    pub schema : Json
    pub at_schema : At "schema" document schema
    pub is_one : json_eq schema (int (pos 1)) ≡ true
    pub at_go : At "go" document go
    pub valid : IsGoLock go
    pub at_go_mod : At "go_mod_sha256" document (str (root.sha256 root.go_mod))
    pub at_recipe : At "recipe_sha256" document (str (root.sha256 root.recipe))
    pub catalog : Json
    pub is_catalog : locked_catalog go ≡ ok catalog
    pub selected : Json
    pub resolved : IsResolved (str root.go_mod_text) root.go_baseline catalog selected
    pub same : json_eq selected go ≡ true

  -- When validate_helper_lock returns a lock, the document has the right fields, schema 1 and the
  -- digests of the current go.mod and recipe, the lock is the valid lock that it holds, and it is
  -- equal to what resolve_go selects for this go.mod and baseline from a catalog with the locked
  -- release alone.
  pub validate_helper_lock-IsHelperLock :
      (root : Checkout) (document : Json) {go : Json}
      → validate_helper_lock root document ≡ ok go
      → IsHelperLock root document go
  unfolding validate_helper_lock
  validate_helper_lock-IsHelperLock root document {go} h =
      let (exact, h₁) = >>-eq-ok (require (has_fields _ document) _) _ h in
      let (schema, at_schema, h₂) = >>=-eq-ok (item "schema" document) _ h₁ in
      let (is_one, h₃) = >>-eq-ok (require _ _) _ h₂ in
      let (locked, at_go, h₄) = >>=-eq-ok (item "go" document) _ h₃ in
      let (_, valid, h₅) = >>=-eq-ok (validate_go_lock locked) _ h₄ in
      let (prints, h₆) =
        >>-eq-ok
          (for_each (check_fingerprint document) (fingerprint_entries (source_fingerprints root))) _
          h₅ in
      let (first, second) = fingerprints_sound root document prints in
      let (catalog, is_catalog, h₇) = >>=-eq-ok (locked_catalog locked) _ h₆ in
      let (selected, resolved, h₈) =
        >>=-eq-ok (resolve_go (str root.go_mod_text) root.go_baseline catalog) _ h₇ in
      let (same, h₉) = >>-eq-ok (require (json_eq selected locked) _) _ h₈ in
      subst (IsHelperLock root document) (ok-injective h₉) (record {
        exact = require-eq-ok _ _ exact;
        schema = schema;
        at_schema = at_schema;
        is_one = require-eq-ok _ _ is_one;
        at_go = at_go;
        valid = (validate_go_lock_sound locked valid).1;
        at_go_mod = first;
        at_recipe = second;
        catalog = catalog;
        is_catalog = is_catalog;
        selected = selected;
        resolved = resolve_go-IsResolved (str root.go_mod_text) root.go_baseline catalog resolved;
        same = require-eq-ok _ _ same;
      })
