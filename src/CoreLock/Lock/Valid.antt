-- ===== src/CoreLock/Lock/Valid.antt =====
-- What `validate_lock` accepts.
use tailscale_koolshare.Common.{
  pos, String, Bool, true, false, not, ◌||◌, ◌≡◌, ◌↔◌, ◌⊎◌, inl, inr, refl, ap, ◌∙◌, arith,
  or-eq-true, subst, sym,
}
use tailscale_koolshare.Common.Outcome.{
  ok, ok-injective, require, >>=-eq-ok, >>-eq-ok, require-eq-ok,
}
use tailscale_koolshare.Python.Interpreter.{Interpreter}
use tailscale_koolshare.Python.Regex.{times}
use tailscale_koolshare.Python.Json.{
  Json, null, bool, int, float, str, arr, obj, item, json_eq, is_null,
}
use tailscale_koolshare.Python.Json.Laws.{At, json_eq-str, json_eq-str_refl}
use tailscale_koolshare.Toolchain.Lock.{hex, has_fields, is_match, validate_go_lock}
use tailscale_koolshare.Toolchain.Lock.Valid.{
  IsGoLock, validate_go_lock_sound, validate_go_lock_complete,
}
use tailscale_koolshare.CoreLock.Identity.{build_number}
use tailscale_koolshare.CoreLock.Identity.Stable.{
  IsStable, check_stable_sound, check_stable_complete,
}
use tailscale_koolshare.CoreLock.Lock.{
  Recipe, lock_fields, is_int_one, check_version, check_source, validate_lock,
}
use tailscale_koolshare.CoreLock.Lock.Source.{
  IsText, is_match-IsText, IsText-is_match, IsSource, check_source_sound, check_source_complete,
}

is_int_one-eq : (v : Json) → is_int_one v ≡ true → v ≡ int (pos 1)
unfolding is_int_one
is_int_one-eq (int (pos n)) h = let e : n ≡ 1 = ground arith in ap (λ k. int (pos k)) e
is_int_one-eq v h = cc

or-right : (a b : Bool) → b ≡ true → (a || b) ≡ true
or-right a b h = ground arith

revision_sound :
    (v : Json)
    → (is_null v || is_match (times 40 hex) v) ≡ true
    → (is_null v ≡ true) ⊎ IsText (times 40 hex) v
revision_sound v h = elim (or-eq-true _ _ h) [
  | inl absent ↦ inl absent
  | inr commit ↦ inr (is_match-IsText _ v commit)
]

revision_complete :
    (v : Json)
    → (is_null v ≡ true) ⊎ IsText (times 40 hex) v
    → (is_null v || is_match (times 40 hex) v) ≡ true
revision_complete v (inl absent) = rw absent refl
revision_complete v (inr commit) =
    or-right (is_null v) (is_match (times 40 hex) v) (IsText-is_match _ v commit)

recipe_sound :
    (check_recipe : Bool) (digest : Json) (hash : String)
    → (not check_recipe || json_eq digest (str hash)) ≡ true
    → (check_recipe ≡ false) ⊎ (digest ≡ str hash)
recipe_sound false digest hash h = inl refl
recipe_sound true digest hash h = inr (json_eq-str digest hash h)

recipe_complete :
    (check_recipe : Bool) (digest : Json) (hash : String)
    → (check_recipe ≡ false) ⊎ (digest ≡ str hash)
    → (not check_recipe || json_eq digest (str hash)) ≡ true
recipe_complete check_recipe digest hash (inl unchecked) = rw unchecked refl
recipe_complete check_recipe digest hash (inr same) =
    let equal : json_eq digest (str hash) ≡ true = rw same (json_eq-str_refl hash) in ground arith

module _ ⦃py : Interpreter⦄ where
  -- The lock of a stable upstream version, whose toolchain is a valid lock of its own.
  pub record IsCoreLock (recipe : Recipe) (check_recipe : Bool) (lock : Json) : Type 0 where
    pub exact : has_fields lock_fields lock ≡ true
    pub at_schema : At "schema" lock (int (pos 1))
    pub version : String
    pub at_version : At "version" lock (str version)
    pub stable : IsStable version
    pub build : Json
    pub at_build : At "build" lock build
    pub is_build : IsText build_number build
    pub source : Json
    pub at_source : At "source" lock source
    pub is_source : IsSource source
    pub digest : Json
    pub at_digest : At "recipe_source_sha256" lock digest
    pub is_digest : IsText (times 64 hex) digest
    pub revision : Json
    pub at_revision : At "upstream_toolchain_rev" lock revision
    pub is_revision : (is_null revision ≡ true) ⊎ IsText (times 40 hex) revision
    pub go : Json
    pub at_go : At "go" lock go
    pub is_go : IsGoLock go
    pub policy : json_eq recipe.go_policy (str "upstream-stable-official") ≡ true
    pub same_recipe : (check_recipe ≡ false) ⊎ (digest ≡ str recipe.hash)

  check_version_sound :
      (v : Json) → check_version v ≡ ok tt → (s : String) × (v ≡ str s) × IsStable s
  unfolding check_version
  check_version_sound (str s) h = (s, refl, check_stable_sound _ s h)
  check_version_sound null h = cc
  check_version_sound (bool b) h = cc
  check_version_sound (int n) h = cc
  check_version_sound (float m k) h = cc
  check_version_sound (arr vs) h = cc
  check_version_sound (obj fs) h = cc

  pub validate_lock_sound :
      (recipe : Recipe) (check_recipe : Bool) (lock : Json) {r : Json}
      → validate_lock recipe check_recipe lock ≡ ok r
      → IsCoreLock recipe check_recipe lock
  unfolding validate_lock
  validate_lock_sound recipe check_recipe lock h =
      let (exact, h₁) = >>-eq-ok (require _ _) _ h in
      let (schema, at_schema, h₂) = >>=-eq-ok (item "schema" lock) _ h₁ in
      let (one, h₃) = >>-eq-ok (require _ _) _ h₂ in
      let (version, at_version, h₄) = >>=-eq-ok (item "version" lock) _ h₃ in
      let (stable, h₅) = >>-eq-ok (check_version version) _ h₄ in
      let (build, at_build, h₆) = >>=-eq-ok (item "build" lock) _ h₅ in
      let (build_match, h₇) = >>-eq-ok (require _ _) _ h₆ in
      let (source, at_source, h₈) = >>=-eq-ok (item "source" lock) _ h₇ in
      let (digest, at_digest, h₉) = >>=-eq-ok (item "recipe_source_sha256" lock) _ h₈ in
      let (sourced, h₁₀) = >>-eq-ok (check_source source digest) _ h₉ in
      let (revision, at_revision, h₁₁) = >>=-eq-ok (item "upstream_toolchain_rev" lock) _ h₁₀ in
      let (revised, h₁₂) = >>-eq-ok (require _ _) _ h₁₁ in
      let (go, at_go, h₁₃) = >>=-eq-ok (item "go" lock) _ h₁₂ in
      let (_, go_valid, h₁₄) = >>=-eq-ok (validate_go_lock go) _ h₁₃ in
      let (policy, h₁₅) = >>-eq-ok (require _ _) _ h₁₄ in
      let (same, _) = >>-eq-ok (require _ _) _ h₁₅ in
      let (v, v_text, v_stable) = check_version_sound version stable in
      let (is_source, is_digest) = check_source_sound source digest sourced in
      record {
        exact = require-eq-ok _ _ exact;
        at_schema = at_schema ∙ ap ok (is_int_one-eq schema (require-eq-ok _ _ one));
        version = v;
        at_version = at_version ∙ ap ok v_text;
        stable = v_stable;
        build = build;
        at_build = at_build;
        is_build = is_match-IsText _ build (require-eq-ok _ _ build_match);
        source = source;
        at_source = at_source;
        is_source = is_source;
        digest = digest;
        at_digest = at_digest;
        is_digest = is_digest;
        revision = revision;
        at_revision = at_revision;
        is_revision = revision_sound revision (require-eq-ok _ _ revised);
        go = go;
        at_go = at_go;
        is_go = (validate_go_lock_sound go go_valid).1;
        policy = require-eq-ok _ _ policy;
        same_recipe = recipe_sound check_recipe digest recipe.hash (require-eq-ok _ _ same);
      }

  validate_lock_complete :
      (recipe : Recipe) (check_recipe : Bool) (lock : Json)
      → IsCoreLock recipe check_recipe lock
      → validate_lock recipe check_recipe lock ≡ ok lock
  unfolding validate_lock is_int_one check_version
  validate_lock_complete recipe check_recipe lock l = rw (
    l.exact,
    l.at_schema,
    l.at_version,
    check_stable_complete "lock must identify a stable core version" l.version l.stable,
    l.at_build,
    IsText-is_match _ l.build l.is_build,
    l.at_source,
    l.at_digest,
    check_source_complete l.source l.digest l.is_source l.is_digest,
    l.at_revision,
    revision_complete l.revision l.is_revision,
    l.at_go,
    validate_go_lock_complete l.go l.is_go,
    l.policy,
    recipe_complete check_recipe l.digest recipe.hash l.same_recipe,
  )

  pub validate_lock-eq-ok :
      (recipe : Recipe) (check_recipe : Bool) (lock : Json) {r : Json}
      → validate_lock recipe check_recipe lock ≡ ok r
      → lock ≡ r
  validate_lock-eq-ok recipe check_recipe lock h =
      let valid = validate_lock_sound recipe check_recipe lock h in
      ok-injective (sym (validate_lock_complete recipe check_recipe lock valid) ∙ h)

  pub validate_lock-IsCoreLock :
      (recipe : Recipe) (check_recipe : Bool) (lock : Json) {r : Json}
      → validate_lock recipe check_recipe lock ≡ ok r
      → IsCoreLock recipe check_recipe r
  validate_lock-IsCoreLock recipe check_recipe lock h =
      subst (IsCoreLock recipe check_recipe) (validate_lock-eq-ok recipe check_recipe lock h)
        (validate_lock_sound recipe check_recipe lock h)

  -- Validate_lock returns its argument exactly when that has the seven fields, schema 1, a stable
  -- version, a build number, a source with a commit, its archive URL and a digest, a valid
  -- toolchain lock and an upstream revision or none, the recipe has the official policy, and,
  -- where it is asked, the digest of the recipe is the current one.
  pub validate_lock_iff :
      (recipe : Recipe) (check_recipe : Bool) (lock : Json)
      → (validate_lock recipe check_recipe lock ≡ ok lock) ↔ IsCoreLock recipe check_recipe lock
  validate_lock_iff recipe check_recipe lock = (
    validate_lock_sound recipe check_recipe lock,
    validate_lock_complete recipe check_recipe lock,
  )
