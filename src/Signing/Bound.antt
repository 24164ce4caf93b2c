-- ===== src/Signing/Bound.antt =====
-- What `validate_metadata` accepts.
use tailscale_koolshare.Common.{
  String, Bool, true, false, ◌||◌, List, [], ◌∷◌, ◌≡◌, ◌⊎◌, inl, inr, All, not-true, subst, sym,
}
use tailscale_koolshare.Common.Outcome.{
  Result, ok, require, for_each, >>=-eq-ok, >>-eq-ok, require-eq-ok, ok-injective,
}
use tailscale_koolshare.Python.Interpreter.{Interpreter}
use tailscale_koolshare.Python.Text.{◌<>◌}
use tailscale_koolshare.Python.Json.{Json, str, json_eq, item, get, is_obj}
use tailscale_koolshare.Python.Json.Laws.{At}
use tailscale_koolshare.CoreLock.Lock.{Recipe, validate_lock}
use tailscale_koolshare.CoreLock.Lock.Valid.{IsCoreLock, validate_lock_sound}
use tailscale_koolshare.Signing.Metadata.{
  Library, lock_hash, schema_of, is_int, has_key, check_entry, expected_entries, check_recipe_entry,
  check_locked, check_schema, validate_metadata,
}

-- `metadata.get(key)` is equal to the value.
pub record HasEntry (metadata : Json) (entry : String × Json) : Type 0 where
  pub found : Json
  pub got : get entry.0 metadata ≡ ok found
  pub same : json_eq found entry.1 ≡ true

-- `metadata.get(key)` is equal to `other[key]`.
pub record Agrees (metadata other : Json) (key : String) : Type 0 where
  pub found : Json
  pub value : Json
  pub got : get key metadata ≡ ok found
  pub has_value : item key other ≡ ok value
  pub same : json_eq found value ≡ true

pub for_each-All :
    {A : Type 0} {P : A → Type 0} (f : A → Result (Unit {0}))
    → ((a : A) → f a ≡ ok tt → P a)
    → (as' : List A) → for_each f as' ≡ ok tt
    → All P as'
for_each-All f on [] h = tt
for_each-All f on (a ∷ rest) h =
    let (here, later) = >>-eq-ok (f a) _ h in (on a here, for_each-All f on rest later)

check_entry_sound :
    (metadata : Json) (entry : String × Json)
    → check_entry metadata entry ≡ ok tt
    → HasEntry metadata entry
unfolding check_entry
check_entry_sound metadata (key, value) h =
    let (found, got, h₁) = >>=-eq-ok (get key metadata) _ h in
    record { found = found; got = got; same = require-eq-ok _ _ h₁ }

check_recipe_entry_sound :
    (metadata recipe : Json) (key : String)
    → check_recipe_entry metadata recipe key ≡ ok tt
    → Agrees metadata recipe key
unfolding check_recipe_entry
check_recipe_entry_sound metadata recipe key h =
    let (found, got, h₁) = >>=-eq-ok (get key metadata) _ h in
    let (value, has_value, h₂) = >>=-eq-ok (item key recipe) _ h₁ in
    record {
      found = found;
      value = value;
      got = got;
      has_value = has_value;
      same = require-eq-ok _ _ h₂;
    }

-- The seven entries of the metadata that a lock determines.
pub record IsBound (lib : Library) (metadata lock : Json) : Type 0 where
  pub version : Json
  pub in_version : At "version" lock version
  pub build : Json
  pub in_build : At "build" lock build
  pub source : Json
  pub in_source : At "source" lock source
  pub commit : Json
  pub in_commit : At "commit" source commit
  pub sha256 : Json
  pub in_sha256 : At "sha256" source sha256
  pub go : Json
  pub in_go : At "go" lock go
  pub go_version : Json
  pub in_go_version : At "version" go go_version
  pub recipe : Json
  pub in_recipe : At "recipe_source_sha256" lock recipe
  pub has_version : HasEntry metadata ("version", version)
  pub has_build : HasEntry metadata ("build", build)
  pub has_commit : HasEntry metadata ("source_commit", commit)
  pub has_sha256 : HasEntry metadata ("source_sha256", sha256)
  pub has_go : HasEntry metadata ("go_version", go_version)
  pub has_source : HasEntry metadata ("recipe_source_sha256", recipe)
  pub has_recipe :
      HasEntry metadata
        ("recipe_sha256", str (lib.text_sha256 ("tailscale-core-lock-v1\0" <> lib.dumps lock)))

expected_entries-IsBound :
    (lib : Library) (metadata lock : Json) {entries : List (String × Json)}
    → expected_entries lib lock ≡ ok entries
    → All (HasEntry metadata) entries
    → IsBound lib metadata lock
unfolding expected_entries lock_hash
expected_entries-IsBound lib metadata lock h all =
    let (version, in_version, h₁) = >>=-eq-ok (item "version" lock) _ h in
    let (build, in_build, h₂) = >>=-eq-ok (item "build" lock) _ h₁ in
    let (source, in_source, h₃) = >>=-eq-ok (item "source" lock) _ h₂ in
    let (commit, in_commit, h₄) = >>=-eq-ok (item "commit" source) _ h₃ in
    let (sha256, in_sha256, h₅) = >>=-eq-ok (item "sha256" source) _ h₄ in
    let (go, in_go, h₆) = >>=-eq-ok (item "go" lock) _ h₅ in
    let (go_version, in_go_version, h₇) = >>=-eq-ok (item "version" go) _ h₆ in
    let (recipe, in_recipe, h₈) = >>=-eq-ok (item "recipe_source_sha256" lock) _ h₇ in
    let (v, (b, (c, (s, (g, (r, (l, _))))))) =
      subst (All (HasEntry metadata)) (sym (ok-injective h₈)) all in
    record {
      version = version;
      in_version = in_version;
      build = build;
      in_build = in_build;
      source = source;
      in_source = in_source;
      commit = commit;
      in_commit = in_commit;
      sha256 = sha256;
      in_sha256 = in_sha256;
      go = go;
      in_go = in_go;
      go_version = go_version;
      in_go_version = in_go_version;
      recipe = recipe;
      in_recipe = in_recipe;
      has_version = v;
      has_build = b;
      has_commit = c;
      has_sha256 = s;
      has_go = g;
      has_source = r;
      has_recipe = l;
    }

module _ ⦃py : Interpreter⦄ (lib : Library) (recipe : Recipe) (core_recipe : Json) where
  -- The metadata hold a lock of the current recipe, and say of the build what the lock says; the
  -- digest of the recipe that is to be signed is that of the lock.
  pub record IsLocked (metadata : Json) : Type 0 where
    pub lock : Json
    pub has_lock : get "dependency_lock" metadata ≡ ok lock
    pub valid : IsCoreLock recipe true lock
    pub bound : IsBound lib metadata lock
    pub same_upx : Agrees metadata core_recipe "upx_version"
    pub same_tags : Agrees metadata core_recipe "tags"

  check_locked_sound :
      (metadata : Json) → check_locked lib recipe core_recipe metadata ≡ ok tt → IsLocked metadata
  unfolding check_locked
  check_locked_sound metadata h =
      let (lock, has_lock, h₁) = >>=-eq-ok (get "dependency_lock" metadata) _ h in
      let (_, h₂) = >>-eq-ok (require (is_obj lock) _) _ h₁ in
      let (lock', valid, h₃) = >>=-eq-ok (validate_lock recipe true lock) _ h₂ in
      let (entries, expected, h₄) = >>=-eq-ok (expected_entries lib lock) _ h₃ in
      let (bound, h₅) = >>-eq-ok (for_each (check_entry metadata) entries) _ h₄ in
      let (same_upx, (same_tags, _)) =
        for_each-All (check_recipe_entry metadata core_recipe)
          (check_recipe_entry_sound metadata core_recipe) ("upx_version" ∷ "tags" ∷ []) h₅ in
      record {
        lock = lock;
        has_lock = has_lock;
        valid = validate_lock_sound recipe true lock valid;
        bound =
            expected_entries-IsBound lib metadata lock expected
              (for_each-All (check_entry metadata) (check_entry_sound metadata) entries bound);
        same_upx = same_upx;
        same_tags = same_tags;
      }

  check_schema_sound :
      (old : Bool) (metadata : Json)
      → check_schema lib recipe core_recipe old metadata ≡ ok tt
      → (has_key "dependency_lock" metadata ≡ false) ⊎ IsLocked metadata
  unfolding check_schema
  check_schema_sound true metadata h = inl (not-true _ (require-eq-ok _ _ h))
  check_schema_sound false metadata h = inr (check_locked_sound metadata h)

  -- Metadata that validate_metadata accepts have no dependency lock, or hold a valid lock of the
  -- current recipe and equal it in version, build, commit, source digest, Go version and digest of
  -- the recipe source, have the digest of the lock as recipe_sha256, and equal the recipe in
  -- upx_version and tags.
  pub validate_metadata-IsLocked :
      (metadata : Json)
      → validate_metadata lib recipe core_recipe metadata ≡ ok tt
      → (has_key "dependency_lock" metadata ≡ false) ⊎ IsLocked metadata
  unfolding validate_metadata
  validate_metadata-IsLocked metadata h =
      let (schema, _, h₁) = >>=-eq-ok (schema_of metadata) _ h in
      let (_, h₂) = >>-eq-ok (require (is_int 1 schema || is_int 2 schema) _) _ h₁ in
      check_schema_sound (is_int 1 schema) metadata h₂
