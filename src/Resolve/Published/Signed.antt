-- ===== src/Resolve/Published/Signed.antt =====
-- How the lock of a published release is bound to its signed manifest.
use tailscale_koolshare.Common.{
  String, Bool, true, List, [], ◌∷◌, Option, none, some, ◌≡◌, ap, ◌∙◌, and_four, ◌&&◌, subst,
}
use tailscale_koolshare.Common.Outcome.{
  Result, ok, require, for_each, >>=-eq-ok, >>-eq-ok, require-eq-ok, ok-injective,
}
use tailscale_koolshare.Python.Interpreter.{Interpreter}
use tailscale_koolshare.Python.Json.{Json, str, json_eq, item, get}
use tailscale_koolshare.Python.Json.Laws.{At, json_eq-str}
use tailscale_koolshare.Publish.Action.{Event, Bytes, World, lift}
use tailscale_koolshare.Publish.Action.Laws.{bind-eq-ok}
use tailscale_koolshare.Publish.Descriptor.{Descriptors, verify_manifest}
use tailscale_koolshare.Publish.Release.{is_draft}
use tailscale_koolshare.Publish.Remote.{release_by_tag}
use tailscale_koolshare.Signing.Metadata.{Library, lock_hash, has_key}
use tailscale_koolshare.CoreLock.Lock.{Recipe, validate_lock}
use tailscale_koolshare.CoreLock.Lock.Valid.{IsCoreLock, validate_lock-IsCoreLock}
use tailscale_koolshare.Resolve.Check.{is_two, commit_in, check_descriptor, metadata_lock}
use tailscale_koolshare.Resolve.Published.{
  core_tag, published_files, release_lock, lock_if, published_lock,
}

-- A descriptor that names the version, the build, the commit and the digest of a lock.
pub record Names (lib : Library) (version build : String) (lock descriptor : Json) : Type 0 where
  pub commit : Json
  pub its_commit : Json
  pub at_version : At "version" descriptor (str version)
  pub at_build : At "build" descriptor (str build)
  pub at_commit : At "source_commit" descriptor its_commit
  pub in_lock : commit_in lock ≡ ok commit
  pub same_commit : json_eq its_commit commit ≡ true
  pub at_recipe : At "recipe_sha256" descriptor (str (lock_hash lib lock))

check_descriptor_sound :
    (lib : Library) (version build : String) (lock descriptor : Json)
    → check_descriptor lib version build lock descriptor ≡ ok tt
    → Names lib version build lock descriptor
unfolding check_descriptor
check_descriptor_sound lib version build lock descriptor h =
    let (v, at_version, h₁) = >>=-eq-ok (item "version" descriptor) _ h in
    let (b, at_build, h₂) = >>=-eq-ok (item "build" descriptor) _ h₁ in
    let (k, at_commit, h₃) = >>=-eq-ok (item "source_commit" descriptor) _ h₂ in
    let (r, at_recipe, h₄) = >>=-eq-ok (item "recipe_sha256" descriptor) _ h₃ in
    let (commit, in_lock, h₅) = >>=-eq-ok (commit_in lock) _ h₄ in
    let (is_version, is_build, is_commit, is_recipe) =
      and_four (json_eq v (str version)) (json_eq b (str build)) (json_eq k commit)
        (json_eq r (str (lock_hash lib lock))) (require-eq-ok _ _ h₅) in
    record {
      commit = commit;
      its_commit = k;
      at_version = at_version ∙ ap ok (json_eq-str v version is_version);
      at_build = at_build ∙ ap ok (json_eq-str b build is_build);
      at_commit = at_commit;
      in_lock = in_lock;
      same_commit = is_commit;
      at_recipe = at_recipe ∙ ap ok (json_eq-str r (lock_hash lib lock) is_recipe);
    }

pub some_lock :
    {a b : Json} {h h' : List Event}
    → ◌≡◌ {A = Result (Option Json) × List Event} (ok (some a), h) (ok (some b), h')
    → a ≡ b
some_lock h = cc (ap (λ p. p.0) h)

pub none-some :
    {b : Json} {h h' : List Event}
    → ◌≡◌ {A = Result (Option Json) × List Event} (ok none, h) (ok (some b), h')
    → ⊥
none-some h = cc (ap (λ p. p.0) h)

-- A valid lock of the current recipe, which a manifest that is signed for both architectures names.
pub record IsSigned (w : World) (lib : Library) (recipe : Recipe) ⦃py : Interpreter⦄
    (version build : String) (lock : Json) : Type 0 where
  pub manifest : Bytes
  pub descriptors : Descriptors
  pub valid : IsCoreLock recipe true lock
  pub verified : verify_manifest w manifest ≡ ok descriptors
  pub arm : Names lib version build lock descriptors.arm
  pub arm64 : Names lib version build lock descriptors.arm64

module _ (w : World) (lib : Library) (recipe : Recipe) (loads : Bytes → Result Json) (helper : Bool)
    ⦃py : Interpreter⦄ where
  metadata_lock_sound :
      (version build : String) (metadata : Json) (ds : Descriptors) (manifest : Bytes) {lock : Json}
      → verify_manifest w manifest ≡ ok ds
      → metadata_lock lib version build recipe metadata ds ≡ ok lock
      → IsSigned w lib recipe version build lock
  unfolding metadata_lock
  metadata_lock_sound version build metadata ds manifest {lock = lock} verified h =
      let (schema, _, h₁) = >>=-eq-ok (get "schema" metadata) _ h in
      let (_, h₂) =
        >>-eq-ok (require (is_two schema && has_key "dependency_lock" metadata) _) _ h₁ in
      let (given, _, h₃) = >>=-eq-ok (item "dependency_lock" metadata) _ h₂ in
      let (lock', valid, h₄) = >>=-eq-ok (validate_lock recipe true given) _ h₃ in
      let (checked, h₅) =
        >>-eq-ok (for_each (check_descriptor lib version build lock') (ds.arm ∷ ds.arm64 ∷ [])) _
          h₄ in
      let (arm, rest) = >>-eq-ok (check_descriptor lib version build lock' ds.arm) _ checked in
      let (arm64, _) = >>-eq-ok (check_descriptor lib version build lock' ds.arm64) _ rest in
      subst (IsSigned w lib recipe version build) (ok-injective h₅) (record {
        manifest = manifest;
        descriptors = ds;
        valid = validate_lock-IsCoreLock recipe true given valid;
        verified = verified;
        arm = check_descriptor_sound lib version build lock' ds.arm arm;
        arm64 = check_descriptor_sound lib version build lock' ds.arm64 arm64;
      })

  release_lock-IsSigned :
      (version build : String) (release : Json) (h : List Event) {lock : Json} {h' : List Event}
      → release_lock w lib recipe loads helper version build release h ≡ (ok lock, h')
      → IsSigned w lib recipe version build lock
  unfolding release_lock
  release_lock-IsSigned version build release h returned =
      let (_, _, h₁) = bind-eq-ok (lift (require helper _)) _ h returned in
      let (draft, _, h₂) = bind-eq-ok (lift (is_draft release)) _ _ h₁ in
      let (files, _, h₃) =
        bind-eq-ok (published_files w lib recipe loads helper draft (core_tag version build)) _ _
          h₂ in
      let (ds, verified, h₄) = bind-eq-ok (lift (verify_manifest w files.0)) _ _ h₃ in
      metadata_lock_sound version build files.1 ds files.0 (ap (λ p. p.0) verified)
        (ap (λ p. p.0) h₄)

  lock_if-IsSigned :
      (version build : String) (release : Option Json) (h : List Event) {lock : Json}
      {h' : List Event}
      → lock_if w lib recipe loads helper version build release h ≡ (ok (some lock), h')
      → IsSigned w lib recipe version build lock
  unfolding lock_if
  lock_if-IsSigned version build none h returned = absurd (none-some returned)
  lock_if-IsSigned version build (some release) h {lock = lock} returned =
      let (lock', signed, h₁) =
        bind-eq-ok (release_lock w lib recipe loads helper version build release) _ h returned in
      let same = some_lock h₁ in
      subst (IsSigned w lib recipe version build) same
        (release_lock-IsSigned version build release h signed)

  -- When published_lock returns a lock, there is a verifier's manifest, signed for both
  -- architectures, whose two descriptors name the version, the build, the commit of the lock and
  -- the digest of the lock itself, and the lock is a valid lock of the current recipe.
  pub published_lock-IsSigned :
      (version build : String) (h h' : List Event) (lock : Json)
      → published_lock w lib recipe loads helper version build h ≡ (ok (some lock), h')
      → IsSigned w lib recipe version build lock
  unfolding published_lock
  published_lock-IsSigned version build h h' lock returned =
      let (release, _, h₁) = bind-eq-ok (release_by_tag w (core_tag version build)) _ h returned in
      lock_if-IsSigned version build release _ h₁
