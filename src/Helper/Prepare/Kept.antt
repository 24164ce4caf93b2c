-- ===== src/Helper/Prepare/Kept.antt =====
-- The file of the helper's lock after a run, and another run.
use tailscale_koolshare.Common.{
  String, Bool, true, false, none, some, ◌≡◌, refl, ap, ◌∙◌, sym, and-intro,
}
use tailscale_koolshare.Common.Outcome.{
  Result, ok, raise, ok-injective, from_option-eq-ok, key_error,
}
use tailscale_koolshare.Common.State.{bind-eq-ok, lift-eq-ok, lift}
use tailscale_koolshare.Python.Interpreter.{Interpreter}
use tailscale_koolshare.Python.Json.{Json, null, bool, int, float, str, arr, obj, lookup, item}
use tailscale_koolshare.Python.Json.Laws.{At, json_eq-str_refl}
use tailscale_koolshare.Toolchain.Resolve.{resolve_go}
use tailscale_koolshare.Helper.Lock.{Checkout, source_fingerprints, validate_helper_lock}
use tailscale_koolshare.Helper.Matching.{IsHelperLock, validate_helper_lock-IsHelperLock}
use tailscale_koolshare.Helper.Prepare.{
  LockFile, has_text, is_current, new_document, write_document, refresh, reuse_if, prepare_from,
  prepare_helper_toolchain,
}

At-has_text :
    (key : String) (v : Json) (text : String) → At key v (str text) → has_text v (key, text) ≡ true
unfolding item has_text
At-has_text key (obj fs) text h =
    rw (from_option-eq-ok (key_error key) (lookup key fs) h) (json_eq-str_refl text)
At-has_text key null text h = cc
At-has_text key (bool b) text h = cc
At-has_text key (int n) text h = cc
At-has_text key (float m k) text h = cc
At-has_text key (str s) text h = cc
At-has_text key (arr vs) text h = cc

new_document-At :
    (root : Checkout) (lock : Json) → At "go" (new_document (source_fingerprints root) lock) lock
unfolding new_document item lookup
new_document-At root lock = refl

module _ ⦃py : Interpreter⦄ (root : Checkout) where
  IsHelperLock-is_current :
      (document lock : Json) → IsHelperLock root document lock → is_current root document ≡ true
  unfolding is_current source_fingerprints
  IsHelperLock-is_current document lock l =
      and-intro (At-has_text "go_mod_sha256" document (root.sha256 root.go_mod) l.at_go_mod) (
        and-intro (At-has_text "recipe_sha256" document (root.sha256 root.recipe) l.at_recipe) refl)

  -- The file holds a document that is valid for the checkout, with this lock.
  pub record Holds (path : LockFile) (lock : Json) : Type 0 where
    pub document : Json
    pub written : path ≡ some (ok document)
    pub valid : validate_helper_lock root document ≡ ok lock

  refresh-Holds :
      (catalog : Result Json) (path after : LockFile) (lock : Json)
      → refresh root catalog path ≡ (ok lock, after)
      → Holds after lock
  unfolding refresh write_document
  refresh-Holds catalog path after lock h =
      let (entries, p₁, _, h₁) = bind-eq-ok (lift catalog) _ path h in
      let (found, p₂, _, h₂) =
        bind-eq-ok (lift (resolve_go (str root.go_mod_text) root.go_baseline entries)) _ p₁ h₁ in
      let document = new_document (source_fingerprints root) found in
      let (go, p₃, checked, h₃) = bind-eq-ok (lift (validate_helper_lock root document)) _ p₂ h₂ in
      let (valid, _) = lift-eq-ok (validate_helper_lock root document) p₂ checked in
      let l = validate_helper_lock-IsHelperLock root document valid in
      let same : go ≡ found = ok-injective (sym l.at_go ∙ new_document-At root found) in
      record {
        document = document;
        written = sym (ap (λ p. p.1) h₃);
        valid = valid ∙ ap ok (same ∙ ok-injective (ap (λ p. p.0) h₃));
      }

  reuse_if-Holds :
      (catalog : Result Json) (current : Bool) (document : Json) (path after : LockFile)
      (lock : Json)
      → path ≡ some (ok document)
      → reuse_if root catalog current document path ≡ (ok lock, after)
      → Holds after lock
  unfolding reuse_if
  reuse_if-Holds catalog true document path after lock there h =
      let (valid, same) = lift-eq-ok (validate_helper_lock root document) path h in
      record { document = document; written = sym same ∙ there; valid = valid }
  reuse_if-Holds catalog false document path after lock there h =
      refresh-Holds catalog path after lock h

  prepare-Holds :
      (catalog : Result Json) (path after : LockFile) (lock : Json)
      → prepare_helper_toolchain root catalog path ≡ (ok lock, after)
      → Holds after lock
  unfolding prepare_helper_toolchain prepare_from
  prepare-Holds catalog none after lock h = refresh-Holds catalog none after lock h
  prepare-Holds catalog (some (raise e)) after lock h = cc
  prepare-Holds catalog (some (ok document)) after lock h =
      reuse_if-Holds catalog (is_current root document) document (some (ok document)) after lock
        refl h

  Holds-prepare :
      (catalog : Result Json) (path : LockFile) (lock : Json)
      → Holds path lock
      → prepare_helper_toolchain root catalog path ≡ (ok lock, path)
  unfolding prepare_helper_toolchain prepare_from reuse_if
  Holds-prepare catalog path lock held =
      let l = validate_helper_lock-IsHelperLock root held.document held.valid in
      rw (held.written, IsHelperLock-is_current held.document lock l, held.valid) refl

  -- When prepare_helper_toolchain returns a lock, the file holds a document that
  -- validate_helper_lock accepts for the checkout with that lock, whether it was there or was
  -- written now, and another run returns the same lock and leaves the file as it is, even where
  -- the catalog cannot be had any more.
  pub prepare_helper_toolchain-Kept :
      (catalog later : Result Json) (path after : LockFile) (lock : Json)
      → prepare_helper_toolchain root catalog path ≡ (ok lock, after)
      → Holds after lock × (prepare_helper_toolchain root later after ≡ (ok lock, after))
  prepare_helper_toolchain-Kept catalog later path after lock h =
      let held = prepare-Holds catalog path after lock h in
      (held, Holds-prepare later after lock held)
