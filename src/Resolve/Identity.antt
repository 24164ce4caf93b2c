-- ===== src/Resolve/Identity.antt =====
-- The identity of a lock that is reused, cached or made.
use tailscale_koolshare.Common.{
  String, Bool, true, false, List, Option, none, some, ◌≡◌, refl, ap, ◌∙◌, and_three, subst,
}
use tailscale_koolshare.Common.Outcome.{Result, ok, require, >>=-eq-ok, require-eq-ok, ok-injective}
use tailscale_koolshare.Python.Interpreter.{Interpreter}
use tailscale_koolshare.Python.Json.{Json, str, json_eq, item, lookup}
use tailscale_koolshare.Python.Json.Laws.{At, json_eq-str}
use tailscale_koolshare.Publish.Action.{Event, World, lift, api}
use tailscale_koolshare.Publish.Action.Laws.{bind-eq-ok}
use tailscale_koolshare.CoreLock.Lock.{validate_lock}
use tailscale_koolshare.CoreLock.Lock.Valid.{
  IsCoreLock, validate_lock-IsCoreLock, validate_lock-eq-ok,
}
use tailscale_koolshare.Toolchain.Resolve.{resolve_go}
use tailscale_koolshare.Resolve.Source.{Requirements}
use tailscale_koolshare.Resolve.Check.{commit_in}
use tailscale_koolshare.Resolve.New.{new_lock, fetch_source, source_files, finish_lock}
use tailscale_koolshare.Resolve.Published.Signed.{
  IsSigned, published_lock-IsSigned, some_lock, none-some,
}
use tailscale_koolshare.Resolve.Locked.{
  catalog_url, Workspace, either_lock, reused_lock, cached_lock, check_identity, lock_from,
}

-- The version, the build and the commit of a lock.
pub record IsLockOf (version build commit : String) (lock : Json) : Type 0 where
  pub at_version : At "version" lock (str version)
  pub at_build : At "build" lock (str build)
  pub at_commit : commit_in lock ≡ ok (str commit)

new_lock-IsLockOf :
    (version build commit digest recipe : String) (go revision : Json)
    → IsLockOf version build commit (new_lock version build commit digest recipe go revision)
unfolding new_lock item lookup commit_in
new_lock-IsLockOf version build commit digest recipe go revision = record {
  at_version = refl;
  at_build = refl;
  at_commit = refl;
}

module _ (w : World) (c : Workspace) ⦃py : Interpreter⦄ where
  finish_lock-IsLockOf :
      (version commit digest : String) (r : Requirements) (catalog : Json) {lock : Json}
      → finish_lock c.lib c.recipe c.pins c.upstream version commit digest r catalog ≡ ok lock
      → IsCoreLock c.recipe true lock × IsLockOf version c.pins.build commit lock
  unfolding finish_lock
  finish_lock-IsLockOf version commit digest r catalog {lock = lock} h =
      let (go, _, h₁) = >>=-eq-ok (resolve_go r.go_mod r.preferred catalog) _ h in
      let made = new_lock version c.pins.build commit digest c.recipe.hash go r.revision in
      let valid = validate_lock-IsCoreLock c.recipe true made h₁ in
      (
        valid,
        subst (IsLockOf version c.pins.build commit) (validate_lock-eq-ok c.recipe true made h₁)
            (new_lock-IsLockOf version c.pins.build commit digest c.recipe.hash go r.revision),
      )

  pub check_identity-IsLockOf :
      (version commit : String) (lock : Json) (h : List Event) {l : Json} {h' : List Event}
      → check_identity w c version commit lock h ≡ (ok l, h')
      → (lock ≡ l) × IsLockOf version c.pins.build commit lock
  unfolding check_identity
  check_identity-IsLockOf version commit lock h returned =
      let (v, at_version, h₁) = bind-eq-ok (lift (item "version" lock)) _ h returned in
      let (b, at_build, h₂) = bind-eq-ok (lift (item "build" lock)) _ _ h₁ in
      let (k, at_commit, h₃) = bind-eq-ok (lift (commit_in lock)) _ _ h₂ in
      let (_, same, h₄) = bind-eq-ok (lift (require _ _)) _ _ h₃ in
      let (is_version, is_build, is_commit) =
        and_three (json_eq v (str version)) (json_eq b (str c.pins.build)) (json_eq k (str commit))
          (require-eq-ok _ _ (ap (λ p. p.0) same)) in
      (
        ok-injective (ap (λ p. p.0) h₄),
        record {
          at_version = ap (λ p. p.0) at_version ∙ ap ok (json_eq-str v version is_version);
          at_build = ap (λ p. p.0) at_build ∙ ap ok (json_eq-str b c.pins.build is_build);
          at_commit = ap (λ p. p.0) at_commit ∙ ap ok (json_eq-str k commit is_commit);
        },
      )

  pub cached_lock-IsCoreLock :
      (cached : Option (Result Json)) (h : List Event) {l : Json} {h' : List Event}
      → cached_lock w c cached h ≡ (ok (some l), h')
      → IsCoreLock c.recipe true l
  unfolding cached_lock
  cached_lock-IsCoreLock none h returned = absurd (none-some returned)
  cached_lock-IsCoreLock (some contents) h returned =
      let (given, _, h₁) = bind-eq-ok (lift contents) _ h returned in
      let (l, valid, h₂) = bind-eq-ok (lift (validate_lock c.recipe true given)) _ _ h₁ in
      validate_lock-IsCoreLock c.recipe true given (ap (λ p. p.0) valid ∙ ap ok (some_lock h₂))

  pub reused_lock-IsSigned :
      (reuse : Bool) (version : String) (h : List Event) {l : Json} {h' : List Event}
      → reused_lock w c reuse version h ≡ (ok (some l), h')
      → IsSigned w c.lib c.recipe version c.pins.build l
  unfolding reused_lock
  reused_lock-IsSigned true version h returned =
      published_lock-IsSigned w c.lib c.recipe c.loads c.helper version c.pins.build h _ _ returned
  reused_lock-IsSigned false version h returned = absurd (none-some returned)

  lock_from-none-IsLockOf :
      (version commit : String) (h : List Event) {l : Json} {h' : List Event}
      → lock_from w c version commit none h ≡ (ok l, h')
      → IsCoreLock c.recipe true l × IsLockOf version c.pins.build commit l
  unfolding lock_from
  lock_from-none-IsLockOf version commit h returned =
      let (source, _, h₁) =
        bind-eq-ok (lift (fetch_source c.lib c.recipe c.pins c.upstream version commit)) _ h
          returned in
      let (required, _, h₂) =
        bind-eq-ok (lift (source_files c.lib c.recipe c.pins c.upstream version commit source.1)) _
          _ h₁ in
      let (catalog, _, h₃) = bind-eq-ok (api w catalog_url) _ _ h₂ in
      finish_lock-IsLockOf version commit source.0 required catalog (ap (λ p. p.0) h₃)

  lock_from-some-IsLockOf :
      (version commit : String) (lock : Json) (h : List Event) {l : Json} {h' : List Event}
      → lock_from w c version commit (some lock) h ≡ (ok l, h')
      → (lock ≡ l) × IsLockOf version c.pins.build commit l
  unfolding lock_from
  lock_from-some-IsLockOf version commit lock h returned =
      let (same, identity) = check_identity-IsLockOf version commit lock h returned in
      (same, subst (IsLockOf version c.pins.build commit) same identity)

  -- A lock that a release has is signed there, and is the one that is used.
  abbrev pub IsReused : String → Option Json → Json → Type 0
  IsReused version none lock = Unit {0}
  IsReused version (some published) lock =
      (published ≡ lock) × IsSigned w c.lib c.recipe version c.pins.build lock

  pub lock_from-IsResolved :
      (version commit : String) (published cached : Option Json) (h : List Event) {l : Json}
      {h' : List Event}
      → ((p : Json) → published ≡ some p → IsSigned w c.lib c.recipe version c.pins.build p)
      → ((k : Json) → cached ≡ some k → IsCoreLock c.recipe true k)
      → lock_from w c version commit (either_lock published cached) h ≡ (ok l, h')
      → IsCoreLock c.recipe true l
        × IsLockOf version c.pins.build commit l
        × IsReused version published l
  unfolding either_lock
  lock_from-IsResolved version commit (some p) cached h signed valid returned =
      let (same, identity) = lock_from-some-IsLockOf version commit p h returned in
      let its = subst (IsSigned w c.lib c.recipe version c.pins.build) same (signed p refl) in
      (its.valid, identity, (same, its))
  lock_from-IsResolved version commit none (some k) h signed valid returned =
      let (same, identity) = lock_from-some-IsLockOf version commit k h returned in
      (subst (IsCoreLock c.recipe true) same (valid k refl), identity, tt)
  lock_from-IsResolved version commit none none h signed valid returned =
      let (is_lock, identity) = lock_from-none-IsLockOf version commit h returned in
      (is_lock, identity, tt)
