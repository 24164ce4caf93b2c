-- ===== src/Resolve/Resolved.antt =====
-- What `resolve` returns.
use tailscale_koolshare.Common.{
  String, Bool, true, false, List, ◌∷◌, Option, ◌≡◌, ap, ◌∙◌, ◌⊎◌, inl, inr, subst, sym, or-eq-true,
  not-true, eq_iff, ◌==◌, not,
}
use tailscale_koolshare.Common.Outcome.{ok, require, require-eq-ok, ok-injective}
use tailscale_koolshare.Python.Interpreter.{Interpreter}
use tailscale_koolshare.Python.Json.{Json}
use tailscale_koolshare.Publish.Action.{Event, wrote, World, lift, write_file}
use tailscale_koolshare.Publish.Action.Laws.{bind-eq-ok}
use tailscale_koolshare.Discovery.Commit.{source_commit}
use tailscale_koolshare.CoreLock.Lock.Valid.{IsCoreLock}
use tailscale_koolshare.Resolve.Locked.{
  Workspace, same_locks, either_lock, check_pinned, reused_lock, cached_lock, lock_from, resolve,
}
use tailscale_koolshare.Resolve.Identity.{
  IsLockOf, IsReused, cached_lock-IsCoreLock, reused_lock-IsSigned, lock_from-IsResolved,
}

module _ (w : World) (c : Workspace) ⦃py : Interpreter⦄ where
  -- A valid lock of the current recipe with the identity that is asked for, bound to the release
  -- that has one, and written to its file.
  pub record IsResolved (reuse : Bool) (version commit : String) (lock : Json) (end : List Event)
      : Type 0 where
    pub before : List Event
    pub after : List Event
    pub published : Option Json
    pub asked : List Event
    pub told : List Event
    pub rest : List Event
    pub valid : IsCoreLock c.recipe true lock
    pub identity : IsLockOf version c.pins.build commit lock
    pub tagged : source_commit w version before ≡ (ok commit, after)
    pub pinned :
        ((version == c.pins.initial_version) ≡ false) ⊎ (commit ≡ c.pins.initial_source_commit)
    pub found : reused_lock w c reuse version asked ≡ (ok published, told)
    pub reused : IsReused w c version published lock
    pub written : end ≡ wrote c.path (c.printed lock) ∷ rest

  check_pinned_sound :
      (version commit : String)
      → check_pinned c.pins version commit ≡ ok tt
      → ((version == c.pins.initial_version) ≡ false) ⊎ (commit ≡ c.pins.initial_source_commit)
  unfolding check_pinned
  check_pinned_sound version commit h =
      elim (or-eq-true (not (version == c.pins.initial_version))
        (commit == c.pins.initial_source_commit) (require-eq-ok _ _ h)) [
          | inl differs ↦ inl (not-true (version == c.pins.initial_version) differs)
          | inr same ↦ inr ((eq_iff commit c.pins.initial_source_commit).0 same)
        ]

  -- When resolve returns a lock, source_commit has given the commit that was asked for, which is
  -- the pinned one for the initial version; the lock is a valid lock of the current recipe and has
  -- that version, the build of the recipe and that commit; where the published release was asked
  -- for and has a lock, that is the lock and is bound to the signed manifest; and the lock is the
  -- last thing written, to its own file.
  pub resolve-IsResolved :
      (reuse : Bool) (version commit : String) (h h' : List Event) (lock : Json)
      → resolve w c reuse version commit h ≡ (ok lock, h')
      → IsResolved reuse version commit lock h'
  unfolding resolve write_file
  resolve-IsResolved reuse version commit h h' lock returned =
      let (tagged, at_tag, h₁) = bind-eq-ok (source_commit w version) _ h returned in
      let k₁ = (source_commit w version h).1 in
      let (_, same_tag, h₂) = bind-eq-ok (lift (require (tagged == commit) _)) _ k₁ h₁ in
      let (_, pinned, h₃) = bind-eq-ok (lift (check_pinned c.pins version commit)) _ k₁ h₂ in
      let (published, found, h₄) = bind-eq-ok (reused_lock w c reuse version) _ k₁ h₃ in
      let k₂ = (reused_lock w c reuse version k₁).1 in
      let (cached, at_cache, h₅) = bind-eq-ok (cached_lock w c c.cached) _ k₂ h₄ in
      let k₃ = (cached_lock w c c.cached k₂).1 in
      let (_, _, h₆) = bind-eq-ok (lift (same_locks published cached)) _ k₃ h₅ in
      let (made, at_lock, h₇) =
        bind-eq-ok (lock_from w c version commit (either_lock published cached)) _ k₃ h₆ in
      let same : made ≡ lock = ok-injective (ap (λ p. p.0) h₇) in
      let (valid, identity, reused) =
        lock_from-IsResolved w c version commit published cached k₃
          (λ p e. reused_lock-IsSigned w c reuse version k₁ (found ∙ ap (λ o. (ok o, k₂)) e))
          (λ p e. cached_lock-IsCoreLock w c c.cached k₂ (at_cache ∙ ap (λ o. (ok o, k₃)) e))
          at_lock in
      let exact = (eq_iff tagged commit).0 (require-eq-ok _ _ (ap (λ p. p.0) same_tag)) in
      record {
        before = h;
        after = k₁;
        published = published;
        asked = k₁;
        told = k₂;
        rest = (lock_from w c version commit (either_lock published cached) k₃).1;
        valid = subst (IsCoreLock c.recipe true) same valid;
        identity = subst (IsLockOf version c.pins.build commit) same identity;
        tagged = at_tag ∙ ap (λ t. (ok t, k₁)) exact;
        pinned = check_pinned_sound version commit (ap (λ p. p.0) pinned);
        found = found;
        reused = subst (IsReused w c version published) same reused;
        written =
            sym (ap (λ p. p.1) h₇)
            ∙ ap
                (λ l.
                  wrote c.path (c.printed l)
                  ∷ (lock_from w c version commit (either_lock published cached) k₃).1)
                same;
      }
