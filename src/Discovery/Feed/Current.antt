-- ===== src/Discovery/Feed/Current.antt =====
-- When a build is skipped.
use tailscale_koolshare.Common.{
  ℤ, String, Bool, true, false, List, Option, none, some, ◌≡◌, refl, ap, ◌∙◌, Bool-cases, inl, inr,
  subst,
}
use tailscale_koolshare.Common.Outcome.{Result, ok, raise, ok-injective}
use tailscale_koolshare.Python.Interpreter.{Interpreter}
use tailscale_koolshare.Python.Text.{◌<>◌}
use tailscale_koolshare.Python.Json.{Json}
use tailscale_koolshare.Toolchain.Version.Greatest.{AtMost}
use tailscale_koolshare.Publish.Action.{Bytes, Event, World, lift}
use tailscale_koolshare.Publish.Action.Laws.{bind-eq-ok}
use tailscale_koolshare.Publish.Descriptor.{Descriptors, identity, verify_manifest}
use tailscale_koolshare.Publish.Remote.{stable_url, remote_manifest}
use tailscale_koolshare.Publish.Existing.Signed.{remote_manifest-signed}
use tailscale_koolshare.CoreLock.Identity.{check_stable}
use tailscale_koolshare.CoreLock.Identity.Stable.{IsStable, check_stable_sound}
use tailscale_koolshare.Discovery.Commit.{source_commit}
use tailscale_koolshare.Discovery.Commit.Resolved.{IsVersionCommit, source_commit-IsVersionCommit}
use tailscale_koolshare.Discovery.Feed.{
  is_handled, candidate, compare, is_older, after_feed, update_needed, Discovered, version_to_build,
  discover,
}

module _ ⦃py : Interpreter⦄ where
  -- The feed's manifest is signed, and its identity is at least that of the candidate.
  pub record IsCovered (w : World) (desc : Json) : Type 0 where
    pub manifest : Bytes
    pub feed : Descriptors
    pub signed : verify_manifest w manifest ≡ ok feed
    pub theirs : List ℤ
    pub ours : List ℤ
    pub their_identity : identity feed.arm ≡ ok theirs
    pub our_identity : identity desc ≡ ok ours
    pub at_least : AtMost ours theirs

  compare-false :
      (r s : Result (List ℤ))
      → compare r s ≡ ok false
      → (a : List ℤ) × (b : List ℤ) × (r ≡ ok a) × (s ≡ ok b) × AtMost b a
  compare-false (raise e) s h = cc
  compare-false (ok a) (raise e) h = cc
  compare-false (ok a) (ok b) h = (a, b, refl, refl, ok-injective h)

  after_feed-IsCovered :
      (w : World) (desc : Json) (r : Result (Option (Bytes × Descriptors)))
      → ((p : Bytes × Descriptors) → r ≡ ok (some p) → verify_manifest w p.0 ≡ ok p.1)
      → after_feed desc r ≡ ok false
      → IsCovered w desc
  unfolding after_feed is_older
  after_feed-IsCovered w desc (raise e) signed h = elim (Bool-cases (is_handled e)) [
    | inl caught ↦ cc (rw caught at h)
    | inr passed ↦ cc (rw passed at h)
  ]
  after_feed-IsCovered w desc (ok none) signed h = cc
  after_feed-IsCovered w desc (ok (some p)) signed h =
      let (body, feed) = p in
      let (theirs, ours, e, e', at_least) = compare-false (identity feed.arm) (identity desc) h in
      record {
        manifest = body;
        feed = feed;
        signed = signed p refl;
        theirs = theirs;
        ours = ours;
        their_identity = e;
        our_identity = e';
        at_least = at_least;
      }

  -- Update_needed returns false only where the verifier is there and a manifest is signed for a
  -- version and build that are at least the candidate's.
  pub update_needed-IsCovered :
      (w : World) (version build : String) (helper : Bool) (h : List Event)
      → (update_needed w version build helper h).0 ≡ ok false
      → (helper ≡ true) × IsCovered w (candidate version build)
  unfolding update_needed
  update_needed-IsCovered w version build false h e = cc
  update_needed-IsCovered w version build true h e = (
    refl,
    after_feed-IsCovered w (candidate version build) (remote_manifest w stable_url true h).0
        (λ p found.
          remote_manifest-signed w stable_url true h
            (ap (λ r. (r, (remote_manifest w stable_url true h).1)) found))
        e,
  )

  -- The version is stable, the commit is named by a commit object of upstream, the tag is that of the
  -- version and build, and a build is skipped only where the feed covers it.
  pub record IsDiscovery (w : World) (build : String) (helper : Bool) (d : Discovered)
      : Type 0 where
    pub stable : IsStable d.version
    pub is_commit : IsVersionCommit w d.version d.commit
    pub is_tag : d.tag ≡ "core-v" <> d.version <> "-" <> build
    pub skipped : d.needed ≡ false → (helper ≡ true) × IsCovered w (candidate d.version build)

  -- When the discovery of a version returns, the version is stable, the commit is the 40-digit
  -- name of the commit object that GitHub's reference for the version's tag leads to, by way of
  -- the annotated tags that GitHub has answered with, the tag is that of the version and build,
  -- and a build is called unneeded only where the verifier is there and a signed feed has at least
  -- this version and build.
  pub discover-IsDiscovery :
      (w : World) (asked build : String) (helper : Bool) (h : List Event) {d : Discovered}
      {h' : List Event}
      → discover w asked build helper h ≡ (ok d, h')
      → IsDiscovery w build helper d
  unfolding discover
  discover-IsDiscovery w asked build helper h {d} e =
      let (version, _, e₁) = bind-eq-ok (version_to_build w asked) _ h e in
      let (_, stable, e₂) = bind-eq-ok (lift (check_stable _ version)) _ _ e₁ in
      let (sha, found, e₃) = bind-eq-ok (source_commit w version) _ _ e₂ in
      let (needed, decided, e₄) = bind-eq-ok (update_needed w version build helper) _ _ e₃ in
      let (_, is_commit) = source_commit-IsVersionCommit w version _ found in
      let p : Discovered = record {
        version = version;
        tag = "core-v" <> version <> "-" <> build;
        needed = needed;
        commit = sha;
      } in
      let same : p ≡ d = ok-injective (ap (λ q. q.0) e₄) in
      subst (IsDiscovery w build helper) same (record {
        stable = check_stable_sound _ version (ap (λ q. q.0) stable);
        is_commit = is_commit;
        is_tag = refl;
        skipped = λ skip.
            update_needed-IsCovered w version build helper _ (ap (λ q. q.0) decided ∙ ap ok skip);
      })
