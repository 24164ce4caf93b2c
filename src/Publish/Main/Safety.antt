-- ===== src/Publish/Main/Safety.antt =====
-- What is known when the script runs its first command.
use tailscale_koolshare.Common.{
  ℤ, Bool, true, not, List, [], ◌∷◌, Option, none, some, ◌≡◌, refl, ap, ◌∙◌, arith, ◌⊎◌, inl, inr,
  not-true, if◌then◌else◌, subst,
}
use tailscale_koolshare.Common.Outcome.{
  Result-cases, ok-injective, ok, require_else, require-eq-ok, require_else-eq-ok,
}
use tailscale_koolshare.Python.Interpreter.{Interpreter, to_str}
use tailscale_koolshare.Python.Text.{◌<>◌}
use tailscale_koolshare.Python.Json.{Json, item}
use tailscale_koolshare.Toolchain.Version.{key_ltb, key_eqb}
use tailscale_koolshare.Toolchain.Version.Greatest.{AtMost}
use tailscale_koolshare.Publish.Action.{Event, World, lift, commands}
use tailscale_koolshare.Publish.Action.Laws.{bind-eq-ok, Silent, silent_rules}
use tailscale_koolshare.Publish.Descriptor.{
  Descriptors, identity, descriptors_eq, same_artifacts, validate_archives,
}
use tailscale_koolshare.Publish.Release.{is_draft}
use tailscale_koolshare.Publish.Remote.{stable_url, release_by_tag, remote_manifest}
use tailscale_koolshare.Publish.Remote.Quiet.{Silent-release_by_tag, Silent-remote_manifest}
use tailscale_koolshare.Publish.Main.Feed.{IsFeed, read_stable-IsFeed}
use tailscale_koolshare.Publish.Main.{Plan, second, check_current, read_stable, preflight, main}

key_eqb_refl : (k : List ℤ) → key_eqb k k ≡ true
unfolding key_eqb
key_eqb_refl [] = refl
key_eqb_refl (x ∷ k) = ground (arith, key_eqb_refl k)

module _ ⦃py : Interpreter⦄ where
  -- The feed's version and build are at most the candidate's, and where they are the same ones the
  -- feed holds the same artifacts.
  pub record IsNotNewer (feed ds : Descriptors) : Type 0 where
    pub ours : List ℤ
    pub theirs : List ℤ
    pub our_identity : identity ds.arm ≡ ok ours
    pub their_identity : identity feed.arm ≡ ok theirs
    pub at_most : AtMost theirs ours
    pub immutable : ours ≡ theirs → descriptors_eq feed ds ≡ true

  same_artifacts-eq-ok :
      (a b : Descriptors) → same_artifacts a b ≡ ok tt → descriptors_eq a b ≡ true
  unfolding same_artifacts
  same_artifacts-eq-ok a b h = require-eq-ok _ _ h

  module _ (w : World) where
    check_current-IsNotNewer :
        (ds feed : Descriptors) (h : List Event) {h' : List Event}
        → check_current w ds (some feed) h ≡ (ok tt, h')
        → IsNotNewer feed ds
    unfolding check_current
    check_current-IsNotNewer ds feed h e =
        let (ours, our_id, e₁) = bind-eq-ok (lift (identity ds.arm)) _ h e in
        let (theirs, their_id, e₂) = bind-eq-ok (lift (identity feed.arm)) _ _ e₁ in
        let (_, newer, e₃) =
          bind-eq-ok (lift (require_else (not (key_ltb ours theirs)) _)) _ _ e₂ in
        let checked : (if key_eqb ours theirs then same_artifacts feed ds else ok tt) ≡ ok tt =
          ap (λ p. p.0) e₃ in
        record {
          ours = ours;
          theirs = theirs;
          our_identity = ap (λ p. p.0) our_id;
          their_identity = ap (λ p. p.0) their_id;
          at_most = not-true (key_ltb ours theirs) (require_else-eq-ok _ _ (ap (λ p. p.0) newer));
          immutable = λ same.
              let equal : key_eqb ours theirs ≡ true =
                subst (λ k. key_eqb ours k ≡ true) same (key_eqb_refl ours) in
              same_artifacts-eq-ok feed ds (rw equal at checked);
        }

    Silent-check_current :
        (ds : Descriptors) (o : Option Descriptors) → Silent (check_current w ds o)
    unfolding check_current
    Silent-check_current ds none = record { at = λ h. refl }
    Silent-check_current ds (some feed) = search silent_rules

    pub Silent-read_stable : (ds : Descriptors) (o : Option Json) → Silent (read_stable w ds o)
    unfolding read_stable
    Silent-read_stable ds none = record { at = λ h. refl }
    Silent-read_stable ds (some stable) =
        search (silent_rules, Silent-remote_manifest, Silent-check_current) depth 9

    pub Silent-preflight : Silent (preflight w)
    unfolding preflight
    Silent-preflight = search (silent_rules, Silent-release_by_tag, Silent-read_stable) depth 12

    -- The candidate's archives are those of its signed manifest, and the feed that GitHub serves,
    -- where it has one, is not newer.
    pub record IsSafePlan (plan : Plan) : Type 0 where
      pub validated : validate_archives w ≡ ok plan.descriptors
      pub of_feed : IsFeed w plan.current
      pub not_newer :
          (feed : Descriptors) → plan.current ≡ some feed → IsNotNewer feed plan.descriptors

    checked_feed :
        (ds : Descriptors) (o : Option Descriptors) (h : List Event) {h' : List Event}
        → check_current w ds o h ≡ (ok tt, h')
        → (feed : Descriptors) → o ≡ some feed
        → IsNotNewer feed ds
    checked_feed ds none h e feed same = cc
    checked_feed ds (some found) h e feed same =
        let is_it : found ≡ feed = cc in
        subst (λ f. IsNotNewer f ds) is_it (check_current-IsNotNewer ds found h e)

    read_stable-IsNotNewer :
        (ds : Descriptors) (stable : Option Json) (h : List Event) {o : Option Descriptors}
        {h' : List Event}
        → read_stable w ds stable h ≡ (ok o, h')
        → (feed : Descriptors) → o ≡ some feed
        → IsNotNewer feed ds
    unfolding read_stable
    read_stable-IsNotNewer ds none h {o} e feed same =
        let nothing : none ≡ o = ok-injective (ap (λ p. p.0) e) in cc
    read_stable-IsNotNewer ds (some stable) h {o} e feed same =
        let (draft, _, e₁) = bind-eq-ok (lift (is_draft stable)) _ h e in
        let (_, _, e₂) = bind-eq-ok (lift (require_else (not draft) _)) _ _ e₁ in
        let (found, _, e₃) = bind-eq-ok (remote_manifest w stable_url true) _ _ e₂ in
        let (_, checked, e₄) = bind-eq-ok (check_current w ds (second found)) _ _ e₃ in
        let result : second found ≡ o = ok-injective (ap (λ p. p.0) e₄) in
        checked_feed ds (second found) _ checked feed (result ∙ same)

    pub preflight-IsSafePlan :
        (h : List Event) {plan : Plan} {h' : List Event}
        → preflight w h ≡ (ok plan, h')
        → IsSafePlan plan
    unfolding preflight
    preflight-IsSafePlan h {plan} e =
        let (ds, validated, e₁) = bind-eq-ok (lift (validate_archives w)) _ h e in
        let (version, _, e₂) = bind-eq-ok (lift (item "version" ds.arm)) _ _ e₁ in
        let (build, _, e₃) = bind-eq-ok (lift (item "build" ds.arm)) _ _ e₂ in
        let tag = "core-v" <> to_str version <> "-" <> to_str build in
        let (release, _, e₄) = bind-eq-ok (release_by_tag w tag) _ _ e₃ in
        let (stable, looked_up, e₅) = bind-eq-ok (release_by_tag w "core-stable") _ _ e₄ in
        let (current, read, e₆) = bind-eq-ok (read_stable w ds stable) _ _ e₅ in
        let p : Plan = record {
          descriptors = ds;
          tag = tag;
          release = release;
          stable = stable;
          current = current;
        } in
        let same : p ≡ plan = ok-injective (ap (λ q. q.0) e₆) in
        subst IsSafePlan same (record {
          validated = ap (λ q. q.0) validated;
          of_feed = read_stable-IsFeed w ds stable _ _ looked_up read;
          not_newer = read_stable-IsNotNewer ds stable _ read;
        })

    -- A run of main gives no command at all, or its preflight has succeeded without a command and
    -- found a candidate whose local archives are validated, and a feed: none, where GitHub has
    -- answered 404 to the request of the feed release or of its manifest, or else the descriptors
    -- for which the manifest that GitHub serves is signed, which the candidate is not older than,
    -- and which it equals where version and build are the same.
    pub main-IsSafePlan :
        (release_only : Bool)
        → (commands (main w release_only []).1 ≡ [])
          ⊎ ((plan : Plan) × (preflight w [] ≡ (ok plan, (preflight w []).1))
              × (commands (preflight w []).1 ≡ [])
              × IsSafePlan plan)
    unfolding main commands
    main-IsSafePlan release_only = elim (Result-cases (preflight w []).0) [
      | inl (e, raised_there) ↦ inl (rw raised_there (Silent-preflight.at []))
      | inr (plan, returned) ↦
          let at_plan = ap (λ r. (r, (preflight w []).1)) returned in
          inr (plan, at_plan, Silent-preflight.at [], preflight-IsSafePlan [] at_plan)
    ]
