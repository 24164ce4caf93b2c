-- ===== src/Publish/Main/Advance.antt =====
-- When the script moves the stable feed.
use tailscale_koolshare.Common.{
  or-eq-false, String, Bool, true, false, ◌||◌, List, [], ◌∷◌, Option, none, some, ◌≡◌, refl, sym,
  ap, ◌⊎◌, inl, inr, In, subst, ◌∙◌,
}
use tailscale_koolshare.Common.Outcome.{Result, ok, raise, Result-cases}
use tailscale_koolshare.Python.Interpreter.{Interpreter, to_str}
use tailscale_koolshare.Python.Json.{Json, item}
use tailscale_koolshare.Publish.Action.{
  Bytes, Event, Action, ◌>>◌, World, lift, continue, commands, write_file, write_text, ran, wrote,
  gh,
}
use tailscale_koolshare.Publish.Action.Laws.{bind-eq-ok}
use tailscale_koolshare.Publish.Action.Avoids.{
  Avoids, Avoids-bind, Avoids-lift, Avoids-pure, Avoids-gh, Avoids-write_text,
}
use tailscale_koolshare.Publish.Descriptor.{Descriptors, validate_archives, core_release_notes}
use tailscale_koolshare.Publish.Descriptor.Validated.{validated_manifest}
use tailscale_koolshare.Publish.Remote.{readback_assets}
use tailscale_koolshare.Publish.Remote.Readback.{readback_assets-WasRead}
use tailscale_koolshare.Publish.Existing.{publish_draft}
use tailscale_koolshare.Publish.Existing.Signed.{IsPublished, existing_manifest-IsPublished}
use tailscale_koolshare.Publish.Existing.Commands.{
  upload_of, upload-ne-create, NoUpload-publish_draft, NoUpload-readback_assets,
  NoUpload-existing_manifest,
}
use tailscale_koolshare.Publish.Main.{
  Plan, is_current, create_release, upload_stable, preflight, new_release, publish_release,
  ensure_stable, advance, main,
}
use tailscale_koolshare.Publish.Main.Safety.{IsSafePlan, Silent-preflight, preflight-IsSafePlan}

module _ ⦃py : Interpreter⦄ (w : World) where
  new_release-IsPublished :
      (tag : String) (ds : Descriptors) (h : List Event) {body : Bytes} {h' : List Event}
      → validate_archives w ≡ ok ds
      → new_release w tag ds h ≡ (ok body, h')
      → IsPublished w body ds
  unfolding new_release
  new_release-IsPublished tag ds h {body} valid e =
      let (version, _, e₁) = bind-eq-ok (lift (item "version" ds.arm)) _ h e in
      let (build, _, e₂) = bind-eq-ok (lift (item "build" ds.arm)) _ _ e₁ in
      let (notes, _, e₃) = bind-eq-ok (lift (core_release_notes w.tags ds.arm)) _ _ e₂ in
      let (_, _, e₃') = bind-eq-ok (write_text "release-notes.md" notes) _ _ e₃ in
      let (commit, _, e₄) = bind-eq-ok (lift w.commit) _ _ e₃' in
      let (_, _, e₅) =
        bind-eq-ok (gh w (create_release tag (to_str version) (to_str build) commit)) _ _ e₄ in
      let (_, _, e₆) = bind-eq-ok (gh w (publish_draft tag)) _ _ e₅ in
      let (_, read, e₇) = bind-eq-ok (readback_assets w ds) _ _ e₆ in
      let (arm, arm64) = validated_manifest w ds body valid (ap (λ q. q.0) e₇) in
      let (arm_read, arm64_read) = readback_assets-WasRead w ds _ read in
      record {
        remote = ds;
        signed_arm = arm;
        signed_arm64 = arm64;
        same = inl refl;
        arm_read = arm_read;
        arm64_read = arm64_read;
      }

  publish_release-IsPublished :
      (tag : String) (ds : Descriptors) (release : Option Json) (h : List Event) {body : Bytes}
      {h' : List Event}
      → validate_archives w ≡ ok ds
      → publish_release w tag ds release h ≡ (ok body, h')
      → IsPublished w body ds
  unfolding publish_release
  publish_release-IsPublished tag ds none h valid e = new_release-IsPublished tag ds h valid e
  publish_release-IsPublished tag ds (some release) h valid e =
      existing_manifest-IsPublished w release tag ds h e

  module _ (rest : List String) where
    NoUpload-new_release :
        (tag : String) (ds : Descriptors) → Avoids (upload_of rest) (new_release w tag ds)
    unfolding new_release
    NoUpload-new_release tag ds =
        search
          (
            Avoids-bind, Avoids-lift, Avoids-write_text, Avoids-gh, upload-ne-create,
            NoUpload-publish_draft, NoUpload-readback_assets,
          )
          depth 14

    NoUpload-publish_release :
        (tag : String) (ds : Descriptors) (release : Option Json)
        → Avoids (upload_of rest) (publish_release w tag ds release)
    unfolding publish_release
    NoUpload-publish_release tag ds none = NoUpload-new_release tag ds
    NoUpload-publish_release tag ds (some release) =
        NoUpload-existing_manifest w rest release tag ds

  -- The feed was to be moved, and all that this needs had happened before.
  pub record IsAdvance (release_only : Bool) : Type 0 where
    pub asked : release_only ≡ false
    pub plan : Plan
    pub planned : preflight w [] ≡ (ok plan, (preflight w []).1)
    pub safe : IsSafePlan w plan
    pub not_current : is_current plan.current plan.descriptors ≡ false
    pub envelope : Bytes
    pub after : List Event
    pub released :
        publish_release w plan.tag plan.descriptors plan.release (preflight w []).1
        ≡ (ok envelope, after)
    pub is_published : IsPublished w envelope plan.descriptors
    pub before : List Event
    pub moved :
        (main w release_only []).1 ≡ ran upload_stable ∷ wrote "manifest.json" envelope ∷ before

  NoUpload-ensure_stable : (stable : Option Json) → Avoids upload_stable (ensure_stable w stable)
  unfolding ensure_stable
  NoUpload-ensure_stable (some stable) = Avoids-pure upload_stable tt
  NoUpload-ensure_stable none = search (Avoids-bind, Avoids-lift, Avoids-gh, upload-ne-create)

  -- The envelope is written, and uploaded at once.
  abbrev replace_feed : Bytes → Action (Unit {0})
  replace_feed envelope = write_file "manifest.json" envelope >> gh w upload_stable

  replaced :
      (envelope : Bytes) (r : Result (Unit {0})) (k h : List Event)
      → (In upload_stable (commands k) → In upload_stable (commands h))
      → In upload_stable (commands (continue r (λ _. replace_feed envelope) k).1)
      → In upload_stable (commands h)
        ⊎ ((before : List Event) × ((continue r (λ _. replace_feed envelope) k).1
              ≡ ran upload_stable ∷ wrote "manifest.json" envelope ∷ before))
  unfolding write_file gh
  replaced envelope (raise e) k h back i = inl (back i)
  replaced envelope (ok tt) k h back i = inr (k, refl)

  advance-needs :
      (envelope : Bytes) (stable : Option Json) (done : Bool) (h : List Event)
      → In upload_stable (commands (advance w envelope stable done h).1)
      → In upload_stable (commands h)
        ⊎ ((done ≡ false)
            × ((before : List Event) × ((advance w envelope stable done h).1
                  ≡ ran upload_stable ∷ wrote "manifest.json" envelope ∷ before)))
  unfolding advance
  advance-needs envelope stable true h i = inl i
  advance-needs envelope stable false h i =
      elim (replaced envelope (ensure_stable w stable h).0 (ensure_stable w stable h).1 h
        ((NoUpload-ensure_stable stable).at h) i) [
          | inl early ↦ inl early
          | inr (before, last) ↦ inr (refl, (before, last))
        ]

  main-advance :
      (release_only : Bool) (plan : Plan) (envelope : Bytes) (h : List Event)
      → preflight w [] ≡ (ok plan, (preflight w []).1)
      → publish_release w plan.tag plan.descriptors plan.release (preflight w []).1
        ≡ (ok envelope, h)
      → (main w release_only []).1
        ≡ (advance w envelope plan.stable
            (release_only || is_current plan.current plan.descriptors)
            h).1
  unfolding main
  main-advance release_only plan envelope h planned released =
      rw (ap (λ q. q.0) planned, released) refl

  nothing-yet : In upload_stable (commands (preflight w []).1) → ⊥
  unfolding commands
  nothing-yet i = subst (In upload_stable) ((Silent-preflight w).at []) i

  abbrev rest_of_upload : List String
  rest_of_upload = "core-stable" ∷ "temporary/manifest.json" ∷ "--clobber" ∷ []

  no-upload-yet :
      (plan : Plan)
      → In upload_stable
          (commands (publish_release w plan.tag plan.descriptors plan.release (preflight w []).1).1)
      → ⊥
  no-upload-yet plan i = nothing-yet (
      (NoUpload-publish_release rest_of_upload plan.tag plan.descriptors plan.release).at
        (preflight w []).1 i)

  after_release :
      (release_only : Bool) (plan : Plan)
      → preflight w [] ≡ (ok plan, (preflight w []).1)
      → (r : Result Bytes) (h : List Event)
      → publish_release w plan.tag plan.descriptors plan.release (preflight w []).1 ≡ (r, h)
      → In upload_stable (
          commands
            (continue r
              (λ envelope.
                advance w envelope plan.stable
                  (release_only || is_current plan.current plan.descriptors))
              h).1)
      → IsAdvance release_only
  after_release release_only plan planned (raise e) h released i = absurd (
      no-upload-yet plan
        (subst (λ k. In upload_stable (commands k)) (sym (ap (λ q. q.1) released)) i))
  after_release release_only plan planned (ok envelope) h released i =
      elim (advance-needs envelope plan.stable _ h i) [
        | inl early ↦ absurd (
            no-upload-yet plan
              (subst (λ k. In upload_stable (commands k)) (sym (ap (λ q. q.1) released)) early))
        | inr (wanted, (before, last)) ↦
            let (asked, not_current) = or-eq-false _ _ wanted in
            let safe = preflight-IsSafePlan w [] planned in
            record {
              asked = asked;
              plan = plan;
              planned = planned;
              safe = safe;
              not_current = not_current;
              envelope = envelope;
              after = h;
              released = released;
              is_published =
                  publish_release-IsPublished plan.tag plan.descriptors plan.release
                    (preflight w []).1 safe.validated released;
              before = before;
              moved = main-advance release_only plan envelope h planned released ∙ last;
            }
      ]

  -- Whenever a run of main has run the command that replaces the manifest of the stable feed, it
  -- was not a release-only run, its preflight had found a candidate that is not older than the
  -- feed that GitHub serves and not equal to it, an envelope was signed for descriptors equal to
  -- the candidate's, whose archives had been read back from GitHub with their signed size and
  -- digest, and the last two things that the run has done are writing exactly this envelope as
  -- manifest.json and that command.
  pub upload_stable-IsAdvance :
      (release_only : Bool)
      → In upload_stable (commands (main w release_only []).1)
      → IsAdvance release_only
  unfolding main
  upload_stable-IsAdvance release_only i = elim (Result-cases (preflight w []).0) [
    | inl (e, raised_there) ↦ absurd (nothing-yet (rw raised_there at i))
    | inr (plan, returned) ↦
        after_release release_only plan (ap (λ r. (r, (preflight w []).1)) returned) _ _ refl
          (rw returned at i)
  ]
