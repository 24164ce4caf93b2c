-- ===== src/Publish/Existing/Signed.antt =====
-- What `existing_manifest` returns, and which commands it runs.
use mathlib.Core.List.{flatten}
use mathlib.Core.Option.{some-injective}
use tailscale_koolshare.Common.{
  take, ◌+◌, String, Bool, true, false, List, Option, none, some, ◌≡◌, refl, ap, ◌∙◌, subst, ◌⊎◌,
  inr, arith,
}
use tailscale_koolshare.Common.Outcome.{ok, require-eq-ok, ok-injective}
use tailscale_koolshare.Python.Text.{◌<>◌}
use tailscale_koolshare.Python.Json.{Json}
use tailscale_koolshare.Publish.Action.{Bytes, Event, World, lift, fetch, gh}
use tailscale_koolshare.Publish.Action.Laws.{bind-eq-ok, raised}
use tailscale_koolshare.Publish.Descriptor.{
  Descriptors, descriptors_eq, same_artifacts, verify_manifest, max_manifest,
}
use tailscale_koolshare.Publish.Release.{is_draft}
use tailscale_koolshare.Publish.Remote.{
  download_url, attempt, verified_body, remote_manifest, readback_assets,
}
use tailscale_koolshare.Publish.Remote.Readback.{WasRead, readback_assets-WasRead}
use tailscale_koolshare.Publish.Existing.{
  matching, published_manifest, check_downloaded, check_complete, read_draft, check_draft,
  draft_manifest, publish_draft, manifest_of, existing_manifest,
}

module _ (w : World) where
  -- The manifest is signed for descriptors that are those of the candidate, and GitHub serves their
  -- archives.
  pub record IsPublished (body : Bytes) (ds : Descriptors) : Type 0 where
    pub remote : Descriptors
    pub signed_arm : w.verify body "arm" ≡ ok remote.arm
    pub signed_arm64 : w.verify body "arm64" ≡ ok remote.arm64
    pub same : (remote ≡ ds) ⊎ (descriptors_eq remote ds ≡ true)
    pub arm_read : WasRead w remote.arm
    pub arm64_read : WasRead w remote.arm64

  pub verify_manifest-signed :
      (body : Bytes) {ds : Descriptors}
      → verify_manifest w body ≡ ok ds
      → (w.verify body "arm" ≡ ok ds.arm) × (w.verify body "arm64" ≡ ok ds.arm64)
  unfolding verify_manifest
  verify_manifest-signed body h = ground arith

  verified_body-signed :
      (o : Option (List Bytes)) (h : List Event) {p : Bytes × Descriptors} {h' : List Event}
      → verified_body w o h ≡ (ok (some p), h')
      → verify_manifest w p.0 ≡ ok p.1
  unfolding verified_body
  verified_body-signed none h {p} e =
      let nothing : none ≡ some p = ok-injective (ap (λ q. q.0) e) in cc
  verified_body-signed (some chunks) h {p} e =
      let body = take (max_manifest + 1) (flatten chunks) in
      let (ds, verified, e₁) = bind-eq-ok (lift (verify_manifest w body)) _ h e in
      let same : (body, ds) ≡ p = some-injective _ _ (ok-injective (ap (λ q. q.0) e₁)) in
      subst (λ q. verify_manifest w q.0 ≡ ok q.1) same (ap (λ q. q.0) verified)

  published :
      (body : Bytes) (ds remote : Descriptors)
      → verify_manifest w body ≡ ok remote
      → descriptors_eq remote ds ≡ true
      → (h : List Event) {h' : List Event} → readback_assets w remote h ≡ (ok tt, h')
      → IsPublished body ds
  published body ds remote verified same h read =
      let (arm, arm64) = verify_manifest-signed body verified in
      let (arm_read, arm64_read) = readback_assets-WasRead w remote h read in
      record {
        remote = remote;
        signed_arm = arm;
        signed_arm64 = arm64;
        same = inr same;
        arm_read = arm_read;
        arm64_read = arm64_read;
      }

  matching-IsPublished :
      (ds : Descriptors) (o : Option (Bytes × Descriptors)) (h : List Event) {body : Bytes}
      {h' : List Event}
      → ((p : Bytes × Descriptors) → o ≡ some p → verify_manifest w p.0 ≡ ok p.1)
      → matching w ds o h ≡ (ok body, h')
      → IsPublished body ds
  unfolding matching same_artifacts
  matching-IsPublished ds none h signed e = raised e
  matching-IsPublished ds (some p) h {body} signed e =
      let (found, remote) = p in
      let (_, same, e₁) = bind-eq-ok (lift (same_artifacts remote ds)) _ h e in
      let (_, read, e₂) = bind-eq-ok (readback_assets w remote) _ _ e₁ in
      let is_body : found ≡ body = ok-injective (ap (λ q. q.0) e₂) in
      published body ds remote
        (subst (λ b. verify_manifest w b ≡ ok remote) is_body (signed p refl))
        (require-eq-ok _ _ (ap (λ q. q.0) same)) _ read

  pub remote_manifest-signed :
      (url : String) (missing_ok : Bool) (h : List Event) {p : Bytes × Descriptors}
      {h' : List Event}
      → remote_manifest w url missing_ok h ≡ (ok (some p), h')
      → verify_manifest w p.0 ≡ ok p.1
  unfolding remote_manifest
  remote_manifest-signed url missing_ok h e =
      let (o, _, e₁) = bind-eq-ok (attempt missing_ok (fetch w url)) _ h e in
      verified_body-signed o _ e₁

  published_manifest-IsPublished :
      (tag : String) (ds : Descriptors) (h : List Event) {body : Bytes} {h' : List Event}
      → published_manifest w tag ds h ≡ (ok body, h')
      → IsPublished body ds
  unfolding published_manifest
  published_manifest-IsPublished tag ds h e =
      let url = download_url (tag <> "/manifest.json") in
      let (found, answered, e₁) = bind-eq-ok (remote_manifest w url false) _ h e in
      let after = (remote_manifest w url false h).1 in
      matching-IsPublished ds found after
        (λ p same. remote_manifest-signed url false h (answered ∙ ap (λ f. (ok f, after)) same)) e₁

  check_draft-signed :
      (body : Bytes) (ds : Descriptors) (h : List Event) {remote : Descriptors} {h' : List Event}
      → check_draft w body ds h ≡ (ok remote, h')
      → (verify_manifest w body ≡ ok remote) × (descriptors_eq remote ds ≡ true)
  unfolding check_draft same_artifacts
  check_draft-signed body ds h {remote} e =
      let (found, verified, e₁) = bind-eq-ok (lift (verify_manifest w body)) _ h e in
      let (_, same, e₂) = bind-eq-ok (lift (same_artifacts found ds)) _ _ e₁ in
      let (_, _, e₃) = bind-eq-ok (check_downloaded w found.arm) _ _ e₂ in
      let (_, _, e₄) = bind-eq-ok (check_downloaded w found.arm64) _ _ e₃ in
      let is_remote : found ≡ remote = ok-injective (ap (λ q. q.0) e₄) in
      subst (λ r. (verify_manifest w body ≡ ok r) × (descriptors_eq r ds ≡ true)) is_remote
        (ap (λ q. q.0) verified, require-eq-ok _ _ (ap (λ q. q.0) same))

  draft_manifest-IsPublished :
      (release : Json) (tag : String) (ds : Descriptors) (h : List Event) {body : Bytes}
      {h' : List Event}
      → draft_manifest w release tag ds h ≡ (ok body, h')
      → IsPublished body ds
  unfolding draft_manifest
  draft_manifest-IsPublished release tag ds h {body} e =
      let (_, _, e₁) = bind-eq-ok (check_complete w release ds) _ h e in
      let (found, _, e₂) = bind-eq-ok (read_draft w tag ds) _ _ e₁ in
      let (remote, checked, e₃) = bind-eq-ok (check_draft w found ds) _ _ e₂ in
      let (_, _, e₄) = bind-eq-ok (gh w (publish_draft tag)) _ _ e₃ in
      let (_, read, e₅) = bind-eq-ok (readback_assets w remote) _ _ e₄ in
      let is_body : found ≡ body = ok-injective (ap (λ q. q.0) e₅) in
      let (verified, same) = check_draft-signed found ds _ checked in
      published body ds remote (subst (λ b. verify_manifest w b ≡ ok remote) is_body verified) same
        _ read

  manifest_of-IsPublished :
      (draft : Bool) (release : Json) (tag : String) (ds : Descriptors) (h : List Event)
      {body : Bytes} {h' : List Event}
      → manifest_of w draft release tag ds h ≡ (ok body, h')
      → IsPublished body ds
  manifest_of-IsPublished true release tag ds h e = draft_manifest-IsPublished release tag ds h e
  manifest_of-IsPublished false release tag ds h e = published_manifest-IsPublished tag ds h e

  -- When existing_manifest returns a manifest, for a draft or a public release, that manifest is
  -- signed for both architectures with descriptors equal to the candidate's, and GitHub has served
  -- both archives with their signed size and digest.
  pub existing_manifest-IsPublished :
      (release : Json) (tag : String) (ds : Descriptors) (h : List Event) {body : Bytes}
      {h' : List Event}
      → existing_manifest w release tag ds h ≡ (ok body, h')
      → IsPublished body ds
  unfolding existing_manifest
  existing_manifest-IsPublished release tag ds h e =
      let (draft, _, e₁) = bind-eq-ok (lift (is_draft release)) _ h e in
      manifest_of-IsPublished draft release tag ds _ e₁
