-- ===== src/Publish/Existing/Commands.antt =====
-- Which `gh` commands dealing with a release runs: none of them uploads anything.
use tailscale_koolshare.Common.{
  String, Bool, true, false, List, ◌∷◌, Option, none, some, ◌≢◌, arith, eq_iff,
}
use tailscale_koolshare.Python.Json.{Json}
use tailscale_koolshare.Publish.Action.{Bytes, World, gh}
use tailscale_koolshare.Publish.Action.Avoids.{
  Avoids, Avoids-bind, Avoids-lift, Avoids-pure, Avoids-gh, Avoids-downloaded, Avoids-Silent,
}
use tailscale_koolshare.Publish.Descriptor.{Descriptors}
use tailscale_koolshare.Publish.Remote.{remote_manifest, readback_assets}
use tailscale_koolshare.Publish.Remote.Readback.{Silent-readback_assets}
use tailscale_koolshare.Publish.Remote.Quiet.{Silent-remote_manifest}
use tailscale_koolshare.Publish.Existing.{
  matching, published_manifest, check_downloaded, check_complete, read_draft, check_draft,
  draft_manifest, publish_draft, manifest_of, existing_manifest,
}

-- The commands `gh release upload …`.
abbrev pub upload_of : List String → List String
upload_of rest = "release" ∷ "upload" ∷ rest

verb_ne :
    (a b : String) (s t : List String)
    → a ≢ b
    → ◌≢◌ {A = List String} ("release" ∷ a ∷ s) ("release" ∷ b ∷ t)
verb_ne a b s t differ e = differ cc

pub upload-ne-edit : (rest s : List String) → upload_of rest ≢ "release" ∷ "edit" ∷ s
upload-ne-edit rest s = verb_ne "upload" "edit" rest s (ground (arith, eq_iff "upload" "edit"))

pub upload-ne-create : (rest s : List String) → upload_of rest ≢ "release" ∷ "create" ∷ s
upload-ne-create rest s =
    verb_ne "upload" "create" rest s (ground (arith, eq_iff "upload" "create"))

upload-ne-download : (rest s : List String) → upload_of rest ≢ "release" ∷ "download" ∷ s
upload-ne-download rest s =
    verb_ne "upload" "download" rest s (ground (arith, eq_iff "upload" "download"))

module _ (w : World) (rest : List String) where
  pub NoUpload-readback_assets : (ds : Descriptors) → Avoids (upload_of rest) (readback_assets w ds)
  NoUpload-readback_assets ds =
      Avoids-Silent (upload_of rest) (readback_assets w ds) (Silent-readback_assets w ds)

  NoUpload-remote_manifest :
      (url : String) (b : Bool) → Avoids (upload_of rest) (remote_manifest w url b)
  NoUpload-remote_manifest url b =
      Avoids-Silent (upload_of rest) (remote_manifest w url b) (Silent-remote_manifest w url b)

  pub NoUpload-publish_draft : (tag : String) → Avoids (upload_of rest) (gh w (publish_draft tag))
  NoUpload-publish_draft tag =
      Avoids-gh (upload_of rest) w (publish_draft tag) (upload-ne-edit rest _)

  NoUpload-matching :
      (ds : Descriptors) (o : Option (Bytes × Descriptors))
      → Avoids (upload_of rest) (matching w ds o)
  unfolding matching
  NoUpload-matching ds none = record { at = λ h i. i }
  NoUpload-matching ds (some (body, remote)) =
      search (Avoids-bind, Avoids-lift, Avoids-pure, NoUpload-readback_assets)

  NoUpload-published_manifest :
      (tag : String) (ds : Descriptors) → Avoids (upload_of rest) (published_manifest w tag ds)
  unfolding published_manifest
  NoUpload-published_manifest tag ds =
      search (Avoids-bind, NoUpload-remote_manifest, NoUpload-matching)

  NoUpload-check_complete :
      (release : Json) (ds : Descriptors) → Avoids (upload_of rest) (check_complete w release ds)
  unfolding check_complete
  NoUpload-check_complete release ds = search (Avoids-bind, Avoids-lift)

  NoUpload-read_draft :
      (tag : String) (ds : Descriptors) → Avoids (upload_of rest) (read_draft w tag ds)
  unfolding read_draft
  NoUpload-read_draft tag ds =
      search (Avoids-bind, Avoids-lift, Avoids-gh, Avoids-downloaded, upload-ne-download) depth 8

  NoUpload-check_draft :
      (body : Bytes) (ds : Descriptors) → Avoids (upload_of rest) (check_draft w body ds)
  unfolding check_draft check_downloaded
  NoUpload-check_draft body ds =
      search (Avoids-bind, Avoids-lift, Avoids-pure, Avoids-downloaded) depth 8

  NoUpload-draft_manifest :
      (release : Json) (tag : String) (ds : Descriptors)
      → Avoids (upload_of rest) (draft_manifest w release tag ds)
  unfolding draft_manifest
  NoUpload-draft_manifest release tag ds =
      search
        (
          Avoids-bind, Avoids-pure, NoUpload-check_complete, NoUpload-read_draft,
          NoUpload-check_draft, NoUpload-publish_draft, NoUpload-readback_assets,
        )
        depth 9

  NoUpload-manifest_of :
      (draft : Bool) (release : Json) (tag : String) (ds : Descriptors)
      → Avoids (upload_of rest) (manifest_of w draft release tag ds)
  NoUpload-manifest_of true release tag ds = NoUpload-draft_manifest release tag ds
  NoUpload-manifest_of false release tag ds = NoUpload-published_manifest tag ds

  pub NoUpload-existing_manifest :
      (release : Json) (tag : String) (ds : Descriptors)
      → Avoids (upload_of rest) (existing_manifest w release tag ds)
  unfolding existing_manifest
  NoUpload-existing_manifest release tag ds =
      search (Avoids-bind, Avoids-lift, NoUpload-manifest_of)
