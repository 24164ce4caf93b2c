-- ===== src/Publish/Existing.antt =====
-- `existing_manifest` of tools/publish_core.py: a release that is there already is never changed,
-- and must hold what the local candidate holds.
pub mod Signed
pub mod Commands
use tailscale_koolshare.Common.{String, Bool, true, false, List, [], ◌∷◌, Option, none, some}
use tailscale_koolshare.Common.Outcome.{
  Result, ok, raise, value_error, runtime_error, require, require_else,
}
use tailscale_koolshare.Python.Text.{◌<>◌}
use tailscale_koolshare.Python.Json.{Json}
use tailscale_koolshare.Publish.Action.{
  Bytes, World, Action, ◌>>=◌, ◌>>◌, pure, fail, lift, continue, gh, downloaded,
}
use tailscale_koolshare.Publish.Descriptor.{
  Descriptors, same_artifacts, archive_file, archive_matches, verify_manifest,
}
use tailscale_koolshare.Publish.Release.{is_draft, required_names, is_complete}
use tailscale_koolshare.Publish.Remote.{download_url, remote_manifest, readback_assets}

-- The command that takes a draft out of draft state.
abbrev pub publish_draft : String → List String
publish_draft tag = "release" ∷ "edit" ∷ tag ∷ "--draft=false" ∷ "--latest=false" ∷ []

abbrev pub download_draft : String → String → String → List String
download_draft tag arm arm64 =
    "release" ∷ "download" ∷ tag ∷ "--dir" ∷ "temporary" ∷ "--pattern" ∷ "manifest.json"
    ∷ "--pattern" ∷ arm ∷ "--pattern" ∷ arm64 ∷ []

module _ (w : World) where
  -- What a public manifest must be: missing is a failure here.
  unfoldable pub matching : Descriptors → Option (Bytes × Descriptors) → Action Bytes
  matching ds none = fail (value_error "existing signed release differs from the local candidate")
  matching ds (some (body, remote)) = do
    lift (same_artifacts remote ds)
    readback_assets w remote
    pure body

  unfoldable pub published_manifest : String → Descriptors → Action Bytes
  published_manifest tag ds = do
    found ← remote_manifest w (download_url (tag <> "/manifest.json")) false
    matching ds found

  unfoldable pub check_downloaded : Json → Action (Unit {0})
  check_downloaded desc = do
    name ← lift (archive_file desc)
    archive ← downloaded w name
    matches ← lift (archive_matches w archive desc)
    lift (require matches "draft archive differs from signed manifest")

  unfoldable pub check_complete : Json → Descriptors → Action (Unit {0})
  check_complete release ds = do
    required ← lift (required_names ds)
    complete ← lift (is_complete release required)
    lift (
        require_else complete (
          runtime_error
            "existing draft release is incomplete; manually remove the incomplete draft before retrying"))

  unfoldable pub read_draft : String → Descriptors → Action Bytes
  read_draft tag ds = do
    arm ← lift (archive_file ds.arm)
    arm64 ← lift (archive_file ds.arm64)
    gh w (download_draft tag arm arm64)
    downloaded w "manifest.json"

  -- The manifest's descriptors, once the draft's archives have been compared with them.
  unfoldable pub check_draft : Bytes → Descriptors → Action Descriptors
  check_draft body ds = do
    remote ← lift (verify_manifest w body)
    lift (same_artifacts remote ds)
    check_downloaded remote.arm
    check_downloaded remote.arm64
    pure remote

  unfoldable pub draft_manifest : Json → String → Descriptors → Action Bytes
  draft_manifest release tag ds = do
    check_complete release ds
    body ← read_draft tag ds
    remote ← check_draft body ds
    gh w (publish_draft tag)
    readback_assets w remote
    pure body

  abbrev pub manifest_of : Bool → Json → String → Descriptors → Action Bytes
  manifest_of true release tag ds = draft_manifest release tag ds
  manifest_of false release tag ds = published_manifest tag ds

  unfoldable pub existing_manifest : Json → String → Descriptors → Action Bytes
  existing_manifest release tag ds = do
    draft ← lift (is_draft release)
    manifest_of draft release tag ds
