-- ===== src/Resolve/Published.antt =====
-- `published_lock` of tools/resolve_core.py.
pub mod Signed
use mathlib.Core.List.{flatten}
use tailscale_koolshare.Common.{
  ℕ, ◌+◌, ◌*◌, String, Bool, true, false, not, ◌&&◌, List, [], ◌∷◌, Option, none, some, take,
  length, ltb,
}
use tailscale_koolshare.Common.Outcome.{Result, value_error, require}
use tailscale_koolshare.Python.Interpreter.{Interpreter}
use tailscale_koolshare.Python.Text.{◌<>◌}
use tailscale_koolshare.Python.Json.{Json, int, str, json_eq, item, get}
use tailscale_koolshare.Publish.Action.{
  Bytes, World, Action, ◌>>=◌, ◌>>◌, pure, lift, gh, fetch, downloaded,
}
use tailscale_koolshare.Publish.Descriptor.{Descriptors, max_manifest, verify_manifest}
use tailscale_koolshare.Publish.Release.{is_draft}
use tailscale_koolshare.Publish.Remote.{release_by_tag, download_url}
use tailscale_koolshare.Signing.Metadata.{Library, lock_hash, has_key}
use tailscale_koolshare.CoreLock.Lock.{Recipe, validate_lock}
use tailscale_koolshare.Resolve.Check.{is_two, check_descriptor, metadata_lock}

unfoldable pub core_tag : String → String → String
core_tag version build = "core-v" <> version <> "-" <> build

abbrev pub max_metadata : ℕ
max_metadata = 1024 * 1024

abbrev pub download_command : String → List String
download_command tag =
    "release" ∷ "download" ∷ tag ∷ "--dir" ∷ "temporary" ∷ "--pattern" ∷ "manifest.json"
    ∷ "--pattern" ∷ "build-metadata.json" ∷ []

-- `helper` is whether there is a verifier, `loads` is `json.loads`.
module _ (w : World) (lib : Library) (recipe : Recipe) (loads : Bytes → Result Json)
    (helper : Bool) where
  -- The manifest and the metadata, by whether the release is a draft.
  unfoldable pub published_files : Bool → String → Action (Bytes × Json)
  published_files true tag = do
    gh w (download_command tag)
    envelope ← downloaded w "manifest.json"
    raw ← downloaded w "build-metadata.json"
    metadata ← lift (loads raw)
    pure (envelope, metadata)
  published_files false tag = do
    envelope ← fetch w (download_url (tag <> "/manifest.json"))
    chunks ← fetch w (download_url (tag <> "/build-metadata.json"))
    let raw = take (max_metadata + 1) (flatten chunks)
    lift (require (not (ltb max_metadata (length raw))) "published metadata exceeds size limit")
    metadata ← lift (loads raw)
    pure (take (max_manifest + 1) (flatten envelope), metadata)

  -- The lock of a release that is there.
  unfoldable pub release_lock : ⦃py : Interpreter⦄ → String → String → Json → Action Json
  release_lock version build release = do
    lift (require helper "a verifier is required to reuse a published dependency lock")
    draft ← lift (is_draft release)
    files ← published_files draft (core_tag version build)
    descriptors ← lift (verify_manifest w files.0)
    lift (metadata_lock lib version build recipe files.1 descriptors)

  unfoldable pub lock_if : ⦃py : Interpreter⦄ → String → String → Option Json → Action (Option Json)
  lock_if version build none = pure none
  lock_if version build (some release) = do
    lock ← release_lock version build release
    pure (some lock)

  unfoldable pub published_lock : ⦃py : Interpreter⦄ → String → String → Action (Option Json)
  published_lock version build = do
    release ← release_by_tag w (core_tag version build)
    lock_if version build release
