-- ===== src/Bundle/Stage.antt =====
-- What `prepare` of tools/prepare_bundle.py collects and checks in its temporary directory.
pub mod Entries
pub mod Assets
pub mod Verified
use tailscale_koolshare.Common.{
  ℕ, String, Bool, true, false, ◌&&◌, List, [], ◌∷◌, Option, none, some,
}
use tailscale_koolshare.Common.Outcome.{
  Result, ok, raise, ◌>>=◌, ◌>>◌, value_error, type_error, os_error, require, from_option, for_each,
}
use tailscale_koolshare.Python.Text.{◌<>◌}
use tailscale_koolshare.Python.Json.{Json, obj, str, fields, json_eq, item, text_item}
use tailscale_koolshare.Files.{Node, file, Tree, find_node, put_node}
use tailscale_koolshare.Build.Download.{Files, Response, download}
use tailscale_koolshare.Publish.Descriptor.{archive_file}

-- The verifier, the answers to requests, SHA-256, and the files of the local release directory
-- where one is given.
pub record Sources : Type 0 where
  pub release_dir : Option (String → Result (List ℕ))
  pub answer : String → Result Response
  pub sha256 : List ℕ → String
  -- `tsks-helper verify` of a manifest for an architecture
  pub verify : List ℕ → String → Result Json
  -- `tsks-helper extract`: the directory that it makes of an archive by its descriptor
  pub extract : List ℕ → Json → Result Tree

-- An architecture, staged.
pub record Staged : Type 0 where
  pub descriptor : Json
  pub core : Tree

-- All that is staged; the assets are the manifest, the archives and their sums.
pub record Stage : Type 0 where
  pub arm : Staged
  pub arm64 : Staged
  pub assets : Tree

unfoldable pub base_url : String → String → String
base_url version build =
    "https://github.com/thetapilla/tailscale-koolshare/releases/download/core-v" <> version <> "-"
    <> build <> "/"

abbrev pub put_asset : String → List ℕ → Tree → Tree
put_asset name body assets = put_node (name ∷ []) (file 420 body) assets

abbrev pub body_of : Option Node → Option (List ℕ)
body_of (some (file mode body)) = some body
body_of _ = none

unfoldable pub asset : String → Tree → Option (List ℕ)
asset name assets = body_of (find_node (name ∷ []) assets)

-- `any(descriptor[key] != identity[key] for key in identity)`
unfoldable pub check_pin_entry : Json → String × Json → Result (Unit {0})
check_pin_entry descriptor (key, value) = do
  found ← item key descriptor
  require (json_eq found value) "signed core differs from the bundled core pin"

abbrev pub entries : Json → List (String × Json)
entries (obj fs) = fields fs
entries _ = []

unfoldable pub check_pin : Json → String → Json → Result (Unit {0})
check_pin identity arch descriptor = do
  for_each (check_pin_entry descriptor) (entries identity)
  its_arch ← item "arch" descriptor
  require (json_eq its_arch (str arch)) "signed core differs from the bundled core pin"

abbrev pub provenance : List String
provenance = "version" ∷ "build" ∷ "source_commit" ∷ "recipe_sha256" ∷ []

unfoldable pub check_same : Json → Json → String → Result (Unit {0})
check_same arm arm64 key = do
  ours ← item key arm
  theirs ← item key arm64
  require (json_eq ours theirs) "bundled architectures have different signed provenance"

-- A line of SHA256SUMS.
unfoldable pub sum_line : Json → Result String
sum_line descriptor = do
  sha256 ← text_item "sha256" descriptor
  name ← archive_file descriptor
  ok (sha256 <> "  " <> name <> "\n")

-- `encode` is the encoding of a text in UTF-8.
module _ (encode : String → List ℕ) (s : Sources) where
  -- A download to a file of the directory, by its contents so far.
  unfoldable pub fetch_asset : String → Option String → Option (List ℕ) → Result (List ℕ)
  fetch_asset url expected present =
      let (answer, files) =
        download s.sha256 expected (s.answer url) (record { dest = present; partial = none }) in
      answer >>= λ _. from_option os_error files.dest

  unfoldable pub manifest_from : Option (String → Result (List ℕ)) → String → Result (List ℕ)
  manifest_from (some local) base = local "manifest.json"
  manifest_from none base = fetch_asset (base <> "manifest.json") none none

  unfoldable pub archive_from :
      Option (String → Result (List ℕ)) → Json → String → Tree → Result (List ℕ)
  archive_from (some local) descriptor name assets = local name
  archive_from none descriptor name assets = do
    url ← text_item "url" descriptor
    sha256 ← text_item "sha256" descriptor
    fetch_asset url (some sha256) (asset name assets)

  -- A round of the loop over the architectures, with the assets after it.
  unfoldable pub stage_arch : Json → String → Tree → Result (Staged × Tree)
  stage_arch identity arch assets = do
    manifest ← from_option os_error (asset "manifest.json" assets)
    descriptor ← s.verify manifest arch
    check_pin identity arch descriptor
    name ← archive_file descriptor
    archive ← archive_from s.release_dir descriptor name assets
    core ← s.extract archive descriptor
    ok (record { descriptor = descriptor; core = core }, put_asset name archive assets)

  unfoldable pub stage_all : Json → Result Stage
  stage_all identity = do
    version ← text_item "version" identity
    build ← text_item "build" identity
    manifest ← manifest_from s.release_dir (base_url version build)
    arm ← stage_arch identity "arm" (put_asset "manifest.json" manifest [])
    arm64 ← stage_arch identity "arm64" arm.1
    for_each (check_same arm.0.descriptor arm64.0.descriptor) provenance
    arm_line ← sum_line arm.0.descriptor
    arm64_line ← sum_line arm64.0.descriptor
    ok (record {
      arm = arm.0;
      arm64 = arm64.0;
      assets = put_asset "SHA256SUMS" (encode (arm_line <> arm64_line)) arm64.1;
    })
