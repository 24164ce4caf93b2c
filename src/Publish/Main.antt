-- ===== src/Publish/Main.antt =====
-- `main` of tools/publish_core.py.
pub mod Feed
pub mod Safety
pub mod Advance
use tailscale_koolshare.Common.{
  ℤ, String, Bool, true, false, not, ◌||◌, List, [], ◌∷◌, Option, none, some, if◌then◌else◌,
}
use tailscale_koolshare.Common.Outcome.{Result, ok, raise, runtime_error, require_else}
use tailscale_koolshare.Python.Interpreter.{Interpreter, to_str}
use tailscale_koolshare.Python.Text.{◌<>◌}
use tailscale_koolshare.Python.Json.{Json, item}
use tailscale_koolshare.Toolchain.Version.{key_ltb, key_eqb}
use tailscale_koolshare.Publish.Action.{
  Bytes, World, Action, ◌>>=◌, ◌>>◌, pure, fail, lift, continue, gh, write_file, write_text,
}
use tailscale_koolshare.Publish.Descriptor.{
  Descriptors, identity, descriptors_eq, same_artifacts, validate_archives, core_release_notes,
}
use tailscale_koolshare.Publish.Release.{is_draft}
use tailscale_koolshare.Publish.Remote.{
  stable_url, release_by_tag, remote_manifest, readback_assets,
}
use tailscale_koolshare.Publish.Existing.{publish_draft, existing_manifest}

-- What the script knows when it starts to write.
pub record Plan : Type 0 where
  pub descriptors : Descriptors
  pub tag : String
  pub release : Option Json
  pub stable : Option Json
  pub current : Option Descriptors

abbrev asset_file : String → String → String → String
asset_file version build arch =
    "build/core-release/tailscale-core_" <> version <> "_" <> build <> "_" <> arch <> ".tar.gz"

abbrev pub create_release : String → String → String → String → List String
create_release tag version build commit =
    "release"
    ∷ "create"
    ∷ tag
    ∷ asset_file version build "arm"
    ∷ asset_file version build "arm64"
    ∷ "build/core-release/manifest.json"
    ∷ "build/core-release/SHA256SUMS"
    ∷ "build/core-release/build-metadata.json"
    ∷ "--draft"
    ∷ "--target"
    ∷ commit
    ∷ "--title"
    ∷ ("core-" <> version <> "-" <> build)
    ∷ "--notes-file"
    ∷ "build/core-release/release-notes.md"
    ∷ "--latest=false"
    ∷ []

abbrev stable_notes : String
stable_notes =
    "供插件页面“检查更新”读取的签名索引。\n\n插件安装包请从[最新发行版](https://github.com/thetapilla/tailscale-koolshare/releases/latest)下载。\n"

abbrev pub create_stable : String → List String
create_stable commit =
    "release" ∷ "create" ∷ "core-stable" ∷ "--target" ∷ commit ∷ "--title" ∷ "Core feed" ∷ "--notes"
    ∷ stable_notes ∷ "--latest=false" ∷ []

-- The command that moves the stable feed.
abbrev pub upload_stable : List String
upload_stable = "release" ∷ "upload" ∷ "core-stable" ∷ "temporary/manifest.json" ∷ "--clobber" ∷ []

abbrev pub second : Option (Bytes × Descriptors) → Option Descriptors
second none = none
second (some (body, ds)) = some ds

abbrev pub is_current : Option Descriptors → Descriptors → Bool
is_current none ds = false
is_current (some current) ds = descriptors_eq current ds

module _ ⦃py : Interpreter⦄ (w : World) where
  -- The feed never goes back, and a version and build that it has stays what it is.
  unfoldable pub check_current : Descriptors → Option Descriptors → Action (Unit {0})
  check_current ds none = pure tt
  check_current ds (some current) = do
    ours ← lift (identity ds.arm)
    theirs ← lift (identity current.arm)
    lift (
        require_else (not (key_ltb ours theirs))
          (runtime_error "refusing to downgrade the signed stable version/build"))
    lift (if key_eqb ours theirs then same_artifacts current ds else ok tt)

  unfoldable pub read_stable : Descriptors → Option Json → Action (Option Descriptors)
  read_stable ds none = pure none
  read_stable ds (some stable) = do
    draft ← lift (is_draft stable)
    lift (
        require_else (not draft)
          (runtime_error "stable feed release is a draft; manually resolve it before retrying"))
    found ← remote_manifest w stable_url true
    check_current ds (second found)
    pure (second found)

  -- All that the script reads before its first command.
  unfoldable pub preflight : Action Plan
  preflight = do
    ds ← lift (validate_archives w)
    version ← lift (item "version" ds.arm)
    build ← lift (item "build" ds.arm)
    let tag = "core-v" <> to_str version <> "-" <> to_str build
    release ← release_by_tag w tag
    stable ← release_by_tag w "core-stable"
    current ← read_stable ds stable
    pure (record {
      descriptors = ds;
      tag = tag;
      release = release;
      stable = stable;
      current = current;
    })

  unfoldable pub new_release : String → Descriptors → Action Bytes
  new_release tag ds = do
    version ← lift (item "version" ds.arm)
    build ← lift (item "build" ds.arm)
    notes ← lift (core_release_notes w.tags ds.arm)
    write_text "release-notes.md" notes
    commit ← lift w.commit
    gh w (create_release tag (to_str version) (to_str build) commit)
    gh w (publish_draft tag)
    readback_assets w ds
    lift (w.file "manifest.json")

  unfoldable pub publish_release : String → Descriptors → Option Json → Action Bytes
  publish_release tag ds none = new_release tag ds
  publish_release tag ds (some release) = existing_manifest w release tag ds

  unfoldable pub ensure_stable : Option Json → Action (Unit {0})
  ensure_stable (some stable) = pure tt
  ensure_stable none = do commit ← lift w.commit; gh w (create_stable commit)

  unfoldable pub advance : Bytes → Option Json → Bool → Action (Unit {0})
  advance envelope stable true = pure tt
  advance envelope stable false = do
    ensure_stable stable
    write_file "manifest.json" envelope
    gh w upload_stable

  unfoldable pub main : Bool → Action (Unit {0})
  main release_only = do
    plan ← preflight
    envelope ← publish_release plan.tag plan.descriptors plan.release
    advance envelope plan.stable (release_only || is_current plan.current plan.descriptors)
