-- ===== src/Publish/Tests.antt =====
-- Runs of the publishing script, and the theorems at concrete inputs.
use mathlib.Core.List.{flatten}
use tailscale_koolshare.Common.{
  String, true, false, List, [], ◌∷◌, ◌≡◌, refl, ◌==◌, if◌then◌else◌, pos, inl, In, ◌⊎◌,
}
use tailscale_koolshare.Common.Outcome.{Result, ok, raise, http_error, runtime_error}
use tailscale_koolshare.Python.Interpreter.{Interpreter, ascii}
use tailscale_koolshare.Python.Text.{◌<>◌, split_on, after_last}
use tailscale_koolshare.Python.Number.{int_of}
use tailscale_koolshare.Python.Json.{
  Json, bool, int, str, arr, obj, cons, nil, field, end, item, get, lookup, text_item, as_str,
  json_eq, truthy,
}
use tailscale_koolshare.Toolchain.Version.{key_ltb, key_eqb}
use tailscale_koolshare.Publish.Action.{
  Bytes, Event, requested, slept, World, commands, write_file, write_text, gh, api, fetch, sleep,
  downloaded,
}
use tailscale_koolshare.Publish.Action.Laws.{Within}
use tailscale_koolshare.Publish.Descriptor.{
  Descriptors, descriptors_eq, same_artifacts, archive_file, exceeds, read_chunks, identity,
  verify_manifest, archive_matches, check_body, validate_archive, validate_archives,
  core_release_notes,
}
use tailscale_koolshare.Publish.Descriptor.Validated.{IsValidated, validate_archives-IsValidated}
use tailscale_koolshare.Publish.Release.{is_draft, uploaded_names, required_names, is_complete}
use tailscale_koolshare.Publish.Remote.{
  stable_url, release_by_tag, verified_body, remote_manifest, read_asset, after_attempt,
  readback_asset, readback_assets,
}
use tailscale_koolshare.Publish.Remote.Readback.{
  WasRead, readback_assets-WasRead, readback_assets-Within,
}
use tailscale_koolshare.Publish.Existing.{
  matching, published_manifest, check_downloaded, check_complete, read_draft, check_draft,
  draft_manifest, existing_manifest,
}
use tailscale_koolshare.Publish.Existing.Signed.{IsPublished, existing_manifest-IsPublished}
use tailscale_koolshare.Publish.Main.{
  Plan, upload_stable, check_current, read_stable, preflight, new_release, publish_release,
  ensure_stable, advance, main,
}
use tailscale_koolshare.Publish.Main.Safety.{IsSafePlan, main-IsSafePlan}
use tailscale_koolshare.Publish.Main.Advance.{IsAdvance, upload_stable-IsAdvance}

instance abbrev plain : Interpreter
plain = ascii

abbrev desc_for : String → String → Json
desc_for v arch = obj (
    field "version" (str v) (
      field "build" (str "r2") (
        field "source_commit" (str "abc") (
          field "url" (str ("https://example.org/core_" <> arch <> ".tar.gz"))
            (field "size" (int (pos 3)) (field "sha256" (str "digest") end))))))

abbrev pair_for : String → Descriptors
pair_for v = record { arm = desc_for v "arm"; arm64 = desc_for v "arm64" }

-- The manifest of the candidate is one byte, that of a feed with a later version two.
abbrev signed_by : Bytes → String → Result Json
signed_by (x ∷ y ∷ []) arch = ok (desc_for "1.10.0" arch)
signed_by body arch = ok (desc_for "1.9.0" arch)

abbrev local_file : String → Result Bytes
local_file name = if name == "manifest.json" then ok (7 ∷ []) else ok (1 ∷ 2 ∷ 3 ∷ [])

-- GitHub serves the archives in two chunks; the first answer to a read is an error.
abbrev serves : List Event → String → Result (List Bytes)
serves [] url = raise (http_error 503)
serves (e ∷ h) url =
    if url == stable_url then ok ((7 ∷ 8 ∷ []) ∷ []) else ok ((1 ∷ 2 ∷ []) ∷ (3 ∷ []) ∷ [])

abbrev world : (List Event → String → Result Json) → World
world answers = record {
  api = answers;
  fetch = serves;
  gh = λ h args. ok tt;
  downloaded = λ h name. local_file name;
  file = local_file;
  verify = signed_by;
  extract = λ body desc. ok tt;
  sha256 = λ body. "digest";
  commit = ok "0123";
  tags = "ts_omit_clientupdate" ∷ [];
}

-- Neither the release nor the feed exists.
abbrev new_world : World
new_world = world (λ h url. raise (http_error 404))

-- Both exist, and the feed has a later version.
abbrev later_world : World
later_world = world (λ h url. ok (obj (field "draft" (bool false) end)))

abbrev asset : String → Json
asset name = obj (field "state" (str "uploaded") (field "name" (str name) end))

abbrev draft : Json
draft = obj (
    field "draft" (bool true) (
      field "assets"
        (arr (
          cons (asset "core_arm.tar.gz") (
            cons (asset "core_arm64.tar.gz") (
              cons (asset "manifest.json")
                (cons (asset "SHA256SUMS") (cons (asset "build-metadata.json") nil))))))
        end))

-- Opens all that the runs below compute with.
opened : Unit {0}
unfolding as_str after_last flatten split_on int_of item json_eq get lookup text_item truthy key_ltb
    key_eqb commands write_file write_text gh api fetch sleep downloaded descriptors_eq
    same_artifacts archive_file exceeds read_chunks identity verify_manifest archive_matches
    check_body validate_archive validate_archives core_release_notes is_draft uploaded_names
    required_names is_complete release_by_tag verified_body remote_manifest read_asset after_attempt
    readback_asset readback_assets matching published_manifest check_downloaded check_complete
    read_draft check_draft draft_manifest existing_manifest check_current read_stable preflight
    new_release publish_release ensure_stable advance main
opened = tt

validated_test : validate_archives new_world ≡ ok (pair_for "1.9.0")
unfolding opened
validated_test = refl

readback_test : readback_assets new_world (pair_for "1.9.0") [] ≡ (
  ok tt,
  requested "https://example.org/core_arm64.tar.gz"
      ∷ requested "https://example.org/core_arm.tar.gz"
      ∷ slept 2
      ∷ requested "https://example.org/core_arm.tar.gz"
      ∷ [],
)
unfolding opened
readback_test = refl

downgrade_test : main later_world false [] ≡ (
  raise (runtime_error "refusing to downgrade the signed stable version/build"),
  (main later_world false []).1,
)
unfolding opened
downgrade_test = refl

existing_test :
    existing_manifest new_world draft "core-v1.9.0-r2" (pair_for "1.9.0") []
    ≡ (ok (7 ∷ []), (existing_manifest new_world draft "core-v1.9.0-r2" (pair_for "1.9.0") []).1)
unfolding opened
existing_test = refl

upload_test : In upload_stable (commands (main new_world false []).1)
unfolding opened
upload_test = inl refl

validate_archives_example :
    IsValidated new_world "arm" (desc_for "1.9.0" "arm")
    × IsValidated new_world "arm64" (desc_for "1.9.0" "arm64")
validate_archives_example =
    validate_archives-IsValidated new_world (pair_for "1.9.0") validated_test

readback_assets_example :
    WasRead new_world (desc_for "1.9.0" "arm") × WasRead new_world (desc_for "1.9.0" "arm64")
readback_assets_example = readback_assets-WasRead new_world (pair_for "1.9.0") [] readback_test

readback_assets-Within_example : Within 10 (readback_assets new_world (pair_for "1.9.0"))
readback_assets-Within_example = readback_assets-Within new_world (pair_for "1.9.0")

existing_manifest_example : IsPublished new_world (7 ∷ []) (pair_for "1.9.0")
existing_manifest_example =
    existing_manifest-IsPublished new_world draft "core-v1.9.0-r2" (pair_for "1.9.0") []
      existing_test

main_example :
    (commands (main later_world false []).1 ≡ [])
    ⊎ ((plan : Plan) × (preflight later_world [] ≡ (ok plan, (preflight later_world []).1))
        × (commands (preflight later_world []).1 ≡ [])
        × IsSafePlan later_world plan)
main_example = main-IsSafePlan later_world false

upload_stable_example : IsAdvance new_world false
upload_stable_example = upload_stable-IsAdvance new_world false upload_test
