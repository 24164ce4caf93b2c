-- ===== src/Bundle/Stage/Verified.antt =====
-- What is known of a staged core.
use tailscale_koolshare.Common.{ℕ, String, true, List, [], some, ◌≡◌, refl, sym, ap, ◌∙◌, subst}
use tailscale_koolshare.Common.Outcome.{
  Result, ok, raise, ◌>>=◌, for_each, from_option, os_error, >>=-eq-ok, >>-eq-ok, require-eq-ok,
  ok-injective, from_option-eq-ok,
}
use tailscale_koolshare.Python.Text.{◌<>◌, after_last}
use tailscale_koolshare.Python.Json.{Json, str, json_eq, item, text_item}
use tailscale_koolshare.Python.Json.Laws.{At, json_eq-str, text_item-eq-ok}
use tailscale_koolshare.Files.{Tree}
use tailscale_koolshare.Publish.Descriptor.{archive_file}
use tailscale_koolshare.Signing.Bound.{for_each-All}
use tailscale_koolshare.Bundle.Stage.{
  Sources, Staged, Stage, base_url, put_asset, asset, check_pin_entry, entries, check_pin,
  provenance, check_same, sum_line, manifest_from, archive_from, stage_arch, stage_all,
}
use tailscale_koolshare.Bundle.Stage.Entries.{entries-At}
use tailscale_koolshare.Bundle.Stage.Assets.{
  IsManifest, same_assets, first_manifest, asset-put_asset,
}

-- An entry of a dict that is equal to a value.
pub record HasEntry (v : Json) (entry : String × Json) : Type 0 where
  pub found : Json
  pub at : At entry.0 v found
  pub same : json_eq found entry.1 ≡ true

-- The signed descriptor of the pinned core for an architecture, with every entry of the pin, and
-- what the archive that it names holds.
pub record IsVerified (s : Sources) (identity : Json) (arch : String) (manifest : List ℕ)
    (staged : Staged) : Type 0 where
  pub verified : s.verify manifest arch ≡ ok staged.descriptor
  pub pinned :
      (key : String) (value : Json)
      → At key identity value
      → HasEntry staged.descriptor (key, value)
  pub is_arch : At "arch" staged.descriptor (str arch)
  pub url : String
  pub name : String
  pub archive : List ℕ
  pub at_url : At "url" staged.descriptor (str url)
  pub is_name : after_last b'/' url ≡ some name
  pub extracted : s.extract archive staged.descriptor ≡ ok staged.core

-- Two descriptors that agree on an entry.
pub record Agree (arm arm64 : Json) (key : String) : Type 0 where
  pub ours : Json
  pub theirs : Json
  pub in_arm : At key arm ours
  pub in_arm64 : At key arm64 theirs
  pub same : json_eq ours theirs ≡ true

-- Both architectures, and the release: the manifest, the archives that were extracted, and their
-- sums.
pub record IsStaged (encode : String → List ℕ) (s : Sources) (identity : Json) (stage : Stage)
    : Type 0 where
  pub manifest : List ℕ
  pub later_manifest : List ℕ
  pub arm : IsVerified s identity "arm" manifest stage.arm
  pub arm64 : IsVerified s identity "arm64" later_manifest stage.arm64
  pub is_manifest : IsManifest manifest arm.archive arm.name later_manifest
  pub same_version : Agree stage.arm.descriptor stage.arm64.descriptor "version"
  pub same_build : Agree stage.arm.descriptor stage.arm64.descriptor "build"
  pub same_commit : Agree stage.arm.descriptor stage.arm64.descriptor "source_commit"
  pub same_recipe : Agree stage.arm.descriptor stage.arm64.descriptor "recipe_sha256"
  pub sum : String
  pub sum64 : String
  pub at_sum : At "sha256" stage.arm.descriptor (str sum)
  pub at_sum64 : At "sha256" stage.arm64.descriptor (str sum64)
  pub assets :
      stage.assets
      ≡ put_asset "SHA256SUMS"
          (encode ((sum <> "  " <> arm.name <> "\n") <> (sum64 <> "  " <> arm64.name <> "\n")))
          (put_asset arm64.name arm64.archive
            (put_asset arm.name arm.archive (put_asset "manifest.json" manifest [])))

check_pin_entry-HasEntry :
    (d : Json) (e : String × Json) → check_pin_entry d e ≡ ok tt → HasEntry d e
unfolding check_pin_entry
check_pin_entry-HasEntry d (key, value) h =
    let (found, at, h₁) = >>=-eq-ok (item key d) _ h in
    record { found = found; at = at; same = require-eq-ok _ _ h₁ }

check_same-Agree :
    (arm arm64 : Json) (key : String) → check_same arm arm64 key ≡ ok tt → Agree arm arm64 key
unfolding check_same
check_same-Agree arm arm64 key h =
    let (ours, in_arm, h₁) = >>=-eq-ok (item key arm) _ h in
    let (theirs, in_arm64, h₂) = >>=-eq-ok (item key arm64) _ h₁ in
    record {
      ours = ours;
      theirs = theirs;
      in_arm = in_arm;
      in_arm64 = in_arm64;
      same = require-eq-ok _ _ h₂;
    }

archive_file-eq-ok :
    (d : Json) {name : String}
    → archive_file d ≡ ok name
    → (url : String) × At "url" d (str url) × (after_last b'/' url ≡ some name)
unfolding archive_file
archive_file-eq-ok d h =
    let (url, at_url, h₁) = >>=-eq-ok (text_item "url" d) _ h in
    (url, text_item-eq-ok "url" d at_url, from_option-eq-ok _ _ h₁)

module _ (encode : String → List ℕ) (s : Sources) (identity : Json) where
  stage_arch-IsVerified :
      (arch : String) (assets : Tree) {staged : Staged} {after : Tree}
      → stage_arch encode s identity arch assets ≡ ok (staged, after)
      → (manifest : List ℕ) × (v : IsVerified s identity arch manifest staged) × (asset
            "manifest.json" assets
          ≡ some manifest)
        × (archive_file staged.descriptor ≡ ok v.name)
        × (after ≡ put_asset v.name v.archive assets)
  unfolding stage_arch check_pin
  stage_arch-IsVerified arch assets {staged} {after} h =
      let (manifest, read, h₁) =
        >>=-eq-ok (from_option os_error (asset "manifest.json" assets)) _ h in
      let (descriptor, verified, h₂) = >>=-eq-ok (s.verify manifest arch) _ h₁ in
      let (pinned, h₃) = >>-eq-ok (check_pin identity arch descriptor) _ h₂ in
      let (entries_pinned, h_arch) =
        >>-eq-ok (for_each (check_pin_entry descriptor) (entries identity)) _ pinned in
      let (its_arch, at_arch, same_arch) = >>=-eq-ok (item "arch" descriptor) _ h_arch in
      let (name, named, h₄) = >>=-eq-ok (archive_file descriptor) _ h₃ in
      let (url, at_url, is_name) = archive_file-eq-ok descriptor named in
      let (archive, _, h₅) =
        >>=-eq-ok (archive_from encode s s.release_dir descriptor name assets) _ h₄ in
      let (core, extracted, h₆) = >>=-eq-ok (s.extract archive descriptor) _ h₅ in
      let found : Staged = record { descriptor = descriptor; core = core } in
      let v : IsVerified s identity arch manifest found = record {
        verified = verified;
        pinned = entries-At (HasEntry descriptor) identity (
            for_each-All (check_pin_entry descriptor) (check_pin_entry-HasEntry descriptor)
              (entries identity) entries_pinned);
        is_arch = at_arch ∙ ap ok (json_eq-str its_arch arch (require-eq-ok _ _ same_arch));
        url = url;
        name = name;
        archive = archive;
        at_url = at_url;
        is_name = is_name;
        extracted = extracted;
      } in
      subst
        (λ p.
          (m : List ℕ) × (u : IsVerified s identity arch m p.0) × (asset "manifest.json" assets
            ≡ some m)
          × (archive_file p.0.descriptor ≡ ok u.name)
          × (p.1 ≡ put_asset u.name u.archive assets))
        (ok-injective h₆) (manifest, v, from_option-eq-ok _ _ read, named, refl)

  line_of :
      (r : Result String) (sum : String) {name line : String}
      → (r >>= λ n. ok (sum <> "  " <> n <> "\n")) ≡ ok line
      → r ≡ ok name
      → line ≡ sum <> "  " <> name <> "\n"
  line_of (ok n) sum h e =
      sym (ok-injective h) ∙ ap (λ x. sum <> "  " <> x <> "\n") (ok-injective e)
  line_of (raise x) sum h e = cc

  sum_line-eq-ok :
      (d : Json) {name line : String}
      → archive_file d ≡ ok name
      → sum_line d ≡ ok line
      → (sum : String) × At "sha256" d (str sum) × (line ≡ sum <> "  " <> name <> "\n")
  unfolding sum_line
  sum_line-eq-ok d named h =
      let (sum, at_sum, h₁) = >>=-eq-ok (text_item "sha256" d) _ h in
      (sum, text_item-eq-ok "sha256" d at_sum, line_of (archive_file d) sum h₁ named)

  pub stage_all-IsStaged :
      (stage : Stage) → stage_all encode s identity ≡ ok stage → IsStaged encode s identity stage
  unfolding stage_all
  stage_all-IsStaged stage h =
      let (version, _, h₁) = >>=-eq-ok (text_item "version" identity) _ h in
      let (build, _, h₂) = >>=-eq-ok (text_item "build" identity) _ h₁ in
      let (manifest, _, h₃) =
        >>=-eq-ok (manifest_from encode s s.release_dir (base_url version build)) _ h₂ in
      let start = put_asset "manifest.json" manifest [] in
      let (arm, staged_arm, h₄) = >>=-eq-ok (stage_arch encode s identity "arm" start) _ h₃ in
      let (arm64, staged_arm64, h₅) = >>=-eq-ok (stage_arch encode s identity "arm64" arm.1) _ h₄ in
      let (same, h₆) =
        >>-eq-ok (for_each (check_same arm.0.descriptor arm64.0.descriptor) provenance) _ h₅ in
      let (line, lined, h₇) = >>=-eq-ok (sum_line arm.0.descriptor) _ h₆ in
      let (line64, lined64, h₈) = >>=-eq-ok (sum_line arm64.0.descriptor) _ h₇ in
      let (m, v, read, named, after) = stage_arch-IsVerified "arm" start staged_arm in
      let (m64, v64, read64, named64, after64) = stage_arch-IsVerified "arm64" arm.1 staged_arm64 in
      let first : m ≡ manifest = first_manifest manifest read in
      let later =
        asset-put_asset v.name v.archive manifest
          (subst (λ t. asset "manifest.json" t ≡ some m64) after read64) in
      let (sum, at_sum, is_line) = sum_line-eq-ok arm.0.descriptor named lined in
      let (sum64, at_sum64, is_line64) = sum_line-eq-ok arm64.0.descriptor named64 lined64 in
      let (same_version, (same_build, (same_commit, (same_recipe, _)))) =
        for_each-All (check_same arm.0.descriptor arm64.0.descriptor)
          (check_same-Agree arm.0.descriptor arm64.0.descriptor) provenance same in
      subst (IsStaged encode s identity) (ok-injective h₈) (record {
        manifest = m;
        later_manifest = m64;
        arm = v;
        arm64 = v64;
        is_manifest = subst (λ x. IsManifest x v.archive v.name m64) (sym first) later;
        same_version = same_version;
        same_build = same_build;
        same_commit = same_commit;
        same_recipe = same_recipe;
        sum = sum;
        sum64 = sum64;
        at_sum = at_sum;
        at_sum64 = at_sum64;
        assets = same_assets encode is_line is_line64 (
            after64
            ∙ ap (put_asset v64.name v64.archive) (
                after
                ∙ ap (λ x. put_asset v.name v.archive (put_asset "manifest.json" x []))
                    (sym first)));
      })
