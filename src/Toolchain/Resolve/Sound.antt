-- ===== src/Toolchain/Resolve/Sound.antt =====
-- What a lock that `resolve_go` returns has to do with the source tree and the catalog.
use tailscale_koolshare.Common.{◌≡◌, refl, ◌∙◌, ap, sym, subst, String, true, List, [], ◌∷◌, keep}
use tailscale_koolshare.Common.Outcome.{ok, require, traverse, >>=-eq-ok, >>-eq-ok, require-eq-ok}
use tailscale_koolshare.Python.Interpreter.{Interpreter, to_str}
use tailscale_koolshare.Python.Text.{◌<>◌}
use tailscale_koolshare.Python.Json.{Json, bool, str, arr, obj, field, end, items}
use tailscale_koolshare.Toolchain.Version.{max_by_key}
use tailscale_koolshare.Toolchain.Version.Greatest.{IsGreatest, max_by_key-IsGreatest}
use tailscale_koolshare.Toolchain.Requirements.{Requirements, requirements, requirements_json}
use tailscale_koolshare.Toolchain.Lock.{arches}
use tailscale_koolshare.Toolchain.Lock.Valid.{IsGoLock, validate_go_lock_sound}
use tailscale_koolshare.Toolchain.Resolve.{
  required_versions, entry_is, entry, is_true, as_list, the_only, is_archive_of, lock_json,
  to_fields, resolve_archive, resolve_go,
}

-- The lock's entry that a file of the catalog gives.
abbrev pub locked_file : ⦃py : Interpreter⦄ → Json → Json
locked_file found = obj (
    field "filename" (entry "filename" found) (
      field "url" (str ("https://go.dev/dl/" <> to_str (entry "filename" found)))
        (field "sha256" (entry "sha256" found) (field "size" (entry "size" found) end))))

the_only-eq-ok :
    (message : String) (vs : List Json) {v : Json} → the_only message vs ≡ ok v → vs ≡ v ∷ []
the_only-eq-ok message [] h = cc
the_only-eq-ok message (v ∷ []) h = cc
the_only-eq-ok message (v ∷ w ∷ vs) h = cc

is_true-eq : (v : Json) → is_true v ≡ true → v ≡ bool true
is_true-eq (bool true) h = refl
is_true-eq v h = cc

as_list-eq-ok :
    (message : String) (v : Json) {vs : List Json}
    → as_list message v ≡ ok vs
    → (is : _) × (v ≡ arr is) × (items is ≡ vs)
as_list-eq-ok message (arr is) h = (is, refl, cc)
as_list-eq-ok message v h = cc

module _ ⦃py : Interpreter⦄ where
  -- The only Linux archive of the architecture among a release's files, of the release's version.
  pub record IsChosenFile (v : String) (files : List Json) (arch : String) (found : Json)
      : Type 0 where
    pub only : keep (is_archive_of arch) files ≡ found ∷ []
    pub of_release : entry_is "version" ("go" <> v) found ≡ true

  -- The chosen version is the greatest one required; the catalog has one release of it, which is
  -- marked stable; and the lock holds the release's only archive for each Linux host.
  pub record IsResolved (go_mod upstream catalog lock : Json) : Type 0 where
    pub required : Requirements
    pub parsed : requirements go_mod upstream ≡ ok required
    pub chosen : String
    pub greatest : IsGreatest chosen (required_versions required)
    pub entries : List Json
    pub listed : (m : String) → as_list m catalog ≡ ok entries
    pub release : Json
    pub unique : keep (entry_is "version" ("go" <> chosen)) entries ≡ release ∷ []
    pub stable : entry "stable" release ≡ bool true
    pub files : List Json
    pub has_files : (m : String) → as_list m (entry "files" release) ≡ ok files
    pub amd64 : Json
    pub arm64 : Json
    pub is_amd64 : IsChosenFile chosen files "amd64" amd64
    pub is_arm64 : IsChosenFile chosen files "arm64" arm64
    pub locked :
        lock
        ≡ lock_json chosen
            (requirements_json required)
            (obj (field "amd64" (locked_file amd64) (field "arm64" (locked_file arm64) end)))
    pub valid : IsGoLock lock

  resolve_archive_sound :
      (v : String) (files : List Json) (arch : String) {e : String × Json}
      → resolve_archive v files arch ≡ ok e
      → (found : Json) × IsChosenFile v files arch found × (e ≡ (arch, locked_file found))
  unfolding resolve_archive
  resolve_archive_sound v files arch h =
      let (found, only, h₁) = >>=-eq-ok (the_only _ (keep (is_archive_of arch) files)) _ h in
      let (same, h₂) = >>-eq-ok (require _ _) _ h₁ in
      (found, record { only = the_only-eq-ok _ _ only; of_release = require-eq-ok _ _ same }, cc)

  archives_sound :
      (v : String) (files : List Json) (archives : List (String × Json))
      → traverse (resolve_archive v files) arches ≡ ok archives
      → (amd64 : Json) × (arm64 : Json) × IsChosenFile v files "amd64" amd64
        × IsChosenFile v files "arm64" arm64
        × (archives ≡ ("amd64", locked_file amd64) ∷ ("arm64", locked_file arm64) ∷ [])
  archives_sound v files archives h =
      let (first, first_ok, h₁) = >>=-eq-ok (resolve_archive v files "amd64") _ h in
      let (rest, rest_ok, h₂) =
        >>=-eq-ok (traverse (resolve_archive v files) ("arm64" ∷ [])) _ h₁ in
      let (second, second_ok, h₃) = >>=-eq-ok (resolve_archive v files "arm64") _ rest_ok in
      let (amd64, is_amd64, e₁) = resolve_archive_sound v files "amd64" first_ok in
      let (arm64, is_arm64, e₂) = resolve_archive_sound v files "arm64" second_ok in
      let tail : rest ≡ second ∷ [] = cc in
      let both : archives ≡ first ∷ rest = cc in (amd64, arm64, is_amd64, is_arm64, both ∙ cc)

  as_list_any :
      (m : String) (v : Json) {vs : List Json}
      → as_list m v ≡ ok vs
      → (n : String) → as_list n v ≡ ok vs
  as_list_any m (arr is) h n = h
  as_list_any m v h n = cc

  -- When resolve_go returns a lock, its version is the greatest of the parsed requirements, the
  -- catalog has exactly one release of it, which is stable, each archive is the only Linux archive
  -- of its architecture there and is of that version, the lock holds exactly these entries, and
  -- the lock is valid.
  pub resolve_go-IsResolved :
      (go_mod upstream catalog : Json) {lock : Json}
      → resolve_go go_mod upstream catalog ≡ ok lock
      → IsResolved go_mod upstream catalog lock
  unfolding resolve_go
  resolve_go-IsResolved go_mod upstream catalog {lock} h =
      let (required, parsed, h₁) = >>=-eq-ok (requirements go_mod upstream) _ h in
      let (v, greatest, h₂) = >>=-eq-ok (max_by_key (required_versions required)) _ h₁ in
      let (entries, listed, h₃) = >>=-eq-ok (as_list _ catalog) _ h₂ in
      let (release, unique, h₄) =
        >>=-eq-ok (the_only _ (keep (entry_is "version" ("go" <> v)) entries)) _ h₃ in
      let (stable, h₅) = >>-eq-ok (require _ _) _ h₄ in
      let (files, has_files, h₆) = >>=-eq-ok (as_list _ (entry "files" release)) _ h₅ in
      let (archives, archived, h₇) = >>=-eq-ok (traverse (resolve_archive v files) arches) _ h₆ in
      let (amd64, arm64, is_amd64, is_arm64, both) = archives_sound v files archives archived in
      let (same, valid) = validate_go_lock_sound _ h₇ in
      record {
        required = required;
        parsed = parsed;
        chosen = v;
        greatest = max_by_key-IsGreatest (required_versions required) greatest;
        entries = entries;
        listed = as_list_any _ catalog listed;
        release = release;
        unique = the_only-eq-ok _ _ unique;
        stable = is_true-eq (entry "stable" release) (require-eq-ok _ _ stable);
        files = files;
        has_files = as_list_any _ (entry "files" release) has_files;
        amd64 = amd64;
        arm64 = arm64;
        is_amd64 = is_amd64;
        is_arm64 = is_arm64;
        locked =
            same
            ∙ ap (λ entries'. lock_json v (requirements_json required) (obj (to_fields entries')))
                both;
        valid = subst IsGoLock (sym same) valid;
      }
