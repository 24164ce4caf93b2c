-- ===== src/Toolchain/Resolve.antt =====
-- `resolve_go` of tools/toolchain.py: the lock that a source tree and the official catalog give.
pub mod Sound
use tailscale_koolshare.Common.{
  String, Bool, true, false, ◌&&◌, List, [], ◌∷◌, Option, none, some, ◌==◌, if◌then◌else◌, keep,
}
use tailscale_koolshare.Common.Outcome.{
  Result, ok, raise, ◌>>=◌, ◌>>◌, value_error, require, traverse,
}
use tailscale_koolshare.Python.Interpreter.{Interpreter, to_str}
use tailscale_koolshare.Python.Text.{◌<>◌}
use tailscale_koolshare.Python.Json.{
  Json, bool, str, arr, obj, Fields, field, end, items, lookup, or_null, json_eq,
}
use tailscale_koolshare.Toolchain.Version.{max_by_key}
use tailscale_koolshare.Toolchain.Requirements.{Requirements, requirements, requirements_json}
use tailscale_koolshare.Toolchain.Lock.{arches, validate_go_lock}

abbrev and_some : Option String → List String → List String
and_some none vs = vs
and_some (some v) vs = v ∷ vs

-- The values of the dict that are not `None`.
abbrev pub required_versions : Requirements → List String
required_versions r = r.go ∷ and_some r.toolchain (and_some r.upstream [])

-- `isinstance(v, dict) and v.get(k) == w`
unfoldable pub entry_is : String → String → Json → Bool
entry_is k w (obj fs) = json_eq (or_null (lookup k fs)) (str w)
entry_is k w _ = false

-- `v.get(k)` of a catalog entry that is known to be a dict.
unfoldable pub entry : String → Json → Json
entry k (obj fs) = or_null (lookup k fs)
entry k _ = Json.null

abbrev pub is_true : Json → Bool
is_true (bool true) = true
is_true _ = false

abbrev pub as_list : String → Json → Result (List Json)
as_list message (arr vs) = ok (items vs)
as_list message _ = raise (value_error message)

-- `len(vs) == 1` and then `vs[0]`
abbrev pub the_only : String → List Json → Result Json
the_only message (v ∷ []) = ok v
the_only message _ = raise (value_error message)

unfoldable pub is_archive_of : String → Json → Bool
is_archive_of arch v =
    entry_is "os" "linux" v && entry_is "arch" arch v && entry_is "kind" "archive" v

abbrev pub to_fields : List (String × Json) → Fields
to_fields [] = end
to_fields ((k, v) ∷ fs) = field k v (to_fields fs)

abbrev pub lock_json : String → Json → Json → Json
lock_json v required archives =
    obj (field "version" (str v) (field "requirements" required (field "archives" archives end)))

module _ ⦃py : Interpreter⦄ where
  -- One round of the loop over the architectures.
  unfoldable pub resolve_archive : String → List Json → String → Result (String × Json)
  resolve_archive v files arch = do
    found ← the_only "required Go archive is missing or ambiguous" (keep (is_archive_of arch) files)
    require (entry_is "version" ("go" <> v) found) "Go archive version differs from release"
    let filename = entry "filename" found
    ok (
      arch,
      obj (
          field "filename" filename (
            field "url" (str ("https://go.dev/dl/" <> to_str filename))
              (field "sha256" (entry "sha256" found) (field "size" (entry "size" found) end)))),
    )

  unfoldable pub resolve_go : Json → Json → Json → Result Json
  resolve_go go_mod upstream catalog = do
    required ← requirements go_mod upstream
    v ← max_by_key (required_versions required)
    entries ← as_list "Go download catalog must be a list" catalog
    release ←
        the_only "required Go version is not a unique official stable release"
          (keep (entry_is "version" ("go" <> v)) entries)
    require (is_true (entry "stable" release))
        "required Go version is not a unique official stable release"
    files ← as_list "official Go release has no archive list" (entry "files" release)
    archives ← traverse (resolve_archive v files) arches
    validate_go_lock (lock_json v (requirements_json required) (obj (to_fields archives)))
