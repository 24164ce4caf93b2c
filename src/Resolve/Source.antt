-- ===== src/Resolve/Source.antt =====
-- `source_requirements` of tools/resolve_core.py.
use tailscale_koolshare.Common.{
  ℕ, ◌*◌, String, Bool, true, false, not, ◌||◌, List, Option, none, some, ltb, length,
}
use tailscale_koolshare.Common.Outcome.{Result, ok, raise, ◌>>=◌, ◌>>◌, value_error, require}
use tailscale_koolshare.Python.Text.{◌<>◌, strip}
use tailscale_koolshare.Python.Json.{Json, null, str, json_eq}

-- A member of a source archive; `contents` is what `extractfile` reads.
pub record Member : Type 0 where
  pub is_file : Bool
  pub contents : List ℕ

-- The files of a source tree that say which toolchain it needs.
pub record Requirements : Type 0 where
  pub go_mod : Json
  pub preferred : Json
  pub revision : Json

unfoldable pub source_member : String → String → String
source_member commit name = "tailscale-" <> commit <> "/" <> name

-- `decode` is that of UTF-8, and `getmember` the lookup in the archive.
module _ (decode : List ℕ → Result String) (getmember : String → Option Member) where
  unfoldable pub member_text : Member → Result Json
  member_text m = do
    require (not (not m.is_file || ltb (1024 * 1024) (length m.contents)))
        "invalid source requirement file"
    text ← decode m.contents
    ok (str (strip text))

  -- A member that is missing is `None` where it is optional.
  unfoldable pub read_found : Bool → Option Member → Result Json
  read_found optional (some m) = member_text m
  read_found true none = ok null
  read_found false none = raise (value_error "source is missing a file")

  unfoldable pub read_member : String → String → Bool → Result Json
  read_member commit name optional = read_found optional (getmember (source_member commit name))

  unfoldable pub source_requirements : String → String → Result Requirements
  source_requirements version commit = do
    stated ← read_member commit "VERSION.txt" false
    require (json_eq stated (str version)) "source VERSION.txt disagrees with release tag"
    go_mod ← read_member commit "go.mod" false
    preferred ← read_member commit "go.toolchain.version" true
    revision ← read_member commit "go.toolchain.rev" true
    ok (record { go_mod = go_mod; preferred = preferred; revision = revision })
