-- ===== src/Resolve/New.antt =====
-- The lock that `resolve` of tools/resolve_core.py makes of a source archive.
use tailscale_koolshare.Common.{pos, String, true, List, Option, none, some, ◌==◌, if◌then◌else◌, ℕ}
use tailscale_koolshare.Common.Outcome.{Result, ok, ◌>>=◌, os_error, from_option}
use tailscale_koolshare.Python.Interpreter.{Interpreter}
use tailscale_koolshare.Python.Json.{Json, int, str, obj, field, end}
use tailscale_koolshare.Signing.Metadata.{Library}
use tailscale_koolshare.Toolchain.Resolve.{resolve_go}
use tailscale_koolshare.Build.Download.{Files, Response, download}
use tailscale_koolshare.CoreLock.Lock.{Recipe, source_url, validate_lock}
use tailscale_koolshare.Resolve.Source.{Member, Requirements, source_requirements}

-- What `resolve` takes from tools/core_recipe.json.
pub record Pins : Type 0 where
  pub build : String
  pub initial_version : String
  pub initial_source_commit : String
  pub initial_source_sha256 : String

-- What is outside, for a source: the files of the download cache, the answer to a request, the
-- decoding of UTF-8, and the lookup of a member in an archive, which fails where it is no archive.
pub record Upstream : Type 0 where
  pub source : Files
  pub answer : String → Result Response
  pub decode : List ℕ → Result String
  pub members : List ℕ → Result (String → Option Member)

-- The digest that the recipe states, for its own version only.
unfoldable pub expected_sha256 : Pins → String → Option String
expected_sha256 pins version =
    if version == pins.initial_version then some pins.initial_source_sha256 else none

-- `archive.unlink(missing_ok=True)` where no digest is expected
unfoldable pub unlink_if : Option String → Files → Files
unlink_if none files = record { dest = none; partial = files.partial }
unlink_if (some expected) files = files

unfoldable pub new_lock : String → String → String → String → String → Json → Json → Json
new_lock version build commit digest recipe go revision = obj (
    field "schema" (int (pos 1)) (
      field "version" (str version) (
        field "build" (str build) (
          field "source"
            (obj (
              field "commit" (str commit)
                (field "url" (str (source_url commit)) (field "sha256" (str digest) end))))
            (field "go" go (
              field "upstream_toolchain_rev" revision
                (field "recipe_source_sha256" (str recipe) end)))))))

module _ (lib : Library) (recipe : Recipe) (pins : Pins) (up : Upstream) where
  -- The digest of the archive that is downloaded, and its bytes.
  unfoldable pub fetch_source : String → String → Result (String × List ℕ)
  fetch_source version commit =
      let expected = expected_sha256 pins version in
      let (answer, files) =
        download lib.file_sha256 expected (up.answer (source_url commit))
          (unlink_if expected up.source) in
      answer >>= λ digest. from_option os_error files.dest >>= λ body. ok (digest, body)

  unfoldable pub source_files : String → String → List ℕ → Result Requirements
  source_files version commit body =
      up.members body >>= λ getmember. source_requirements up.decode getmember version commit

  unfoldable pub finish_lock :
      ⦃py : Interpreter⦄ → String → String → String → Requirements → Json → Result Json
  finish_lock version commit digest r catalog = resolve_go r.go_mod r.preferred catalog >>= λ go.
      validate_lock recipe true
        (new_lock version pins.build commit digest recipe.hash go r.revision)
