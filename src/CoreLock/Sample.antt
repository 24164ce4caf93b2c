-- ===== src/CoreLock/Sample.antt =====
-- A lock and the recipe that it was made from, for the tests.
use tailscale_koolshare.Common.{String, pos}
use tailscale_koolshare.Python.Text.{◌<>◌}
use tailscale_koolshare.Python.Json.{Json, null, int, str, obj, field, end}
use tailscale_koolshare.CoreLock.Lock.{Recipe}

abbrev pub commit : String
commit = "0123456789abcdef0123456789abcdef01234567"

abbrev pub digest : String
digest = "0123456789abcdef0123456789abcdef0123456789abcdef0123456789abcdef"

abbrev pub archive_for : String → Json
archive_for arch =
    let name = "go1.26.6.linux-" <> arch <> ".tar.gz" in
    obj (
      field "filename" (str name) (
        field "url" (str ("https://go.dev/dl/" <> name))
          (field "sha256" (str digest) (field "size" (int (pos 70)) end))))

abbrev pub go_lock : Json
go_lock = obj (
    field "version" (str "1.26.6") (
      field "requirements"
        (obj (
          field "go" (str "1.26.0") (field "toolchain" null (field "upstream" (str "1.26.6") end))))
        (field "archives"
          (obj (field "amd64" (archive_for "amd64") (field "arm64" (archive_for "arm64") end)))
          end)))

abbrev pub source : Json
source = obj (
    field "commit" (str commit) (
      field "url" (str ("https://codeload.github.com/tailscale/tailscale/tar.gz/" <> commit))
        (field "sha256" (str digest) end)))

abbrev pub lock : Json
lock = obj (
    field "schema" (int (pos 1)) (
      field "version" (str "1.98.2") (
        field "build" (str "r4") (
          field "source" source (
            field "go" go_lock (
              field "upstream_toolchain_rev" null
                (field "recipe_source_sha256" (str digest) end)))))))

abbrev pub recipe : Recipe
recipe = record { go_policy = str "upstream-stable-official"; hash = digest }
