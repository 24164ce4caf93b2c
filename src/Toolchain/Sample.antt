-- ===== src/Toolchain/Sample.antt =====
-- A toolchain lock, for the tests.
use tailscale_koolshare.Common.{String, pos}
use tailscale_koolshare.Python.Text.{◌<>◌}
use tailscale_koolshare.Python.Json.{Json, null, int, str, obj, field, end}

abbrev pub sum : String
sum = "0123456789abcdef0123456789abcdef0123456789abcdef0123456789abcdef"

abbrev pub archive_for : String → Json
archive_for arch =
    let name = "go1.26.6.linux-" <> arch <> ".tar.gz" in
    obj (
      field "filename" (str name) (
        field "url" (str ("https://go.dev/dl/" <> name))
          (field "sha256" (str sum) (field "size" (int (pos 70)) end))))

abbrev pub sample_lock : Json
sample_lock = obj (
    field "version" (str "1.26.6") (
      field "requirements"
        (obj (
          field "go" (str "1.26.0") (field "toolchain" (str "1.26.6") (field "upstream" null end))))
        (field "archives"
          (obj (field "amd64" (archive_for "amd64") (field "arm64" (archive_for "arm64") end)))
          end)))
