-- ===== src/Publish/Descriptor.antt =====
-- Descriptors of a signed manifest, and the checks of local files against them.
pub mod Body
pub mod Validated
use tailscale_koolshare.Common.{
  ℕ, suc, ◌+◌, ◌*◌, ◌^◌, ℤ, pos, pos_part, neg_part, String, Bool, true, false, ◌&&◌, List, [], ◌∷◌,
  ◌++◌, Option, none, some, if◌then◌else◌, ltb, length, not,
}
use tailscale_koolshare.Common.Outcome.{
  Result, ok, raise, ◌>>=◌, ◌>>◌, value_error, type_error, index_error, require, from_option,
  traverse,
}
use tailscale_koolshare.Python.Interpreter.{Interpreter, to_str}
use tailscale_koolshare.Python.Text.{◌<>◌, split_on, after_last}
use tailscale_koolshare.Python.Number.{int_of}
use tailscale_koolshare.Python.Json.{Json, int, str, number?, json_eq, item, text_item, contains}
use tailscale_koolshare.Publish.Action.{Bytes, World}

-- `{"arm": …, "arm64": …}`
pub record Descriptors : Type 0 where
  pub arm : Json
  pub arm64 : Json

-- `==` of two such dicts.
unfoldable pub descriptors_eq : Descriptors → Descriptors → Bool
descriptors_eq a b = json_eq a.arm b.arm && json_eq a.arm64 b.arm64

unfoldable pub same_artifacts : Descriptors → Descriptors → Result (Unit {0})
same_artifacts actual expected =
    require (descriptors_eq actual expected)
      "existing signed release differs from the local candidate"

abbrev without_first : String → String
without_first String.[] = ""
without_first (String.◌∷◌ c s) = s

-- The largest manifest that is read.
abbrev pub max_manifest : ℕ
max_manifest = 65536

-- `desc["url"].rsplit("/", 1)[1]`
unfoldable pub archive_file : Json → Result String
archive_file desc = do text ← text_item "url" desc; from_option index_error (after_last b'/' text)

-- `n > v` for a JSON value.
unfoldable pub exceeds : ℕ → Json → Result Bool
exceeds n v = elim (number? v) [
  | none ↦ raise type_error
  | some (m, k) ↦ ok (ltb (pos_part m) (n * 2 ^ k + neg_part m))
]

abbrev pub unless_large : Result Bool → Result Bytes → Result Bytes
unless_large (ok true) next = raise (value_error "published archive exceeds signed size")
unless_large (ok false) next = next
unless_large (raise e) next = raise e

-- The loop that reads a response in chunks, with the bytes so far.
unfoldable pub read_chunks : Json → Bytes → List Bytes → Result Bytes
read_chunks desc body [] = ok body
read_chunks desc body (chunk ∷ chunks) =
    let rest = read_chunks desc (body ++ chunk) chunks in
    unless_large (item "size" desc >>= exceeds (length (body ++ chunk))) rest

-- The version's parts and the build number.
unfoldable pub identity : ⦃py : Interpreter⦄ → Json → Result (List ℤ)
identity desc = do
  text ← text_item "version" desc
  parts ← traverse int_of (split_on b'.' text)
  build_text ← text_item "build" desc
  number ← int_of (without_first build_text)
  ok (parts ++ number ∷ [])

module _ (w : World) where
  unfoldable pub verify_manifest : Bytes → Result Descriptors
  verify_manifest body = do
    require (not (ltb max_manifest (length body))) "manifest exceeds maximum size"
    arm ← w.verify body "arm"
    arm64 ← w.verify body "arm64"
    ok (record { arm = arm; arm64 = arm64 })

  unfoldable pub archive_matches : Bytes → Json → Result Bool
  archive_matches body desc = do
    size ← item "size" desc
    digest ← item "sha256" desc
    ok (json_eq (int (pos (length body))) size && json_eq (str (w.sha256 body)) digest)

  -- The body of a published archive is the signed one.
  unfoldable pub check_body : Json → List Bytes → Result (Unit {0})
  check_body desc chunks = do
    body ← read_chunks desc [] chunks
    matches ← archive_matches body desc
    require matches "published archive differs from signed manifest"

  -- One round of the loop of `validate_archives`.
  unfoldable pub validate_archive : String → Result Json
  validate_archive arch = do
    manifest ← w.file "manifest.json"
    desc ← w.verify manifest arch
    name ← archive_file desc
    archive ← w.file name
    matches ← archive_matches archive desc
    require matches "archive size/hash differs from signed manifest"
    w.extract archive desc
    ok desc

  unfoldable pub validate_archives : Result Descriptors
  validate_archives = do
    arm ← validate_archive "arm"
    arm64 ← validate_archive "arm64"
    ok (record { arm = arm; arm64 = arm64 })

abbrev pub latest_page : String
latest_page = "https://github.com/thetapilla/tailscale-koolshare/releases/latest"

-- The notes of the immutable release.
unfoldable pub core_release_notes : ⦃py : Interpreter⦄ → List String → Json → Result String
core_release_notes tags desc = do
  version ← item "version" desc
  build ← item "build" desc
  source ← item "source_commit" desc
  let updater = contains "ts_omit_clientupdate" tags
  let update_note : String =
      if updater then "- 核心更新统一通过插件的签名通道进行，内置自动更新和 `tailscale update` 已禁用。\n" else ""
  let compatibility : String = if updater then "请先安装插件 **3.1.0 或更新版本**，以迁移已有的自动更新偏好。\n\n" else ""
  ok (
      "## 更新内容\n\n- 基于 Tailscale "
      <> to_str version
      <> " 构建 ARM32 和 ARM64 精简合并核心，构建编号为 `"
      <> to_str build
      <> "`。\n"
      <> update_note
      <> "- 上游变更见 [Tailscale 更新日志](https://tailscale.com/changelog)。\n\n## 使用方式\n\n"
      <> compatibility
      <> "在插件页面点击“检查更新”，再点击“更新核心”。\n\n插件安装包请从[最新发行版]("
      <> latest_page
      <> ")下载。\n\n"
      <> "## 来源与校验\n\n[官方源码提交](https://github.com/tailscale/tailscale/commit/"
      <> to_str source
      <> ")；"
      <> "签名清单、SHA-256 校验值和构建信息见附件。\n")
