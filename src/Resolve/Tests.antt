-- ===== src/Resolve/Tests.antt =====
-- Runs of the resolver, and the theorems at concrete inputs.
use mathlib.Core.List.{flatten}
use tailscale_koolshare.Common.{
  ℕ, String, true, false, List, [], ◌∷◌, Option, none, some, ◌≡◌, refl, pos, ◌==◌, eqb,
  if◌then◌else◌,
}
use tailscale_koolshare.Common.Outcome.{Result, ok, raise, http_error}
use tailscale_koolshare.Python.Interpreter.{Interpreter, ascii}
use tailscale_koolshare.Python.Regex.{fullmatch}
use tailscale_koolshare.Python.Text.{
  ◌<>◌, strip, remove_prefix, split_on, words, before_comment, splitlines,
}
use tailscale_koolshare.Python.Number.{int_of}
use tailscale_koolshare.Python.Json.{
  Json, bool, int, str, arr, obj, cons, nil, field, end, has_exactly, json_eq, item, get, text_item,
  as_str, lookup, truthy,
}
use tailscale_koolshare.Toolchain.Version.{version, key, key_ltb, max_from, max_by_key}
use tailscale_koolshare.Toolchain.Requirements.{
  directive, scan_lines, suggested_version, upstream_version, selected, from_directives,
  requirements,
}
use tailscale_koolshare.Toolchain.Lock.{
  has_fields, is_match, is_positive_int, archive_name, archive_url, check_archive,
  check_requirement, check_greatest, validate_go_lock,
}
use tailscale_koolshare.Toolchain.Resolve.{
  entry_is, entry, is_archive_of, resolve_archive, resolve_go,
}
use tailscale_koolshare.Publish.Action.{World, gh, api, fetch, downloaded, write_file}
use tailscale_koolshare.Publish.Descriptor.{verify_manifest}
use tailscale_koolshare.Publish.Release.{is_draft}
use tailscale_koolshare.Publish.Remote.{release_url, release_by_tag}
use tailscale_koolshare.Signing.Metadata.{Library, lock_hash, has_key}
use tailscale_koolshare.Build.Download.{
  is_expected, is_cached, replace, receive, digest_of, request_into, fetch_unless, download,
}
use tailscale_koolshare.CoreLock.Identity.{commit_of, minor_of, check_stable}
use tailscale_koolshare.CoreLock.Lock.{
  is_int_one, source_url, check_version, check_source, validate_lock,
}
use tailscale_koolshare.CoreLock.Sample.{commit, digest, lock, recipe}
use tailscale_koolshare.Discovery.Commit.{
  ref_url, tagged_object, follow_commit, resolve_object, source_commit,
}
use tailscale_koolshare.Resolve.Source.{
  Member, source_member, member_text, read_found, read_member, source_requirements,
}
use tailscale_koolshare.Resolve.Check.{is_two, commit_in, check_descriptor, metadata_lock}
use tailscale_koolshare.Resolve.Published.{
  core_tag, published_files, release_lock, lock_if, published_lock,
}
use tailscale_koolshare.Resolve.Published.Signed.{IsSigned, published_lock-IsSigned}
use tailscale_koolshare.Resolve.New.{
  expected_sha256, unlink_if, new_lock, fetch_source, source_files, finish_lock,
}
use tailscale_koolshare.Resolve.Locked.{
  catalog_url, Workspace, same_locks, either_lock, check_pinned, reused_lock, cached_lock,
  check_identity, lock_from, resolve,
}
use tailscale_koolshare.Resolve.Resolved.{IsResolved, resolve-IsResolved}

instance abbrev plain : Interpreter
plain = ascii

abbrev lib : Library
lib = record { dumps = λ v. "{}"; text_sha256 = λ s. "fedcba98"; file_sha256 = λ bytes. digest }

abbrev descriptor : Json
descriptor = obj (
    field "version" (str "1.98.2") (
      field "build" (str "r4")
        (field "source_commit" (str commit) (field "recipe_sha256" (str "fedcba98") end))))

abbrev metadata : Json
metadata = obj (field "schema" (int (pos 2)) (field "dependency_lock" lock end))

abbrev object : String → String → Json
object type sha =
    obj (field "object" (obj (field "type" (str type) (field "sha" (str sha) end))) end)

abbrev entry_for : String → Json
entry_for arch = obj (
    field "filename" (str ("go1.26.6.linux-" <> arch <> ".tar.gz")) (
      field "os" (str "linux") (
        field "arch" (str arch) (
          field "version" (str "go1.26.6") (
            field "sha256" (str digest)
              (field "size" (int (pos 70)) (field "kind" (str "archive") end)))))))

abbrev catalog : Json
catalog = arr (
    cons
      (obj (
        field "version" (str "go1.26.6") (
          field "stable" (bool true)
            (field "files" (arr (cons (entry_for "amd64") (cons (entry_for "arm64") nil))) end))))
      nil)

abbrev answers : String → Result Json
answers url =
    if url == ref_url "1.98.2"
    then ok (object "commit" commit)
    else if url == release_url "core-v1.98.2-r4"
    then ok (obj (field "draft" (bool false) end))
    else if url == catalog_url
    then ok catalog
    else raise (http_error 404)

abbrev world : World
world = record {
  api = λ h url. answers url;
  fetch = λ h url. ok ((1 ∷ []) ∷ []);
  gh = λ h args. ok tt;
  downloaded = λ h name. raise (http_error 404);
  file = λ name. raise (http_error 404);
  verify = λ body arch. ok descriptor;
  extract = λ body desc. ok tt;
  sha256 = λ body. digest;
  commit = ok "0123";
  tags = [];
}

abbrev members : String → Option Member
members name =
    if name == source_member commit "VERSION.txt"
    then some (record { is_file = true; contents = 1 ∷ [] })
    else if name == source_member commit "go.mod"
    then some (record { is_file = true; contents = 2 ∷ [] })
    else if name == source_member commit "go.toolchain.version"
    then some (record { is_file = true; contents = 3 ∷ [] })
    else none

-- Three texts, by their first byte.
abbrev text_of : List ℕ → String
text_of [] = ""
text_of (b ∷ body) =
    if eqb b 1 then "1.98.2\n" else if eqb b 2 then "module m\n\ngo 1.26\n" else "1.26.6\n"

abbrev checkout : Option (Result Json) → Workspace
checkout cached = record {
  lib = lib;
  recipe = recipe;
  pins = record {
    build = "r4";
    initial_version = "1.98.0";
    initial_source_commit = commit;
    initial_source_sha256 = digest;
  };
  upstream = record {
    source = record { dest = none; partial = none };
    answer = λ url. ok (record { chunks = (1 ∷ []) ∷ []; failure = none });
    decode = λ body. ok (text_of body);
    members = λ body. ok members;
  };
  loads = λ body. ok metadata;
  helper = true;
  path = "core-lock.json";
  cached = cached;
  printed = λ v. 123 ∷ 10 ∷ [];
}

opened : Unit {0}
unfolding flatten version key key_ltb max_from max_by_key strip remove_prefix fullmatch split_on
    int_of directive scan_lines words before_comment splitlines suggested_version upstream_version
    selected from_directives requirements has_fields has_exactly is_match is_positive_int
    archive_name archive_url json_eq item get text_item check_archive check_requirement
    check_greatest as_str validate_go_lock entry_is lookup entry is_archive_of resolve_archive
    resolve_go truthy gh api fetch downloaded write_file verify_manifest is_draft release_by_tag
    lock_hash has_key is_expected is_cached replace receive digest_of request_into fetch_unless
    download commit_of minor_of check_stable is_int_one source_url check_version check_source
    validate_lock tagged_object follow_commit resolve_object source_commit source_member member_text
    read_found read_member source_requirements is_two commit_in check_descriptor metadata_lock
    core_tag published_files release_lock lock_if published_lock expected_sha256 unlink_if new_lock
    fetch_source source_files finish_lock same_locks either_lock check_pinned reused_lock
    cached_lock check_identity lock_from resolve
opened = tt

abbrev reused : Workspace
reused = checkout (some (ok lock))

abbrev fresh : Workspace
fresh = checkout none

reuse_test :
    resolve world reused true "1.98.2" commit []
    ≡ (ok lock, (resolve world reused true "1.98.2" commit []).1)
unfolding opened
reuse_test = refl

fresh_test : (resolve world fresh false "1.98.2" commit []).0 ≡ ok lock
unfolding opened
fresh_test = refl

published_test : published_lock world lib recipe (λ body. ok metadata) true "1.98.2" "r4" [] ≡ (
  ok (some lock),
  (published_lock world lib recipe (λ body. ok metadata) true "1.98.2" "r4" []).1,
)
unfolding opened
published_test = refl

published_lock_example : IsSigned world lib recipe "1.98.2" "r4" lock
published_lock_example =
    published_lock-IsSigned world lib recipe (λ body. ok metadata) true "1.98.2" "r4" [] _ lock
      published_test

resolve_example :
    IsResolved world reused true "1.98.2" commit lock
      (resolve world reused true "1.98.2" commit []).1
resolve_example = resolve-IsResolved world reused true "1.98.2" commit [] _ lock reuse_test
