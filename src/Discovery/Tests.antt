-- ===== src/Discovery/Tests.antt =====
-- Upstream with an annotated tag, a feed that covers it, and the theorems at them.
use mathlib.Core.List.{flatten}
use tailscale_koolshare.Common.{String, true, false, [], ◌∷◌, ◌≡◌, refl, ◌==◌, if◌then◌else◌}
use tailscale_koolshare.Common.Outcome.{Result, ok, raise, http_error}
use tailscale_koolshare.Python.Interpreter.{Interpreter, ascii}
use tailscale_koolshare.Python.Text.{split_on, remove_prefix}
use tailscale_koolshare.Python.Number.{int_of}
use tailscale_koolshare.Python.Regex.{fullmatch}
use tailscale_koolshare.Python.Json.{
  Json, str, obj, field, end, item, lookup, text_item, as_str, json_eq,
}
use tailscale_koolshare.Toolchain.Version.{key_ltb}
use tailscale_koolshare.Publish.Action.{World, api, fetch}
use tailscale_koolshare.Publish.Action.Laws.{Within}
use tailscale_koolshare.Publish.Descriptor.{identity, verify_manifest}
use tailscale_koolshare.Publish.Remote.{stable_url, verified_body, remote_manifest}
use tailscale_koolshare.CoreLock.Identity.{commit_of, minor_of, check_stable}
use tailscale_koolshare.CoreLock.Sample.{commit}
use tailscale_koolshare.Discovery.Commit.{
  ref_url, tag_url, tagged_object, follow_commit, resolve_object, source_commit,
}
use tailscale_koolshare.Discovery.Commit.Resolved.{source_commit-Within}
use tailscale_koolshare.Discovery.Feed.{
  candidate, is_older, after_feed, update_needed, Discovered, version_to_build, discover,
}
use tailscale_koolshare.Discovery.Feed.Current.{
  IsCovered, update_needed-IsCovered, IsDiscovery, discover-IsDiscovery,
}

instance abbrev plain : Interpreter
plain = ascii

abbrev object : String → String → Json
object type sha =
    obj (field "object" (obj (field "type" (str type) (field "sha" (str sha) end))) end)

abbrev answers : String → Result Json
answers url =
    if url == ref_url "1.98.2"
    then ok (object "tag" "abc")
    else if url == tag_url "abc"
    then ok (object "commit" commit)
    else raise (http_error 404)

abbrev world : World
world = record {
  api = λ h url. answers url;
  fetch = λ h url. if url == stable_url then ok ((1 ∷ []) ∷ []) else raise (http_error 404);
  gh = λ h args. ok tt;
  downloaded = λ h name. raise (http_error 404);
  file = λ name. raise (http_error 404);
  verify = λ body arch. ok (candidate "1.98.10" "r1");
  extract = λ body desc. ok tt;
  sha256 = λ body. "digest";
  commit = ok "0123";
  tags = [];
}

abbrev discovered : Discovered
discovered = record { version = "1.98.2"; tag = "core-v1.98.2-r4"; needed = false; commit = commit }

opened : Unit {0}
unfolding flatten split_on remove_prefix int_of fullmatch item lookup text_item as_str json_eq
    key_ltb api fetch identity verify_manifest verified_body remote_manifest commit_of minor_of
    check_stable tagged_object follow_commit resolve_object source_commit is_older after_feed
    update_needed version_to_build discover
opened = tt

discover_test :
    discover world "v1.98.2" "r4" true []
    ≡ (ok discovered, (discover world "v1.98.2" "r4" true []).1)
unfolding opened
discover_test = refl

skip_test : (update_needed world "1.98.2" "r4" true []).0 ≡ ok false
unfolding opened
skip_test = refl

source_commit_example : Within 5 (source_commit world "1.98.2")
source_commit_example = source_commit-Within world "1.98.2"

update_needed_example : (true ≡ true) × IsCovered world (candidate "1.98.2" "r4")
update_needed_example = update_needed-IsCovered world "1.98.2" "r4" true [] skip_test

discover_example : IsDiscovery world "r4" true discovered
discover_example = discover-IsDiscovery world "v1.98.2" "r4" true [] discover_test
