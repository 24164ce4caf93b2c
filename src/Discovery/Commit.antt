-- ===== src/Discovery/Commit.antt =====
-- `source_commit` of tools/build_core.py.
pub mod Resolved
use tailscale_koolshare.Common.{ℕ, zero, suc, String, Bool, true, false, if◌then◌else◌}
use tailscale_koolshare.Common.Outcome.{Result, ok, raise, value_error, require}
use tailscale_koolshare.Python.Interpreter.{Interpreter}
use tailscale_koolshare.Python.Regex.{times, fullmatch}
use tailscale_koolshare.Python.Text.{◌<>◌}
use tailscale_koolshare.Python.Json.{Json, str, item, text_item, json_eq}
use tailscale_koolshare.Toolchain.Lock.{hex}
use tailscale_koolshare.Publish.Action.{World, Action, ◌>>=◌, ◌>>◌, pure, fail, lift, continue, api}
use tailscale_koolshare.CoreLock.Identity.{commit_of, check_stable}

abbrev pub ref_url : String → String
ref_url version = "https://api.github.com/repos/tailscale/tailscale/git/ref/tags/v" <> version

abbrev pub tag_url : String → String
tag_url sha = "https://api.github.com/repos/tailscale/tailscale/git/tags/" <> sha

module _ (w : World) where
  -- The object that an annotated tag stands for.
  unfoldable pub tagged_object : Json → Action Json
  tagged_object object = do
    sha ← lift (text_item "sha" object)
    answer ← api w (tag_url sha)
    lift (item "object" answer)

  -- A round: a commit is the result, a tag is followed, anything else ends the loop.
  unfoldable pub follow_commit : Bool → Bool → (Json → Action String) → Json → Action String
  follow_commit true is_tag again object = lift (commit_of object)
  follow_commit false true again object = tagged_object object >>= again
  follow_commit false false again object =
      fail (value_error "upstream tag did not resolve to a commit")

  -- The loop, by the number of rounds that are left.
  unfoldable pub resolve_object : ℕ → Json → Action String
  resolve_object zero object = fail (value_error "upstream tag did not resolve to a commit")
  resolve_object (suc left) object = lift (item "type" object) >>= λ type.
      follow_commit (json_eq type (str "commit")) (json_eq type (str "tag")) (resolve_object left)
        object

  unfoldable pub source_commit : ⦃py : Interpreter⦄ → String → Action String
  source_commit version = do
    lift (check_stable "only stable numeric upstream versions are accepted" version)
    ref ← api w (ref_url version)
    object ← lift (item "object" ref)
    resolve_object 4 object
