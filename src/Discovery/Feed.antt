-- ===== src/Discovery/Feed.antt =====
-- `update_needed` and `main` of tools/check_stable.py.
pub mod Current
use tailscale_koolshare.Common.{
  ℤ, String, Bool, true, false, List, [], ◌∷◌, Option, none, some, ◌==◌, if◌then◌else◌,
}
use tailscale_koolshare.Common.Outcome.{
  Exception, value_error, http_error, os_error, file_exists_error, called_process_error, Result, ok,
  raise,
}
use tailscale_koolshare.Python.Interpreter.{Interpreter}
use tailscale_koolshare.Python.Text.{◌<>◌, remove_prefix}
use tailscale_koolshare.Python.Json.{Json, str, obj, field, end, text_item}
use tailscale_koolshare.Toolchain.Version.{key_ltb}
use tailscale_koolshare.Publish.Action.{
  Bytes, World, Action, ◌>>=◌, ◌>>◌, pure, fail, lift, continue, api,
}
use tailscale_koolshare.Publish.Descriptor.{Descriptors, identity}
use tailscale_koolshare.Publish.Remote.{stable_url, remote_manifest}
use tailscale_koolshare.CoreLock.Identity.{check_stable}
use tailscale_koolshare.Discovery.Commit.{source_commit}

-- `except (OSError, ValueError, subprocess.CalledProcessError)`: an `HTTPError` is an `OSError`, and
-- so is a file that is there already.
abbrev pub is_handled : Exception → Bool
is_handled (value_error message) = true
is_handled (http_error code) = true
is_handled os_error = true
is_handled file_exists_error = true
is_handled called_process_error = true
is_handled _ = false

abbrev pub candidate : String → String → Json
candidate version build = obj (field "version" (str version) (field "build" (str build) end))

module _ ⦃py : Interpreter⦄ where
  -- `a < b` of what two calls return.
  abbrev pub compare : Result (List ℤ) → Result (List ℤ) → Result Bool
  compare (raise e) second = raise e
  compare (ok a) (raise e) = raise e
  compare (ok a) (ok b) = ok (key_ltb a b)

  -- The comparison of the feed with the candidate.
  unfoldable pub is_older : Json → Option (Bytes × Descriptors) → Result Bool
  is_older desc none = ok true
  is_older desc (some (body, current)) = compare (identity current.arm) (identity desc)

  -- The handler: a feed that cannot be verified does not count.
  unfoldable pub after_feed : Json → Result (Option (Bytes × Descriptors)) → Result Bool
  after_feed desc (ok found) = is_older desc found
  after_feed desc (raise e) = if is_handled e then ok true else raise e

  -- The third argument says whether the verifier is there.
  unfoldable pub update_needed : World → String → String → Bool → Action Bool
  update_needed w version build false h = (ok true, h)
  update_needed w version build true h =
      let (r, h') = remote_manifest w stable_url true h in
      (after_feed (candidate version build) r, h')

-- What `main` prints, less the digest of the recipe.
pub record Discovered : Type 0 where
  pub version : String
  pub tag : String
  pub needed : Bool
  pub commit : String

module _ ⦃py : Interpreter⦄ (w : World) where
  -- The version asked for, or the one that upstream's package server names.
  unfoldable pub version_to_build : String → Action String
  version_to_build asked h = elim (asked == "") [
    | true ↦
        (do
          release ← api w "https://pkgs.tailscale.com/stable/?mode=json"
          lift (text_item "TarballsVersion" release))
          h
    | false ↦ (ok (remove_prefix "v" asked), h)
  ]

  unfoldable pub discover : String → String → Bool → Action Discovered
  discover asked build helper = do
    version ← version_to_build asked
    lift (check_stable "expected stable numeric Tailscale version" version)
    commit ← source_commit w version
    needed ← update_needed w version build helper
    pure (record {
      version = version;
      tag = "core-v" <> version <> "-" <> build;
      needed = needed;
      commit = commit;
    })
