-- ===== src/Publish/Remote.antt =====
-- What the script reads from GitHub: releases, manifests, and the published archives.
pub mod Readback
pub mod Quiet
use mathlib.Core.List.{flatten}
use tailscale_koolshare.Common.{
  ℕ, zero, suc, ◌+◌, String, Bool, true, false, ◌&&◌, ◌||◌, not, List, [], ◌∷◌, ◌++◌, Option, none,
  some, if◌then◌else◌, eqb, take, length,
}
use tailscale_koolshare.Common.Outcome.{
  Exception, http_error, Result, ok, raise, require, value_error,
}
use tailscale_koolshare.Python.Text.{◌<>◌}
use tailscale_koolshare.Python.Json.{Json, text_item}
use tailscale_koolshare.Common.{pos}
use tailscale_koolshare.Publish.Action.{
  Bytes, World, Action, ◌>>=◌, ◌>>◌, pure, fail, lift, continue, api, fetch, sleep,
}
use tailscale_koolshare.Publish.Descriptor.{Descriptors, max_manifest, verify_manifest, check_body}

abbrev pub release_url : String → String
release_url tag =
    "https://api.github.com/repos/thetapilla/tailscale-koolshare/releases/tags/" <> tag

abbrev pub download_url : String → String
download_url path = "https://github.com/thetapilla/tailscale-koolshare/releases/download/" <> path

abbrev pub stable_url : String
stable_url =
    "https://github.com/thetapilla/tailscale-koolshare/releases/download/core-stable/manifest.json"

-- `except urllib.error.HTTPError as error` where 404 means that there is nothing.
abbrev pub missing_as_none {ℓ} : {A : Type ℓ} → Bool → Result A → Result (Option A)
missing_as_none missing_ok (ok a) = ok (some a)
missing_as_none missing_ok (raise (http_error code)) =
    if missing_ok && eqb code 404 then ok none else raise (http_error code)
missing_as_none missing_ok (raise e) = raise e

-- The handler of a request whose answer is a status code.
abbrev pub attempt : {A : Type 0} → Bool → Action A → Action (Option A)
attempt missing_ok m h = let (r, h') = m h in (missing_as_none missing_ok r, h')

-- Codes after which a read is tried again.
abbrev pub is_transient : ℕ → Bool
is_transient code = eqb code 404 || eqb code 500 || eqb code 502 || eqb code 503 || eqb code 504

module _ (w : World) where
  unfoldable pub release_by_tag : String → Action (Option Json)
  release_by_tag tag = attempt true (api w (release_url tag))

  unfoldable pub verified_body : Option (List Bytes) → Action (Option (Bytes × Descriptors))
  verified_body none = pure none
  verified_body (some chunks) = do
    let body = take (max_manifest + 1) (flatten chunks)
    descriptors ← lift (verify_manifest w body)
    pure (some (body, descriptors))

  unfoldable pub remote_manifest : String → Bool → Action (Option (Bytes × Descriptors))
  remote_manifest url missing_ok = do
    answer ← attempt missing_ok (fetch w url)
    verified_body answer

  -- One attempt of `readback_assets` at one archive.
  unfoldable pub read_asset : Json → Action (Unit {0})
  read_asset desc = do
    url ← lift (text_item "url" desc)
    chunks ← fetch w url
    lift (check_body w desc chunks)

  -- The handler: the last attempt and any other failure raise.
  unfoldable pub after_attempt : ℕ → Action (Unit {0}) → Result (Unit {0}) → Action (Unit {0})
  after_attempt left again (ok _) = pure tt
  after_attempt left again (raise (http_error code)) =
      if eqb left 0 || not (is_transient code) then fail (http_error code) else (sleep w 2 >> again)
  after_attempt left again (raise e) = fail e

  -- The loop over the attempts, by the number of those that are left.
  unfoldable pub readback_asset : ℕ → Json → Action (Unit {0})
  readback_asset zero desc h = (ok tt, h)
  readback_asset (suc left) desc h =
      let (r, h') = read_asset desc h in after_attempt left (readback_asset left desc) r h'

  unfoldable pub readback_assets : Descriptors → Action (Unit {0})
  readback_assets ds = readback_asset 3 ds.arm >> readback_asset 3 ds.arm64
