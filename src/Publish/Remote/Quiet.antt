-- ===== src/Publish/Remote/Quiet.antt =====
-- Reading releases and manifests runs no command.
use tailscale_koolshare.Common.{String, Bool, true, Option, none, some}
use tailscale_koolshare.Publish.Action.{Bytes, World, Action, api, fetch}
use tailscale_koolshare.Publish.Action.Laws.{
  Silent, Silent-bind, Silent-api, Silent-fetch, silent_rules,
}
use tailscale_koolshare.Common.{List, refl}
use tailscale_koolshare.Publish.Remote.{
  release_url, attempt, release_by_tag, verified_body, remote_manifest,
}

pub Silent-attempt : {A : Type 0} (b : Bool) (m : Action A) → Silent m → Silent (attempt b m)
Silent-attempt b m s = record { at = λ h. s.at h }

module _ (w : World) where
  pub Silent-release_by_tag : (tag : String) → Silent (release_by_tag w tag)
  unfolding release_by_tag
  Silent-release_by_tag tag =
      Silent-attempt true (api w (release_url tag)) (Silent-api w (release_url tag))

  Silent-verified_body : (o : Option (List Bytes)) → Silent (verified_body w o)
  unfolding verified_body
  Silent-verified_body none = record { at = λ h. refl }
  Silent-verified_body (some chunks) = search silent_rules

  pub Silent-remote_manifest : (url : String) (b : Bool) → Silent (remote_manifest w url b)
  unfolding remote_manifest
  Silent-remote_manifest url b =
      Silent-bind (attempt b (fetch w url)) _ (Silent-attempt b (fetch w url) (Silent-fetch w url))
        Silent-verified_body
