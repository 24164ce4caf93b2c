-- ===== src/Publish/Main/Feed.antt =====
-- Where the descriptors of the stable feed come from.
use mathlib.Core.List.{flatten}
use mathlib.Core.Option.{some-injective}
use tailscale_koolshare.Common.{take, not, true, List, Option, none, some, ◌≡◌, ap, arith, subst}
use tailscale_koolshare.Common.Outcome.{Result, http_error, ok, raise, ok-injective, require_else}
use tailscale_koolshare.Python.Interpreter.{Interpreter}
use tailscale_koolshare.Python.Json.{Json}
use tailscale_koolshare.Publish.Action.{Bytes, Event, World, lift, api, fetch}
use tailscale_koolshare.Publish.Action.Laws.{bind-eq-ok}
use tailscale_koolshare.Publish.Descriptor.{Descriptors, verify_manifest}
use tailscale_koolshare.Publish.Release.{is_draft}
use tailscale_koolshare.Publish.Remote.{
  release_url, stable_url, missing_as_none, attempt, release_by_tag, verified_body, remote_manifest,
}
use tailscale_koolshare.Publish.Existing.Signed.{verify_manifest-signed}
use tailscale_koolshare.Publish.Main.{second, check_current, read_stable}

missing-none :
    {A : Type 0} (r : Result A) → missing_as_none true r ≡ ok none → r ≡ raise (http_error 404)
missing-none (ok a) h = cc (ok-injective h)
missing-none (raise e) h = ground arith

missing-some : {A : Type 0} (r : Result A) {a : A} → missing_as_none true r ≡ ok (some a) → r ≡ ok a
missing-some (ok a) h = ap ok (some-injective _ _ (ok-injective h))
missing-some (raise e) h = ground arith

module _ (w : World) where
  -- GitHub has no release for the feed, or that has no manifest, or the descriptors are those for
  -- which the manifest that GitHub serves is signed.
  pub data IsFeed : Option Descriptors → Type 0 where
    no_release :
        (k : List Event)
        → w.api k (release_url "core-stable") ≡ raise (http_error 404)
        → IsFeed none
    no_manifest : (k : List Event) → w.fetch k stable_url ≡ raise (http_error 404) → IsFeed none
    served :
        (k : List Event) (chunks : List Bytes) (feed : Descriptors)
        → w.fetch k stable_url ≡ ok chunks
        → w.verify (take 65537 (flatten chunks)) "arm" ≡ ok feed.arm
        → w.verify (take 65537 (flatten chunks)) "arm64" ≡ ok feed.arm64
        → IsFeed (some feed)

  missing-release :
      (k : List Event) {k' : List Event}
      → release_by_tag w "core-stable" k ≡ (ok none, k')
      → w.api k (release_url "core-stable") ≡ raise (http_error 404)
  unfolding release_by_tag api
  missing-release k h = missing-none _ (ap (λ q. q.0) h)

  verified_body-IsFeed :
      (k : List Event) (o : Option (List Bytes)) (h : List Event)
      {found : Option (Bytes × Descriptors)} {h' : List Event}
      → missing_as_none true (w.fetch k stable_url) ≡ ok o
      → verified_body w o h ≡ (ok found, h')
      → IsFeed (second found)
  unfolding verified_body
  verified_body-IsFeed k none h answer e =
      subst (λ f. IsFeed (second f)) (ok-injective (ap (λ q. q.0) e))
        (no_manifest k (missing-none _ answer))
  verified_body-IsFeed k (some chunks) h answer e =
      let (feed, verified, e₁) =
        bind-eq-ok (lift (verify_manifest w (take 65537 (flatten chunks)))) _ h e in
      let (arm, arm64) = verify_manifest-signed w _ (ap (λ q. q.0) verified) in
      subst (λ f. IsFeed (second f)) (ok-injective (ap (λ q. q.0) e₁))
        (served k chunks feed (missing-some _ answer) arm arm64)

  remote_manifest-IsFeed :
      (h : List Event) {found : Option (Bytes × Descriptors)} {h' : List Event}
      → remote_manifest w stable_url true h ≡ (ok found, h')
      → IsFeed (second found)
  unfolding remote_manifest fetch
  remote_manifest-IsFeed h e =
      let (o, answer, e₁) = bind-eq-ok (attempt true (fetch w stable_url)) _ h e in
      verified_body-IsFeed h o _ (ap (λ q. q.0) answer) e₁

  pub read_stable-IsFeed :
      ⦃py : Interpreter⦄ (ds : Descriptors) (stable : Option Json) (k h : List Event)
      {k' : List Event} {o : Option Descriptors} {h' : List Event}
      → release_by_tag w "core-stable" k ≡ (ok stable, k')
      → read_stable w ds stable h ≡ (ok o, h')
      → IsFeed o
  unfolding read_stable
  read_stable-IsFeed ds none k h looked_up e =
      subst IsFeed (ok-injective (ap (λ q. q.0) e)) (no_release k (missing-release k looked_up))
  read_stable-IsFeed ds (some stable) k h looked_up e =
      let (draft, _, e₁) = bind-eq-ok (lift (is_draft stable)) _ h e in
      let (_, _, e₂) = bind-eq-ok (lift (require_else (not draft) _)) _ _ e₁ in
      let (found, read, e₃) = bind-eq-ok (remote_manifest w stable_url true) _ _ e₂ in
      let (_, _, e₄) = bind-eq-ok (check_current w ds (second found)) _ _ e₃ in
      subst IsFeed (ok-injective (ap (λ q. q.0) e₄)) (remote_manifest-IsFeed _ read)
