-- ===== src/CoreLock/Identity/Commit.antt =====
-- What a commit object of GitHub holds.
use tailscale_koolshare.Common.{String, ◌≡◌, subst}
use tailscale_koolshare.Common.Outcome.{
  ok, require, >>=-eq-ok, >>-eq-ok, require-eq-ok, ok-injective,
}
use tailscale_koolshare.Python.Regex.{times, fullmatch, codes}
use tailscale_koolshare.Python.Regex.Language.{Lang}
use tailscale_koolshare.Python.Regex.Laws.{fullmatch_iff}
use tailscale_koolshare.Python.Json.{Json, str, text_item}
use tailscale_koolshare.Python.Json.Laws.{At, text_item-eq-ok}
use tailscale_koolshare.Toolchain.Lock.{hex}
use tailscale_koolshare.CoreLock.Identity.{commit_of}

-- The object is a commit, and its name is this text of 40 hexadecimal digits.
pub record IsCommitOf (object : Json) (sha : String) : Type 0 where
  pub at_type : At "type" object (str "commit")
  pub at_sha : At "sha" object (str sha)
  pub is_sha : Lang (times 40 hex) (codes sha)

pub commit_of_sound :
    (object : Json) {sha : String}
    → commit_of object ≡ ok sha
    → At "sha" object (str sha) × Lang (times 40 hex) (codes sha)
unfolding commit_of
commit_of_sound object h =
    let (s, at_s, h₁) = >>=-eq-ok (text_item "sha" object) _ h in
    let (matched, h₂) = >>-eq-ok (require (fullmatch (times 40 hex) s) _) _ h₁ in
    let is_sha = (fullmatch_iff (times 40 hex) s).0 (require-eq-ok _ _ matched) in
    let same = ok-injective h₂ in
    subst (λ t. At "sha" object (str t) × Lang (times 40 hex) (codes t)) same
      (text_item-eq-ok "sha" object at_s, is_sha)
