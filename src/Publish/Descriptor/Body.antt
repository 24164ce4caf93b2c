-- ===== src/Publish/Descriptor/Body.antt =====
-- A body that passes `check_body` is the archive that the descriptor describes.
use mathlib.Core.List.{flatten, append-nil, append_assoc}
use tailscale_koolshare.Common.{
  pos, Bool, true, false, List, [], ◌∷◌, ◌++◌, ◌≡◌, sym, ap, ◌∙◌, length, and-eq-true,
}
use tailscale_koolshare.Common.Outcome.{Result, ok, raise, ◌>>=◌, >>=-eq-ok, require-eq-ok}
use tailscale_koolshare.Python.Json.{Json, int, str, json_eq, item}
use tailscale_koolshare.Python.Json.Laws.{At, str-json_eq}
use tailscale_koolshare.Publish.Action.{Bytes, World}
use tailscale_koolshare.Publish.Descriptor.{
  exceeds, unless_large, read_chunks, archive_matches, check_body,
}

-- The size and the digest of the descriptor are those of the bytes.
pub record IsSigned (w : World) (desc : Json) (body : Bytes) : Type 0 where
  pub size : Json
  pub has_size : At "size" desc size
  pub same_size : json_eq (int (pos (length body))) size ≡ true
  pub sha256 : At "sha256" desc (str (w.sha256 body))

unless_large-eq-ok :
    (large : Result Bool) (next : Result Bytes) {b : Bytes}
    → unless_large large next ≡ ok b
    → next ≡ ok b
unless_large-eq-ok (ok true) next h = cc
unless_large-eq-ok (ok false) next h = h
unless_large-eq-ok (raise e) next h = cc

read_chunks-eq-ok :
    (desc : Json) (body : Bytes) (chunks : List Bytes) {b : Bytes}
    → read_chunks desc body chunks ≡ ok b
    → b ≡ body ++ flatten chunks
unfolding read_chunks flatten
read_chunks-eq-ok desc body [] {b} h = let e : body ≡ b = cc in sym e ∙ sym (append-nil body)
read_chunks-eq-ok desc body (chunk ∷ chunks) h =
    let rest = unless_large-eq-ok (item "size" desc >>= exceeds (length (body ++ chunk))) _ h in
    read_chunks-eq-ok desc (body ++ chunk) chunks rest ∙ append_assoc body chunk (flatten chunks)

module _ (w : World) where
  pub archive_matches-IsSigned :
      (body : Bytes) (desc : Json) → archive_matches w body desc ≡ ok true → IsSigned w desc body
  unfolding archive_matches
  archive_matches-IsSigned body desc h =
      let (size, has_size, h₁) = >>=-eq-ok (item "size" desc) _ h in
      let (digest, has_digest, h₂) = >>=-eq-ok (item "sha256" desc) _ h₁ in
      let (same_size, same_digest) = and-eq-true _ _ (cc h₂) in
      record {
        size = size;
        has_size = has_size;
        same_size = same_size;
        sha256 = has_digest ∙ ap ok (str-json_eq digest _ same_digest);
      }

  pub check_body-IsSigned :
      (desc : Json) (chunks : List Bytes)
      → check_body w desc chunks ≡ ok tt
      → IsSigned w desc (flatten chunks)
  unfolding check_body
  check_body-IsSigned desc chunks h =
      let (body, read, h₁) = >>=-eq-ok (read_chunks desc [] chunks) _ h in
      let (matches, matched, h₂) = >>=-eq-ok (archive_matches w body desc) _ h₁ in
      let same = read_chunks-eq-ok desc [] chunks read in
      let true_match = require-eq-ok matches _ h₂ in
      archive_matches-IsSigned (flatten chunks) desc (rw (← same, ← true_match) matched)
