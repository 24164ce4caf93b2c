-- ===== src/Toolchain/Lock/Archive.antt =====
-- What the entry of one architecture in a toolchain lock holds when it passes `check_archive`.
use tailscale_koolshare.Common.{ℕ, suc, pos, String, true, [], ◌∷◌, ◌≡◌, refl, ap, ◌∙◌, and-eq-true}
use tailscale_koolshare.Common.Outcome.{ok, require, >>=-eq-ok, >>-eq-ok, require-eq-ok}
use tailscale_koolshare.Python.Regex.{times, fullmatch}
use tailscale_koolshare.Python.Json.{Json, null, bool, int, float, str, arr, obj, item}
use tailscale_koolshare.Python.Json.Laws.{At, json_eq-str, json_eq-str_refl}
use tailscale_koolshare.Toolchain.Lock.{
  hex, has_fields, is_match, is_positive_int, archive_name, archive_url, check_archive,
}

-- The entry of one architecture: the exact official name and URL of the release, a digest of 64
-- hexadecimal digits and a positive size, and nothing else.
pub record IsArchive (v : String) (archives : Json) (arch : String) : Type 0 where
  pub archive : Json
  pub listed : At arch archives archive
  pub exact : has_fields ("filename" ∷ "url" ∷ "sha256" ∷ "size" ∷ []) archive ≡ true
  pub filename : At "filename" archive (str (archive_name v arch))
  pub url : At "url" archive (str (archive_url (archive_name v arch)))
  pub digest : String
  pub sha256 : At "sha256" archive (str digest)
  pub is_digest : fullmatch (times 64 hex) digest ≡ true
  pub bytes : ℕ
  pub size : At "size" archive (int (pos (suc bytes)))

is_match-str :
    (v : Json)
    → is_match (times 64 hex) v ≡ true
    → (s : String) × (v ≡ str s) × (fullmatch (times 64 hex) s ≡ true)
unfolding is_match
is_match-str (str s) h = (s, refl, h)
is_match-str null h = cc
is_match-str (bool b) h = cc
is_match-str (int n) h = cc
is_match-str (float m k) h = cc
is_match-str (arr vs) h = cc
is_match-str (obj fs) h = cc

is_positive_int-int : (v : Json) → is_positive_int v ≡ true → (n : ℕ) × (v ≡ int (pos (suc n)))
unfolding is_positive_int
is_positive_int-int (int (pos (suc n))) h = (n, refl)
is_positive_int-int v h = cc

pub check_archive_sound :
    (v : String) (archives : Json) (arch : String)
    → check_archive v archives arch ≡ ok tt
    → IsArchive v archives arch
unfolding check_archive
check_archive_sound v archives arch h =
    let (archive, listed, h₁) = >>=-eq-ok (item arch archives) _ h in
    let (exact, h₂) = >>-eq-ok (require _ _) _ h₁ in
    let (filename, at_filename, h₃) = >>=-eq-ok (item "filename" archive) _ h₂ in
    let (url, at_url, h₄) = >>=-eq-ok (item "url" archive) _ h₃ in
    let (names, h₅) = >>-eq-ok (require _ _) _ h₄ in
    let (sha, at_sha, h₆) = >>=-eq-ok (item "sha256" archive) _ h₅ in
    let (digest, h₇) = >>-eq-ok (require _ _) _ h₆ in
    let (size, at_size, h₈) = >>=-eq-ok (item "size" archive) _ h₇ in
    let (same_name, same_url) = and-eq-true _ _ (require-eq-ok _ _ names) in
    let (s, is_text, matched) = is_match-str sha (require-eq-ok _ _ digest) in
    let (n, is_size) = is_positive_int-int size (require-eq-ok _ _ h₈) in
    record {
      archive = archive;
      listed = listed;
      exact = require-eq-ok _ _ exact;
      filename = at_filename ∙ ap ok (json_eq-str filename _ same_name);
      url = at_url ∙ ap ok (json_eq-str url _ same_url);
      digest = s;
      sha256 = at_sha ∙ ap ok is_text;
      is_digest = matched;
      bytes = n;
      size = at_size ∙ ap ok is_size;
    }

pub check_archive_complete :
    (v : String) (archives : Json) (arch : String)
    → IsArchive v archives arch
    → check_archive v archives arch ≡ ok tt
unfolding check_archive is_match is_positive_int
check_archive_complete v archives arch a = rw (
  a.listed,
  a.exact,
  a.filename,
  a.url,
  json_eq-str_refl (archive_name v arch),
  json_eq-str_refl (archive_url (archive_name v arch)),
  a.sha256,
  a.is_digest,
  a.size,
)
