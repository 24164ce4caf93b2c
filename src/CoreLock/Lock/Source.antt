-- ===== src/CoreLock/Lock/Source.antt =====
-- What `check_source` accepts.
use tailscale_koolshare.Common.{String, true, [], ◌∷◌, ◌≡◌, refl, ap, ◌∙◌, sym}
use tailscale_koolshare.Common.Outcome.{ok, require, >>=-eq-ok, >>-eq-ok, require-eq-ok}
use tailscale_koolshare.Python.Interpreter.{Interpreter}
use tailscale_koolshare.Python.Regex.{Regex, codes, times}
use tailscale_koolshare.Python.Regex.Language.{Lang}
use tailscale_koolshare.Python.Regex.Laws.{fullmatch_iff}
use tailscale_koolshare.Python.Json.{Json, null, bool, int, float, str, arr, obj, item, text_item}
use tailscale_koolshare.Python.Json.Laws.{
  At, json_eq-str, json_eq-str_refl, text_item-eq-ok, text_item-At,
}
use tailscale_koolshare.Toolchain.Lock.{hex, has_fields, is_match}
use tailscale_koolshare.CoreLock.Lock.{source_url, check_source}

-- The entry is a text of the expression's language.
abbrev pub IsText : Regex → Json → Type 0
IsText r v = (s : String) × (v ≡ str s) × Lang r (codes s)

pub is_match-IsText : (r : Regex) (v : Json) → is_match r v ≡ true → IsText r v
unfolding is_match
is_match-IsText r (str s) h = (s, refl, (fullmatch_iff r s).0 h)
is_match-IsText r null h = cc
is_match-IsText r (bool b) h = cc
is_match-IsText r (int n) h = cc
is_match-IsText r (float m k) h = cc
is_match-IsText r (arr vs) h = cc
is_match-IsText r (obj fs) h = cc

pub IsText-is_match : (r : Regex) (v : Json) → IsText r v → is_match r v ≡ true
unfolding is_match
IsText-is_match r v (s, e, l) = rw e ((fullmatch_iff r s).1 l)

module _ ⦃py : Interpreter⦄ where
  -- A commit of 40 hexadecimal digits, the URL of its archive at GitHub, and a digest of 64.
  pub record IsSource (source : Json) : Type 0 where
    pub exact : has_fields ("commit" ∷ "url" ∷ "sha256" ∷ []) source ≡ true
    pub commit : String
    pub at_commit : At "commit" source (str commit)
    pub is_commit : Lang (times 40 hex) (codes commit)
    pub sha256 : Json
    pub at_sha256 : At "sha256" source sha256
    pub is_sha256 : IsText (times 64 hex) sha256
    pub at_url : At "url" source (str (source_url commit))

  pub check_source_sound :
      (source digest : Json)
      → check_source source digest ≡ ok tt
      → IsSource source × IsText (times 64 hex) digest
  unfolding check_source
  check_source_sound source digest h =
      let (exact, h₁) = >>-eq-ok (require _ _) _ h in
      let (commit, at_commit, h₂) = >>=-eq-ok (item "commit" source) _ h₁ in
      let (sha256, at_sha256, h₃) = >>=-eq-ok (item "sha256" source) _ h₂ in
      let (commit_match, h₄) = >>-eq-ok (require _ _) _ h₃ in
      let (sha256_match, h₅) = >>-eq-ok (require _ _) _ h₄ in
      let (digest_match, h₆) = >>-eq-ok (require _ _) _ h₅ in
      let (url, at_url, h₇) = >>=-eq-ok (item "url" source) _ h₆ in
      let (text, is_text, h₈) = >>=-eq-ok (text_item "commit" source) _ h₇ in
      let (s, e, l) = is_match-IsText (times 40 hex) commit (require-eq-ok _ _ commit_match) in
      let at_s = at_commit ∙ ap ok e in
      let twice = sym at_s ∙ text_item-eq-ok "commit" source is_text in
      let same : text ≡ s = cc in
      (
        record {
          exact = require-eq-ok _ _ exact;
          commit = s;
          at_commit = at_s;
          is_commit = l;
          sha256 = sha256;
          at_sha256 = at_sha256;
          is_sha256 = is_match-IsText _ sha256 (require-eq-ok _ _ sha256_match);
          at_url =
              at_url
              ∙ ap ok (json_eq-str url (source_url text) (require-eq-ok _ _ h₈))
              ∙ ap (λ t. ok (str (source_url t))) same;
        },
        is_match-IsText _ digest (require-eq-ok _ _ digest_match),
      )

  pub check_source_complete :
      (source digest : Json)
      → IsSource source
      → IsText (times 64 hex) digest
      → check_source source digest ≡ ok tt
  unfolding check_source is_match
  check_source_complete source digest s (d, is_text, l) =
      let (sha, is_sha, sha_l) = s.is_sha256 in
      rw (
        s.exact,
        s.at_commit,
        s.at_sha256,
        is_sha,
        is_text,
        (fullmatch_iff (times 40 hex) s.commit).1 s.is_commit,
        (fullmatch_iff (times 64 hex) sha).1 sha_l,
        (fullmatch_iff (times 64 hex) d).1 l,
        s.at_url,
        text_item-At "commit" source s.at_commit,
        json_eq-str_refl (source_url s.commit),
      )
