-- ===== src/Package/Installer/Rejected.antt =====
-- Which installers `check_host_installer` accepts.
use tailscale_koolshare.Common.{
  ℕ, true, false, List, [], ◌∷◌, ◌++◌, ◌≡◌, refl, ap, sym, ◌∙◌, ◌↔◌, inl, inr, eqb, eqb_iff,
  and-eq-true, and-intro, or-eq-true, not-true, Bool-cases, arith, subst,
}
use tailscale_koolshare.Common.Outcome.{ok, require-eq-ok, >>-eq-ok}
use tailscale_koolshare.Common.Order.{codes}
use tailscale_koolshare.Package.Installer.{begins, occurs, check_token, check_host_installer}

-- The token stands somewhere in the text.
abbrev pub IsIn : List ℕ → List ℕ → Type 0
IsIn token text = (before : List ℕ) × (after : List ℕ) × (text ≡ before ++ token ++ after)

begins_sound :
    (token text : List ℕ) → begins token text ≡ true → (after : List ℕ) × (text ≡ token ++ after)
unfolding begins
begins_sound [] text h = (text, refl)
begins_sound (t ∷ token) [] h = cc
begins_sound (t ∷ token) (b ∷ text) h =
    let (first, rest) = and-eq-true (eqb t b) (begins token text) h in
    let (after, e) = begins_sound token text rest in
    let same : t ≡ b = (eqb_iff t b).0 first in (after, cc)

begins-append : (token after : List ℕ) → begins token (token ++ after) ≡ true
unfolding begins
begins-append [] after = refl
begins-append (t ∷ token) after = and-intro ((eqb_iff t t).1 refl) (begins-append token after)

occurs_sound : (token text : List ℕ) → occurs token text ≡ true → IsIn token text
unfolding occurs
occurs_sound token [] h = let (after, e) = begins_sound token [] h in ([], after, e)
occurs_sound token (b ∷ text) h =
    elim (or-eq-true (begins token (b ∷ text)) (occurs token text) h) [
      | inl here ↦ let (after, e) = begins_sound token (b ∷ text) here in ([], after, e)
      | inr later ↦
          let (before, after, e) = occurs_sound token text later in
          (b ∷ before, after, ap (λ l. b ∷ l) e)
    ]

begins-occurs : (token text : List ℕ) → begins token text ≡ true → occurs token text ≡ true
unfolding occurs
begins-occurs token [] h = h
begins-occurs token (b ∷ text) h = rw h refl

occurs_later :
    (token text : List ℕ) (b : ℕ) → occurs token text ≡ true → occurs token (b ∷ text) ≡ true
unfolding occurs
occurs_later token text b h = ground arith

occurs_complete : (token before after : List ℕ) → occurs token (before ++ token ++ after) ≡ true
occurs_complete token [] after = begins-occurs token (token ++ after) (begins-append token after)
occurs_complete token (b ∷ before) after =
    occurs_later token (before ++ token ++ after) b (occurs_complete token before after)

occurs-IsIn : (token text : List ℕ) → IsIn token text → occurs token text ≡ true
occurs-IsIn token text (before, after, e) =
    subst (λ t. occurs token t ≡ true) (sym e) (occurs_complete token before after)

true-false : true ≡ false → ⊥
true-false h = cc

check_token_sound : (text token : List ℕ) → check_token text token ≡ ok tt → ¬ IsIn token text
unfolding check_token
check_token_sound text token h inside =
    let absent = not-true (occurs token text) (require-eq-ok _ _ h) in
    let present = occurs-IsIn token text inside in true-false (sym present ∙ absent)

check_token_complete : (text token : List ℕ) → ¬ IsIn token text → check_token text token ≡ ok tt
unfolding check_token
check_token_complete text token absent = elim (Bool-cases (occurs token text)) [
  | inl present ↦ absurd (absent (occurs_sound token text present))
  | inr other ↦ rw other refl
]

-- An installer passes check_host_installer exactly when neither detect_package nor ks_tar_install
-- stands anywhere in its bytes.
pub check_host_installer_iff :
    (text : List ℕ)
    → (check_host_installer text ≡ ok tt)
      ↔ (¬ IsIn (codes "detect_package") text × ¬ IsIn (codes "ks_tar_install") text)
unfolding check_host_installer
check_host_installer_iff text = (
  λ h.
      let (first, rest) = >>-eq-ok (check_token text (codes "detect_package")) _ h in
      let (second, _) = >>-eq-ok (check_token text (codes "ks_tar_install")) _ rest in
      (
        check_token_sound text (codes "detect_package") first,
        check_token_sound text (codes "ks_tar_install") second,
      ),
  λ absent.
      rw
        (
          check_token_complete text (codes "detect_package") absent.0,
          check_token_complete text (codes "ks_tar_install") absent.1,
        )
        refl,
)
