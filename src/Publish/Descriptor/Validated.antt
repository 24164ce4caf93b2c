-- ===== src/Publish/Descriptor/Validated.antt =====
-- What `validate_archives` has established of the local release directory.
use tailscale_koolshare.Common.{String, true, ◌≡◌, ap, ◌∙◌, sym, subst}
use tailscale_koolshare.Common.Outcome.{
  ok, require, >>=-eq-ok, >>-eq-ok, require-eq-ok, ok-injective,
}
use tailscale_koolshare.Python.Json.{Json}
use tailscale_koolshare.Publish.Action.{Bytes, World}
use tailscale_koolshare.Publish.Descriptor.{
  Descriptors, archive_file, archive_matches, validate_archive, validate_archives,
}
use tailscale_koolshare.Publish.Descriptor.Body.{IsSigned, archive_matches-IsSigned}

module _ (w : World) where
  -- The local manifest is signed for the descriptor, and the archive that its URL names is there,
  -- has the signed size and digest, and can be extracted.
  pub record IsValidated (arch : String) (desc : Json) : Type 0 where
    pub manifest : Bytes
    pub has_manifest : w.file "manifest.json" ≡ ok manifest
    pub signed : w.verify manifest arch ≡ ok desc
    pub name : String
    pub named : archive_file desc ≡ ok name
    pub archive : Bytes
    pub has_archive : w.file name ≡ ok archive
    pub matching : IsSigned w desc archive
    pub extracted : w.extract archive desc ≡ ok tt

  validate_archive-IsValidated :
      (arch : String) {desc : Json} → validate_archive w arch ≡ ok desc → IsValidated arch desc
  unfolding validate_archive
  validate_archive-IsValidated arch {desc} h =
      let (manifest, has_manifest, h₁) = >>=-eq-ok (w.file "manifest.json") _ h in
      let (found, signed, h₂) = >>=-eq-ok (w.verify manifest arch) _ h₁ in
      let (name, named, h₃) = >>=-eq-ok (archive_file found) _ h₂ in
      let (archive, has_archive, h₄) = >>=-eq-ok (w.file name) _ h₃ in
      let (matches, matched, h₅) = >>=-eq-ok (archive_matches w archive found) _ h₄ in
      let (required, h₆) = >>-eq-ok (require matches _) _ h₅ in
      let (extracted, h₇) = >>-eq-ok (w.extract archive found) _ h₆ in
      let is_true : matches ≡ true = require-eq-ok matches _ required in
      subst (IsValidated arch) (ok-injective h₇) (record {
        manifest = manifest;
        has_manifest = has_manifest;
        signed = signed;
        name = name;
        named = named;
        archive = archive;
        has_archive = has_archive;
        matching = archive_matches-IsSigned w archive found (matched ∙ ap ok is_true);
        extracted = extracted;
      })

  -- When validate_archives returns, the local manifest is signed for each architecture with the
  -- descriptor returned, and the archive that it names has the signed size and digest and can be
  -- extracted.
  pub validate_archives-IsValidated :
      (ds : Descriptors)
      → validate_archives w ≡ ok ds
      → IsValidated "arm" ds.arm × IsValidated "arm64" ds.arm64
  unfolding validate_archives
  validate_archives-IsValidated ds h =
      let (arm, arm_ok, h₁) = >>=-eq-ok (validate_archive w "arm") _ h in
      let (arm64, arm64_ok, h₂) = >>=-eq-ok (validate_archive w "arm64") _ h₁ in
      let same = ok-injective h₂ in
      (
        subst (IsValidated "arm") (ap (λ d. d.arm) same)
            (validate_archive-IsValidated "arm" arm_ok),
        subst (IsValidated "arm64") (ap (λ d. d.arm64) same)
            (validate_archive-IsValidated "arm64" arm64_ok),
      )

  -- The local manifest is signed for the validated descriptors.
  pub validated_manifest :
      (ds : Descriptors) (body : Bytes)
      → validate_archives w ≡ ok ds
      → w.file "manifest.json" ≡ ok body
      → (w.verify body "arm" ≡ ok ds.arm) × (w.verify body "arm64" ≡ ok ds.arm64)
  validated_manifest ds body h file =
      let (arm, arm64) = validate_archives-IsValidated ds h in
      let e : arm.manifest ≡ body = ok-injective (sym arm.has_manifest ∙ file) in
      let e' : arm64.manifest ≡ body = ok-injective (sym arm64.has_manifest ∙ file) in
      (
        subst (λ b. w.verify b "arm" ≡ ok ds.arm) e arm.signed,
        subst (λ b. w.verify b "arm64" ≡ ok ds.arm64) e' arm64.signed,
      )
