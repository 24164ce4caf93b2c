-- ===== src/Bundle/Prepare/Replaced.antt =====
-- What `prepare` has put in place where it returns.
use tailscale_koolshare.Common.{ℕ, String, List, none, some, ◌≡◌, ap, ◌∙◌, sym, subst}
use tailscale_koolshare.Common.Outcome.{Result, ok, ok-injective}
use tailscale_koolshare.Common.State.{bind-eq-ok, lift-eq-ok, lift}
use tailscale_koolshare.Python.Interpreter.{Interpreter}
use tailscale_koolshare.Python.Json.{Json}
use tailscale_koolshare.Files.{Tree}
use tailscale_koolshare.CoreLock.Identity.{bundle_identity}
use tailscale_koolshare.CoreLock.Identity.Stable.{IsIdentity, bundle_identity-eq-ok}
use tailscale_koolshare.Bundle.Stage.{Sources, Stage, stage_all}
use tailscale_koolshare.Bundle.Stage.Verified.{IsStaged, stage_all-IsStaged}
use tailscale_koolshare.Bundle.Prepare.{
  Inputs, Target, arm_core, arm64_core, core_release, put, Disk, replace_target, install, prepare,
}

-- The inputs of the package build, all of them as staged.
abbrev pub inputs_of : Stage → Inputs
inputs_of stage = record {
  arm = some stage.arm.core;
  arm64 = some stage.arm64.core;
  release = some stage.assets;
}

-- The pin is a stable version and a build, and the inputs are staged of verified parts of it.
pub record IsPrepared ⦃py : Interpreter⦄ (encode : String → List ℕ) (s : Sources)
    (pin : Result Json) (identity : Json) (after : Inputs) : Type 0 where
  pub stage : Stage
  pub pin_read : pin ≡ ok identity
  pub is_pin : IsIdentity identity
  pub staged : IsStaged encode s identity stage
  pub replaced : after ≡ inputs_of stage

module _ (d : Disk) where
  replace_target-eq-ok :
      (target : Target) (tree : Tree) (b : Inputs) {u : Unit {0}} {c : Inputs}
      → replace_target d target tree b ≡ (ok u, c)
      → put target (some tree) (put target none b) ≡ c
  unfolding replace_target
  replace_target-eq-ok target tree b h =
      let (_, b₁, removed, h₁) = bind-eq-ok (lift (d.removed target)) _ b h in
      let (_, same₁) = lift-eq-ok (d.removed target) b removed in
      let (_, b₂, moved, h₂) = bind-eq-ok (lift (d.moved target)) _ (put target none b₁) h₁ in
      let (_, same₂) = lift-eq-ok (d.moved target) (put target none b₁) moved in
      ap (λ x. put target (some tree) (put target none x)) same₁
      ∙ ap (put target (some tree)) same₂
      ∙ ap (λ p. p.1) h₂

  install-eq-ok :
      (stage : Stage) (b : Inputs) {u : Unit {0}} {c : Inputs}
      → install d stage b ≡ (ok u, c)
      → inputs_of stage ≡ c
  unfolding install put
  install-eq-ok stage b h =
      let (_, b₁, first, h₁) = bind-eq-ok (replace_target d arm_core stage.arm.core) _ b h in
      let (_, b₂, second, h₂) = bind-eq-ok (replace_target d arm64_core stage.arm64.core) _ b₁ h₁ in
      let e₁ = replace_target-eq-ok arm_core stage.arm.core b first in
      let e₂ = replace_target-eq-ok arm64_core stage.arm64.core b₁ second in
      let e₃ = replace_target-eq-ok core_release stage.assets b₂ h₂ in
      ap
        (λ x.
          put core_release (some stage.assets) (
            put core_release none (put arm64_core (some stage.arm64.core) (put arm64_core none x))))
        e₁
      ∙ ap (λ x. put core_release (some stage.assets) (put core_release none x)) e₂
      ∙ e₃

  -- When prepare returns, it returns the pin that was read, which is a stable version and a build
  -- number, and all three inputs of the package build are replaced by a stage that is verified for
  -- that pin: the files that the verifier extracted for each architecture by a signed descriptor
  -- of the pin, and the release with the manifest, these archives and their sums.
  pub prepare-IsPrepared :
      (encode : String → List ℕ) (s : Sources) ⦃py : Interpreter⦄ (pin : Result Json)
      (b after : Inputs) (identity : Json)
      → prepare d encode s pin b ≡ (ok identity, after)
      → IsPrepared encode s pin identity after
  unfolding prepare
  prepare-IsPrepared encode s pin b after identity h =
      let (value, b₁, read, h₁) = bind-eq-ok (lift pin) _ b h in
      let (identity', b₂, is_pin, h₂) = bind-eq-ok (lift (bundle_identity value)) _ b₁ h₁ in
      let (stage, b₃, staged, h₃) = bind-eq-ok (lift (stage_all encode s identity')) _ b₂ h₂ in
      let (_, b₄, installed, h₄) = bind-eq-ok (install d stage) _ b₃ h₃ in
      let same : identity' ≡ identity = ok-injective (ap (λ p. p.0) h₄) in
      let (pinned, _) = lift-eq-ok (bundle_identity value) b₁ is_pin in
      let (all_staged, _) = lift-eq-ok (stage_all encode s identity') b₂ staged in
      let (pin_read, _) = lift-eq-ok pin b read in
      let (is_pin, as_given) = bundle_identity-eq-ok value pinned in
      record {
        stage = stage;
        pin_read = pin_read ∙ ap ok (as_given ∙ same);
        is_pin = subst IsIdentity (as_given ∙ same) is_pin;
        staged =
            subst (λ i. IsStaged encode s i stage) same
              (stage_all-IsStaged encode s identity' stage all_staged);
        replaced = sym (ap (λ p. p.1) h₄) ∙ sym (install-eq-ok stage b₃ installed);
      }
