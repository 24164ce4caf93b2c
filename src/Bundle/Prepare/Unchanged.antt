-- ===== src/Bundle/Prepare/Unchanged.antt =====
-- What `prepare` leaves of the inputs of the package build.
use tailscale_koolshare.Common.{
  ℕ, String, List, Option, none, some, ◌≡◌, refl, ◌⊎◌, inl, inr, sym, subst,
}
use tailscale_koolshare.Common.Outcome.{Result, ok, raise}
use tailscale_koolshare.Common.State.{
  lift, modify, pure, continue, ◌>>=◌, ◌>>◌, Preserves, then-Preserves,
}
use tailscale_koolshare.Python.Interpreter.{Interpreter}
use tailscale_koolshare.Python.Json.{Json}
use tailscale_koolshare.Files.{Tree}
use tailscale_koolshare.CoreLock.Identity.{bundle_identity}
use tailscale_koolshare.CoreLock.Identity.Stable.{IsIdentity, bundle_identity-eq-ok}
use tailscale_koolshare.Bundle.Stage.{Sources, Stage, stage_all}
use tailscale_koolshare.Bundle.Stage.Verified.{IsStaged, stage_all-IsStaged}
use tailscale_koolshare.Bundle.Prepare.{
  Inputs, Target, arm_core, arm64_core, core_release, put, Disk, replace_target, install, prepare,
}

-- A place is as it was, empty, or as it was staged.
abbrev pub IsPlaced : Option Tree → Tree → Option Tree → Type 0
IsPlaced before staged after = (after ≡ before) ⊎ ((after ≡ none) ⊎ (after ≡ some staged))

pub record IsBetween (stage : Stage) (before after : Inputs) : Type 0 where
  pub arm : IsPlaced before.arm stage.arm.core after.arm
  pub arm64 : IsPlaced before.arm64 stage.arm64.core after.arm64
  pub release : IsPlaced before.release stage.assets after.release

-- All that is put in place is staged of verified inputs for the pin.
pub record IsPinned ⦃py : Interpreter⦄ (encode : String → List ℕ) (s : Sources) (pin : Result Json)
    (before after : Inputs) : Type 0 where
  pub identity : Json
  pub stage : Stage
  pub pin_read : pin ≡ ok identity
  pub is_pin : IsIdentity identity
  pub staged : IsStaged encode s identity stage
  pub between : IsBetween stage before after

-- Nothing has changed, or what has changed is as the pin asks.
abbrev pub IsSafe :
    ⦃py : Interpreter⦄ → (String → List ℕ) → Sources → Result Json → Inputs → Inputs → Type 0
IsSafe encode s pin before after = (after ≡ before) ⊎ IsPinned encode s pin before after

module _ (d : Disk) (stage : Stage) (before : Inputs) where
  replace-IsBetween :
      (target : Target) (tree : Tree)
      → ((b : Inputs) → IsBetween stage before b → IsBetween stage before (put target none b))
      → ((b : Inputs)
          → IsBetween stage before b
          → IsBetween stage before (put target (some tree) b))
      → Preserves (IsBetween stage before) (replace_target d target tree)
  unfolding replace_target
  replace-IsBetween target tree clears fills =
      let P = IsBetween stage before in
      let fill = modify (put target (some tree)) in
      let move = lift (d.moved target) >> fill in
      let clear = modify (put target none) >> move in
      then-Preserves P (lift (d.removed target)) clear (λ b h. h)
        (then-Preserves P (modify (put target none)) move clears
          (then-Preserves P (lift (d.moved target)) fill (λ b h. h) fills))

  install-IsBetween : Preserves (IsBetween stage before) (install d stage)
  unfolding install put
  install-IsBetween =
      let P = IsBetween stage before in
      let last = replace_target d core_release stage.assets in
      let second = replace_target d arm64_core stage.arm64.core in
      then-Preserves P (replace_target d arm_core stage.arm.core) (second >> last)
        (replace-IsBetween arm_core stage.arm.core
          (λ b h. record { arm = inr (inl refl); arm64 = h.arm64; release = h.release })
          (λ b h. record { arm = inr (inr refl); arm64 = h.arm64; release = h.release }))
        (then-Preserves P second last
          (replace-IsBetween arm64_core stage.arm64.core
            (λ b h. record { arm = h.arm; arm64 = inr (inl refl); release = h.release })
            (λ b h. record { arm = h.arm; arm64 = inr (inr refl); release = h.release }))
          (replace-IsBetween core_release stage.assets
            (λ b h. record { arm = h.arm; arm64 = h.arm64; release = inr (inl refl) })
            (λ b h. record { arm = h.arm; arm64 = h.arm64; release = inr (inr refl) })))

module _ (d : Disk) (encode : String → List ℕ) (s : Sources) ⦃py : Interpreter⦄ where
  staged-IsSafe :
      (identity : Json) (r : Result Stage) (b : Inputs)
      → IsIdentity identity
      → stage_all encode s identity ≡ r
      → IsSafe encode s (ok identity) b (continue r (λ stage. install d stage >> pure identity) b).1
  staged-IsSafe identity (raise e) b is_pin h = inl refl
  staged-IsSafe identity (ok stage) b is_pin h =
      let start : IsBetween stage b b = record {
        arm = inl refl;
        arm64 = inl refl;
        release = inl refl;
      } in
      let whole =
        then-Preserves (IsBetween stage b) (install d stage) (pure identity)
          (install-IsBetween d stage b) (λ c k. k) in
      inr (record {
        identity = identity;
        stage = stage;
        pin_read = refl;
        is_pin = is_pin;
        staged = stage_all-IsStaged encode s identity stage h;
        between = whole b start;
      })

  pinned-IsSafe :
      (value : Json) (r : Result Json) (b : Inputs)
      → bundle_identity value ≡ r
      → IsSafe encode s
          (ok value)
          b
          (continue r
            (λ identity. lift (stage_all encode s identity) >>= λ stage.
              install d stage >>= λ _. pure identity)
            b).1
  pinned-IsSafe value (raise e) b h = inl refl
  pinned-IsSafe value (ok identity) b h =
      let (is_pin, same) = bundle_identity-eq-ok value h in
      subst
        (λ v.
          IsSafe encode s (ok v) b
            (continue (stage_all encode s identity) (λ stage. install d stage >> pure identity)
              b).1)
        (sym same)
        (staged-IsSafe identity (stage_all encode s identity) b (subst IsIdentity same is_pin) refl)

  read-IsSafe :
      (pin : Result Json) (b : Inputs) → IsSafe encode s pin b (prepare d encode s pin b).1
  unfolding prepare
  read-IsSafe (raise e) b = inl refl
  read-IsSafe (ok value) b = pinned-IsSafe value (bundle_identity value) b refl

  -- Whatever prepare returns or raises, the inputs of the package build are as before, or each is
  -- as before, removed, or replaced by what was staged, and then the pin that was read is a stable
  -- version and a build number, and all of the stage is verified: for both architectures a signed
  -- descriptor that has the entries of the pin and names the architecture, with the files that the
  -- verifier extracted by it, the same version, build, commit and recipe in both, and a release
  -- that consists of the manifest, the archives that were extracted, under their names, and the
  -- sums of the descriptors.
  pub prepare-IsSafe :
      (pin : Result Json) (b : Inputs) → IsSafe encode s pin b (prepare d encode s pin b).1
  prepare-IsSafe pin b = read-IsSafe pin b
