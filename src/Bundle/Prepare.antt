-- ===== src/Bundle/Prepare.antt =====
-- `prepare` of tools/prepare_bundle.py, on the inputs of the package build.
pub mod Replaced
pub mod Unchanged
use tailscale_koolshare.Common.{ℕ, String, Bool, true, false, List, Option, none, some}
use tailscale_koolshare.Common.Outcome.{Result, ok, raise}
use tailscale_koolshare.Common.State.{Run, ◌>>=◌, ◌>>◌, lift, modify, pure}
use tailscale_koolshare.Python.Interpreter.{Interpreter}
use tailscale_koolshare.Python.Json.{Json}
use tailscale_koolshare.Files.{Tree}
use tailscale_koolshare.CoreLock.Identity.{bundle_identity}
use tailscale_koolshare.Bundle.Stage.{Sources, Staged, Stage, stage_all}

-- build/cores/arm, build/cores/arm64 and build/core-release, where they are there.
pub record Inputs : Type 0 where
  pub arm : Option Tree
  pub arm64 : Option Tree
  pub release : Option Tree

pub data Target : Type 0 where
  arm_core : Target
  arm64_core : Target
  core_release : Target

unfoldable pub put : Target → Option Tree → Inputs → Inputs
put arm_core tree b = record { arm = tree; arm64 = b.arm64; release = b.release }
put arm64_core tree b = record { arm = b.arm; arm64 = tree; release = b.release }
put core_release tree b = record { arm = b.arm; arm64 = b.arm64; release = tree }

-- `rmtree` and `move` may fail.
pub record Disk : Type 0 where
  pub removed : Target → Result (Unit {0})
  pub moved : Target → Result (Unit {0})

module _ (d : Disk) where
  -- What stands at a target is removed, then the staged directory is moved there.
  unfoldable pub replace_target : Target → Tree → Run Inputs (Unit {0})
  replace_target target tree = do
    lift (d.removed target)
    modify (put target none)
    lift (d.moved target)
    modify (put target (some tree))

  unfoldable pub install : Stage → Run Inputs (Unit {0})
  install stage = do
    replace_target arm_core stage.arm.core
    replace_target arm64_core stage.arm64.core
    replace_target core_release stage.assets

  -- `pin` is the JSON of tools/bundled_core.json.
  unfoldable pub prepare :
      ⦃py : Interpreter⦄ → (String → List ℕ) → Sources → Result Json → Run Inputs Json
  prepare encode s pin = do
    value ← lift pin
    identity ← lift (bundle_identity value)
    stage ← lift (stage_all encode s identity)
    install stage
    pure identity
