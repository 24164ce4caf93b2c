-- ===== src/Toolchain/Provision.antt =====
-- `provision_go` of tools/toolchain.py, on the two places of the disk that it uses: the archive in
-- the download cache, and the directory of the toolchain. Other processes may change both between
-- its steps; to look at a place and to move what stands there away counts as one step. Failures of
-- `mkdir` and of the temporary directories are left out.
pub mod Race
mod Tests
pub mod Installed
use tailscale_koolshare.Common.{String, Bool, true, false}
use tailscale_koolshare.Common.Outcome.{
  Exception, value_error, file_exists_error, Result, ok, raise,
}
use tailscale_koolshare.Common.State.{Run, ◌>>=◌, ◌>>◌, lift, gets, modify, pure}
use tailscale_koolshare.Python.Interpreter.{Interpreter}
use tailscale_koolshare.Python.Json.{Json, text_item}
use tailscale_koolshare.Files.{RelativePath, Tree, Place, missing}
use tailscale_koolshare.Toolchain.Tree.{installed_valid}
use tailscale_koolshare.Toolchain.Install.{toolchain_dir, archive_valid}
use tailscale_koolshare.Toolchain.Stage.{
  Disk, Moment, before_reuse, before_extract, before_recheck, before_move, Outside, archive_of,
  replace_file, rename_onto, stage,
}

module _ (w : Outside) where
  unfoldable pub candidate_ok : Bool → Result (Unit {0})
  candidate_ok true = ok tt
  candidate_ok false =
      raise (value_error "downloaded Go archive differs from its locked size or SHA-256")

  -- By whether the archive in the cache is that of the lock.
  unfoldable pub fetch_unless : Bool → Json → Run Disk (Unit {0})
  fetch_unless true archive = pure tt
  fetch_unless false archive = do
    url ← lift (text_item "url" archive)
    sha256 ← lift (text_item "sha256" archive)
    candidate ← lift (w.download url sha256)
    valid ← lift (archive_valid w.codec candidate archive)
    lift (candidate_ok valid)
    current ← gets (λ d. d.cached)
    cached ← lift (replace_file candidate current)
    modify (λ d. record { cached = cached; target = d.target })

  unfoldable pub is_installed : Json → String → Run Disk Bool
  is_installed lock host d = (installed_valid w.codec d.target lock host, d)

  -- What stands at the target is moved into the temporary directory.
  unfoldable pub move_aside : Run Disk (Unit {0})
  move_aside = modify (λ d. record { cached = d.cached; target = missing })

  -- A tree that another process has put there in the meantime will do.
  unfoldable pub accept_other : Bool → Result (Unit {0})
  accept_other true = ok tt
  accept_other false = raise file_exists_error

  unfoldable pub after_move : Json → String → Result Place → Run Disk (Unit {0})
  after_move lock host (ok place) = modify (λ d. record { cached = d.cached; target = place })
  after_move lock host (raise (file_exists_error)) =
      is_installed lock host >>= λ valid. lift (accept_other valid)
  after_move lock host (raise e) = lift (raise e)

  -- By whether another process has already completed the same lock.
  unfoldable pub move_unless : Bool → Json → String → Tree → Run Disk (Unit {0})
  move_unless true lock host staging = pure tt
  move_unless false lock host staging = do
    move_aside
    modify (w.others before_move)
    renamed ← gets (λ d. rename_onto w.collision staging d.target)
    after_move lock host renamed

  -- By whether the target is there and valid.
  unfoldable pub install_unless : Bool → Json → String → Run Disk (Unit {0})
  install_unless true lock host = pure tt
  install_unless false lock host = do
    modify (w.others before_extract)
    cached ← gets (λ d. d.cached)
    staging ← lift (stage w lock host cached)
    modify (w.others before_recheck)
    valid ← is_installed lock host
    move_unless valid lock host staging

  unfoldable pub provision_go : ⦃py : Interpreter⦄ → Json → String → String → Run Disk RelativePath
  provision_go lock host role = do
    target ← lift (toolchain_dir w.codec role lock host)
    archive ← lift (archive_of lock host)
    current ← gets (λ d. d.cached)
    valid ← lift (archive_valid w.codec current archive)
    fetch_unless valid archive
    modify (w.others before_reuse)
    installed ← is_installed lock host
    install_unless installed lock host
    pure target
