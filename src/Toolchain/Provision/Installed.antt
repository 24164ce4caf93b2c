-- ===== src/Toolchain/Provision/Installed.antt =====
-- What stands at the target when `provision_go` has returned.
use tailscale_koolshare.Common.{
  String, Bool, true, false, [], ◌∷◌, ◌++◌, Option, none, some, ◌≡◌, refl, ap, subst,
}
use tailscale_koolshare.Common.Outcome.{
  Exception, value_error, runtime_error, type_error, key_error, attribute_error, index_error,
  http_error, os_error, file_exists_error, called_process_error, Result, ok, raise, >>=-eq-ok,
  >>-eq-ok, ok-injective,
}
use tailscale_koolshare.Common.State.{bind-eq-ok, lift-eq-ok, lift}
use tailscale_koolshare.Python.Interpreter.{Interpreter}
use tailscale_koolshare.Python.Json.{Json, text_item}
use tailscale_koolshare.Files.{
  RelativePath, Node, file, link, dir, special, Tree, Place, missing, directory, other, find_node,
  IsTree,
}
use tailscale_koolshare.Toolchain.Tree.{
  Codec, marker_path, tree_hash, check_extracted, marker, installed_valid,
}
use tailscale_koolshare.Toolchain.Tree.Installed.{
  Reads, IsInstalled, installed_valid_sound, put_node-IsInstalled,
}
use tailscale_koolshare.Toolchain.Install.{toolchain_dir, archive_valid}
use tailscale_koolshare.Toolchain.Stage.{
  Disk, before_reuse, before_extract, before_recheck, Outside, archive_of, rename_onto,
  write_marker, stage,
}
use tailscale_koolshare.Toolchain.Provision.{
  fetch_unless, is_installed, move_aside, accept_other, after_move, move_unless, install_unless,
  provision_go,
}

-- Nothing, or a regular file.
abbrev pub IsPlain : Option Node → Type 0
IsPlain none = Unit {0}
IsPlain (some (file mode body)) = Unit {0}
IsPlain (some _) = ⊥

-- A marker that is written can be read again, and an archive that is extracted gives a tree that
-- has no link, directory or device where the marker goes.
pub record IsDocumented (w : Outside) (lock : Json) (host : String) : Type 0 where
  pub reads :
      (tree : Tree) (digest : String)
      → tree_hash w.codec tree ≡ ok digest
      → Reads w.codec
          (marker lock host digest)
          (w.codec.encoded (marker lock host digest) ++ 10 ∷ [])
  pub extracted :
      (cached : Option Node) (tree : Tree)
      → w.extract cached ≡ ok tree
      → IsTree tree × IsPlain (find_node marker_path tree)

abbrev pub InstalledAt : Codec → Json → String → Place → Type 0
InstalledAt c lock host (directory tree) = IsInstalled c lock host tree
InstalledAt c lock host missing = ⊥
InstalledAt c lock host (other node) = ⊥

pub installed_valid-InstalledAt :
    (c : Codec) (lock : Json) (host : String) (place : Place)
    → installed_valid c place lock host ≡ ok true
    → InstalledAt c lock host place
unfolding installed_valid
installed_valid-InstalledAt c lock host (directory tree) h =
    installed_valid_sound c lock host tree h
installed_valid-InstalledAt c lock host missing h = cc
installed_valid-InstalledAt c lock host (other node) h = cc

pub rename_onto-eq-ok :
    (e : Exception) (staging : Tree) (place : Place) {after : Place}
    → rename_onto e staging place ≡ ok after
    → directory staging ≡ after
unfolding rename_onto
rename_onto-eq-ok e staging missing h = ok-injective h
rename_onto-eq-ok e staging (directory []) h = ok-injective h
rename_onto-eq-ok e staging (directory (x ∷ xs)) h = cc
rename_onto-eq-ok e staging (other node) h = cc

module _ (w : Outside) (lock : Json) (host : String) (documented : IsDocumented w lock host) where
  write_marker-IsInstalled :
      (tree : Tree) (version digest : String) {marked : Tree} (n : Option Node)
      → IsTree tree
      → IsPlain n
      → text_item "version" lock ≡ ok version
      → check_extracted w.codec tree version ≡ ok tt
      → tree_hash w.codec tree ≡ ok digest
      → write_marker w (w.codec.encoded (marker lock host digest) ++ 10 ∷ []) n tree ≡ ok marked
      → IsInstalled w.codec lock host marked
  unfolding write_marker
  write_marker-IsInstalled tree version digest none d plain locked checked hashed h =
      subst (IsInstalled w.codec lock host) (ok-injective h) (
        put_node-IsInstalled w.codec lock host tree w.new_mode _ version digest d locked checked
          hashed (documented.reads tree digest hashed))
  write_marker-IsInstalled tree version digest (some (file mode body)) d plain locked checked hashed
        h =
      subst (IsInstalled w.codec lock host) (ok-injective h) (
        put_node-IsInstalled w.codec lock host tree mode _ version digest d locked checked hashed
          (documented.reads tree digest hashed))
  write_marker-IsInstalled tree version digest (some (link target)) d plain locked checked hashed
        h =
      absurd plain
  write_marker-IsInstalled tree version digest (some dir) d plain locked checked hashed h =
      absurd plain
  write_marker-IsInstalled tree version digest (some special) d plain locked checked hashed h =
      absurd plain

  pub stage-IsInstalled :
      (cached : Option Node) {staging : Tree}
      → stage w lock host cached ≡ ok staging
      → IsInstalled w.codec lock host staging
  unfolding stage
  stage-IsInstalled cached h =
      let (tree, extracted, h₁) = >>=-eq-ok (w.extract cached) _ h in
      let (version, locked, h₂) = >>=-eq-ok (text_item "version" lock) _ h₁ in
      let (checked, h₃) = >>-eq-ok (check_extracted w.codec tree version) _ h₂ in
      let (digest, hashed, h₄) = >>=-eq-ok (tree_hash w.codec tree) _ h₃ in
      let (d, plain) = documented.extracted cached tree extracted in
      write_marker-IsInstalled tree version digest (find_node marker_path tree) d plain locked
        checked hashed h₄

  is_installed-InstalledAt :
      (d : Disk) {e : Disk}
      → is_installed w lock host d ≡ (ok true, e)
      → InstalledAt w.codec lock host e.target
  unfolding is_installed
  is_installed-InstalledAt d h =
      let (valid, same) = lift-eq-ok (installed_valid w.codec d.target lock host) d h in
      subst (λ f. InstalledAt w.codec lock host f.target) same
        (installed_valid-InstalledAt w.codec lock host d.target valid)

  after_accept :
      (b : Bool) (d : Disk) {e : Disk} (u : Unit {0})
      → is_installed w lock host d ≡ (ok b, e)
      → accept_other w b ≡ ok u
      → InstalledAt w.codec lock host e.target
  unfolding accept_other
  after_accept true d u installed h = is_installed-InstalledAt d installed
  after_accept false d u installed h = cc

  after_move-InstalledAt :
      (renamed : Result Place) (d : Disk) {e : Disk} (u : Unit {0})
      → ((place : Place) → renamed ≡ ok place → InstalledAt w.codec lock host place)
      → after_move w lock host renamed d ≡ (ok u, e)
      → InstalledAt w.codec lock host e.target
  unfolding after_move
  after_move-InstalledAt (ok place) d u moved h =
      subst (λ f. InstalledAt w.codec lock host f.target) (ap (λ p. p.1) h) (moved place refl)
  after_move-InstalledAt (raise (file_exists_error)) d u moved h =
      let (valid, f, installed, h₁) = bind-eq-ok (is_installed w lock host) _ d h in
      let (accepted, same) = lift-eq-ok (accept_other w valid) f h₁ in
      subst (λ g. InstalledAt w.codec lock host g.target) same
        (after_accept valid d u installed accepted)
  after_move-InstalledAt (raise (os_error)) d u moved h = cc
  after_move-InstalledAt (raise (http_error status)) d u moved h = cc
  after_move-InstalledAt (raise (value_error message)) d u moved h = cc
  after_move-InstalledAt (raise (index_error)) d u moved h = cc
  after_move-InstalledAt (raise (runtime_error message)) d u moved h = cc
  after_move-InstalledAt (raise (type_error)) d u moved h = cc
  after_move-InstalledAt (raise (key_error k)) d u moved h = cc
  after_move-InstalledAt (raise (attribute_error)) d u moved h = cc
  after_move-InstalledAt (raise (called_process_error)) d u moved h = cc

  move_unless-InstalledAt :
      (b : Bool) (staging : Tree) (d f : Disk) {e : Disk} (u : Unit {0})
      → is_installed w lock host f ≡ (ok b, d)
      → IsInstalled w.codec lock host staging
      → move_unless w b lock host staging d ≡ (ok u, e)
      → InstalledAt w.codec lock host e.target
  unfolding move_unless move_aside
  move_unless-InstalledAt true staging d f u installed staged h =
      subst (λ g. InstalledAt w.codec lock host g.target) (ap (λ p. p.1) h)
        (is_installed-InstalledAt f installed)
  move_unless-InstalledAt false staging d f u installed staged h =
      after_move-InstalledAt _ _ u
        (λ place renamed.
          subst (InstalledAt w.codec lock host) (rename_onto-eq-ok w.collision staging _ renamed)
            staged)
        h

  install_unless-InstalledAt :
      (b : Bool) (d f : Disk) {e : Disk} (u : Unit {0})
      → is_installed w lock host f ≡ (ok b, d)
      → install_unless w b lock host d ≡ (ok u, e)
      → InstalledAt w.codec lock host e.target
  unfolding install_unless
  install_unless-InstalledAt true d f u installed h =
      subst (λ g. InstalledAt w.codec lock host g.target) (ap (λ p. p.1) h)
        (is_installed-InstalledAt f installed)
  install_unless-InstalledAt false d f u installed h =
      let g = w.others before_extract d in
      let (staging, k, staged, h₁) = bind-eq-ok (lift (stage w lock host g.cached)) _ g h in
      let (staged', same) = lift-eq-ok (stage w lock host g.cached) g staged in
      let (valid, l, again, h₂) =
        bind-eq-ok (is_installed w lock host) _ (w.others before_recheck k) h₁ in
      move_unless-InstalledAt valid staging l _ u again (stage-IsInstalled g.cached staged') h₂

  -- When provision_go returns, whatever other processes have done to the cached archive and to the
  -- target at the four places between its steps, the target is a directory with an executable
  -- go/bin/go, the stamp of the locked version, and a marker that reads as the lock, the host and
  -- the hash of that very tree; this holds where a marker that is written reads back as an equal
  -- value and an extracted archive has no link, directory or device in the place of the marker.
  pub provision_go-InstalledAt :
      ⦃py : Interpreter⦄ (role : String) (d e : Disk) (path : RelativePath)
      → provision_go w lock host role d ≡ (ok path, e)
      → InstalledAt w.codec lock host e.target
  unfolding provision_go
  provision_go-InstalledAt role d e path h =
      let (target, d₁, _, h₁) = bind-eq-ok (lift (toolchain_dir w.codec role lock host)) _ d h in
      let (archive, d₂, _, h₂) = bind-eq-ok (lift (archive_of lock host)) _ d₁ h₁ in
      let (valid, d₃, _, h₃) =
        bind-eq-ok (lift (archive_valid w.codec d₂.cached archive)) _ d₂ h₂ in
      let (_, d₄, _, h₄) = bind-eq-ok (fetch_unless w valid archive) _ d₃ h₃ in
      let (installed, d₅, there, h₅) =
        bind-eq-ok (is_installed w lock host) _ (w.others before_reuse d₄) h₄ in
      let (u, d₆, done, h₆) = bind-eq-ok (install_unless w installed lock host) _ d₅ h₅ in
      subst (λ g. InstalledAt w.codec lock host g.target) (ap (λ p. p.1) h₆)
        (install_unless-InstalledAt installed d₅ _ u there done)
