-- ===== src/Toolchain/Provision/Race.antt =====
-- Where another process completes the target in the last moment.
use tailscale_koolshare.Common.{false, ◌∷◌, ◌≡◌, refl, String}
use tailscale_koolshare.Common.Outcome.{raise, os_error}
use tailscale_koolshare.Python.Json.{Json}
use tailscale_koolshare.Files.{Node, RelativePath, Tree, missing, directory}
use tailscale_koolshare.Toolchain.Tree.Installed.{IsInstalled}
use tailscale_koolshare.Toolchain.Stage.{Disk, before_move, Outside, rename_onto}
use tailscale_koolshare.Toolchain.Provision.{move_aside, after_move, move_unless}

module _ (w : Outside) (lock : Json) (host : String) where
  -- Where a rename onto a directory with entries raises an OSError that is no FileExistsError, and
  -- another process installs the same toolchain just before the rename, provision_go's last step
  -- raises that error, although the target is then complete.
  pub move_unless-race :
      (staging : Tree) (d d' : Disk) (e : RelativePath × Node) (es : Tree)
      → w.collision ≡ os_error
      → w.others before_move (record { cached = d.cached; target = missing }) ≡ d'
      → d'.target ≡ directory (e ∷ es)
      → IsInstalled w.codec lock host (e ∷ es)
      → move_unless w false lock host staging d ≡ (raise os_error, d')
  unfolding move_unless move_aside after_move rename_onto
  move_unless-race staging d d' e es collision others there installed =
      rw (others, there, collision) refl
