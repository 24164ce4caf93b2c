-- ===== src/Package/Installer.antt =====
-- `check_host_installer` of tools/package.py.
pub mod Rejected
use tailscale_koolshare.Common.{ℕ, Bool, true, false, not, ◌&&◌, ◌||◌, List, [], ◌∷◌, eqb}
use tailscale_koolshare.Common.Outcome.{Result, ok, require, for_each}
use tailscale_koolshare.Common.Order.{codes}

-- `text.startswith(token)` for bytes
unfoldable pub begins : List ℕ → List ℕ → Bool
begins [] text = true
begins (t ∷ token) [] = false
begins (t ∷ token) (b ∷ text) = eqb t b && begins token text

-- `token in text` for bytes
unfoldable pub occurs : List ℕ → List ℕ → Bool
occurs token [] = begins token []
occurs token (b ∷ text) = begins token (b ∷ text) || occurs token text

abbrev pub blocked_text : List (List ℕ)
blocked_text = codes "detect_package" ∷ codes "ks_tar_install" ∷ []

unfoldable pub check_token : List ℕ → List ℕ → Result (Unit {0})
check_token text token =
    require (not (occurs token text)) "software-center installer guard rejects text"

unfoldable pub check_host_installer : List ℕ → Result (Unit {0})
check_host_installer text = for_each (check_token text) blocked_text
