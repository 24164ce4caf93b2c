-- ===== src/Toolchain/Install.antt =====
-- `toolchain_dir` and `_archive_valid` of tools/toolchain.py.
use tailscale_koolshare.Common.{
  ℕ, zero, suc, pos, String, Bool, true, false, List, [], ◌∷◌, Option, some, length,
}
use tailscale_koolshare.Common.Outcome.{Result, ok, ◌>>=◌, ◌>>◌, require}
use tailscale_koolshare.Python.Interpreter.{Interpreter}
use tailscale_koolshare.Python.Regex.{Regex, range, alt, lit, seq, up_to, fullmatch}
use tailscale_koolshare.Python.Text.{◌<>◌}
use tailscale_koolshare.Python.Json.{Json, int, str, json_eq, item, text_item, contains}
use tailscale_koolshare.Toolchain.Lock.{arches, validate_go_lock}
use tailscale_koolshare.Files.{RelativePath, Node, file}
use tailscale_koolshare.Toolchain.Tree.{Codec}

-- `s[:n]`
unfoldable pub prefix : ℕ → String → String
prefix zero s = ""
prefix (suc n) String.[] = ""
prefix (suc n) (String.◌∷◌ c s) = String.◌∷◌ c (prefix n s)

-- `[a-z][a-z0-9_-]{0,31}`
abbrev pub role_name : Regex
role_name =
    seq (range b'a' b'z')
      (up_to 31 (alt (range b'a' b'z') (alt (range b'0' b'9') (alt (lit "_") (lit "-")))))

-- The directory of a toolchain below the cache.
module _ ⦃py : Interpreter⦄ (c : Codec) where
  unfoldable pub toolchain_dir : String → Json → String → Result RelativePath
  toolchain_dir role lock host = do
    _ ← validate_go_lock lock
    require (fullmatch role_name role) "invalid Go toolchain role"
    require (contains host arches) "unsupported Go host architecture"
    version ← text_item "version" lock
    ok (
        "toolchains"
        ∷ role
        ∷ ("go" <> version)
        ∷ (host <> "-" <> prefix 16 (c.sha256 (c.encoded lock)))
        ∷ [])

module _ (c : Codec) where
  -- The comparison of the digest, by whether the size is that of the lock.
  unfoldable pub digest_matches : Bool → List ℕ → Json → Result Bool
  digest_matches false body archive = ok false
  digest_matches true body archive = do
    sha256 ← item "sha256" archive
    ok (json_eq (str (c.sha256 body)) sha256)

  unfoldable pub archive_valid : Option Node → Json → Result Bool
  archive_valid (some (file mode body)) archive = do
    size ← item "size" archive
    digest_matches (json_eq (int (pos (length body))) size) body archive
  archive_valid _ archive = ok false
