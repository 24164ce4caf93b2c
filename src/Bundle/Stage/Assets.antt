-- ===== src/Bundle/Stage/Assets.antt =====
-- The files of the release as they are staged.
use mathlib.Core.Option.{some-injective}
use tailscale_koolshare.Common.{
  ℕ, String, List, [], ◌∷◌, some, ◌≡◌, ◌⊎◌, inl, inr, refl, sym, Bool-cases, eq_iff, ◌==◌,
}
use tailscale_koolshare.Python.Text.{◌<>◌}
use tailscale_koolshare.Files.{file, Tree, same_path}
use tailscale_koolshare.Files.Laws.{find_node-put_node, find_node-put_other}
use tailscale_koolshare.Bundle.Stage.{put_asset, asset}

-- The manifest is the one that was fetched, unless an archive of that name has replaced it.
abbrev pub IsManifest : List ℕ → List ℕ → String → List ℕ → Type 0
IsManifest first archive name second =
    (second ≡ first) ⊎ ((name ≡ "manifest.json") × (second ≡ archive))

pub same_assets :
    (encode : String → List ℕ) {a b c d : String} {t u : Tree}
    → a ≡ b
    → c ≡ d
    → t ≡ u
    → put_asset "SHA256SUMS" (encode (a <> c)) t ≡ put_asset "SHA256SUMS" (encode (b <> d)) u
same_assets encode e f g = rw (e, f, g) refl

pub first_manifest :
    (manifest : List ℕ) {found : List ℕ}
    → asset "manifest.json" (put_asset "manifest.json" manifest []) ≡ some found
    → found ≡ manifest
unfolding asset
first_manifest manifest h =
    let stored = find_node-put_node ("manifest.json" ∷ []) (file 420 manifest) [] in
    some-injective _ _ (sym (rw stored at h))

-- What is read as the manifest after an archive has been put beside it.
pub asset-put_asset :
    (name : String) (archive manifest : List ℕ) {found : List ℕ}
    → asset "manifest.json" (put_asset name archive (put_asset "manifest.json" manifest []))
      ≡ some found
    → IsManifest manifest archive name found
unfolding asset same_path
asset-put_asset name archive manifest {found} h =
    let start = put_asset "manifest.json" manifest [] in
    elim (Bool-cases (name == "manifest.json")) [
      | inl same ↦
          let is_name = (eq_iff name "manifest.json").0 same in
          let stored = find_node-put_node ("manifest.json" ∷ []) (file 420 archive) start in
          inr (is_name, some-injective _ _ (sym (rw (is_name, stored) at h)))
      | inr other ↦
          let kept =
            find_node-put_other (name ∷ []) ("manifest.json" ∷ []) (file 420 archive) start
              (rw other refl) in
          let stored = find_node-put_node ("manifest.json" ∷ []) (file 420 manifest) [] in
          inl (some-injective _ _ (sym (rw (kept, stored) at h)))
    ]
