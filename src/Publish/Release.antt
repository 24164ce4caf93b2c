-- ===== src/Publish/Release.antt =====
-- What the script reads in the JSON of a release.
use tailscale_koolshare.Common.{String, Bool, List, [], ◌∷◌, none, some, if◌then◌else◌, all}
use tailscale_koolshare.Common.Outcome.{Result, ok, raise, ◌>>=◌, type_error, attribute_error}
use tailscale_koolshare.Python.Json.{
  Json, arr, obj, str, items, lookup, get, text_item, truthy, contains, json_eq,
}
use tailscale_koolshare.Publish.Descriptor.{Descriptors, archive_file}

-- `release.get("draft")` as a condition
unfoldable pub is_draft : Json → Result Bool
is_draft release = do draft ← get "draft" release; ok (truthy draft)

abbrev elements : Json → Result (List Json)
elements (arr vs) = ok (items vs)
elements _ = raise type_error

-- `release.get("assets", [])`
abbrev assets_of : Json → Result (List Json)
assets_of (obj fs) = elim (lookup "assets" fs) [ none ↦ ok [] | some v ↦ elements v ]
assets_of _ = raise attribute_error

-- The names of the assets whose upload is complete.
unfoldable pub uploaded_names : List Json → Result (List String)
uploaded_names [] = ok []
uploaded_names (asset ∷ assets) =
    let rest = uploaded_names assets in
    let named = (do name ← text_item "name" asset; names ← rest; ok (name ∷ names)) in
    get "state" asset >>= λ state. if json_eq state (str "uploaded") then named else rest

-- The assets that a complete draft has, the archives last.
unfoldable pub required_names : Descriptors → Result (List String)
required_names ds = do
  arm ← archive_file ds.arm
  arm64 ← archive_file ds.arm64
  ok ("manifest.json" ∷ "SHA256SUMS" ∷ "build-metadata.json" ∷ arm ∷ arm64 ∷ [])

-- `required <= uploaded`
unfoldable pub is_complete : Json → List String → Result Bool
is_complete release required = do
  assets ← assets_of release
  uploaded ← uploaded_names assets
  ok (all (λ name. contains name uploaded) required)
