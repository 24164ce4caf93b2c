-- ===== src/Bundle/Stage/Entries.antt =====
-- The entries of a dict.
use mathlib.Core.Option.{some-injective}
use tailscale_koolshare.Common.{String, some, ◌≡◌, inl, inr, All, subst, Bool-cases, eq_iff, ◌==◌}
use tailscale_koolshare.Common.Outcome.{from_option-eq-ok}
use tailscale_koolshare.Python.Json.{
  Json, Fields, null, bool, int, float, arr, obj, str, field, end, fields, lookup, item,
}
use tailscale_koolshare.Python.Json.Laws.{At}
use tailscale_koolshare.Bundle.Stage.{entries}

lookup-All :
    (P : String × Json → Type 0) (k : String) (v : Json) (fs : Fields)
    → lookup k fs ≡ some v
    → All P (fields fs)
    → P (k, v)
unfolding lookup
lookup-All P k v end h all = cc
lookup-All P k v (field j u fs) h (here, later) = elim (Bool-cases (j == k)) [
  | inl same ↦
      let is_value : u ≡ v = some-injective _ _ (rw same at h) in
      subst (λ key. P (key, v)) ((eq_iff j k).0 same) (subst (λ x. P (j, x)) is_value here)
  | inr other ↦ lookup-All P k v fs (rw other at h) later
]

-- What holds of all the pairs of a dict holds of each of its items.
pub entries-At :
    (P : String × Json → Type 0) (identity : Json)
    → All P (entries identity)
    → (k : String) (v : Json) → At k identity v
    → P (k, v)
unfolding item
entries-At P (obj fs) all k v h = lookup-All P k v fs (from_option-eq-ok _ _ h) all
entries-At P (arr vs) all k v h = cc
entries-At P (str s) all k v h = cc
entries-At P null all k v h = cc
entries-At P (bool b) all k v h = cc
entries-At P (int n) all k v h = cc
entries-At P (float m e) all k v h = cc
