-- ===== src/Toolchain/Requirements.antt =====
-- `_requirements` of tools/toolchain.py: what go.mod and the upstream toolchain file ask for.
use tailscale_koolshare.Common.{
  String, true, false, List, [], ◌∷◌, ◌++◌, Option, none, some, ◌==◌, if◌then◌else◌,
}
use tailscale_koolshare.Common.Outcome.{Result, ok, raise, ◌>>=◌, value_error}
use tailscale_koolshare.Python.Interpreter.{Interpreter}
use tailscale_koolshare.Python.Text.{strip, before_comment, words, splitlines}
use tailscale_koolshare.Python.Json.{Json, null, str, obj, field, end}
use tailscale_koolshare.Toolchain.Version.{version}

pub record Requirements : Type 0 where
  pub go : String
  pub toolchain : Option String
  pub upstream : Option String

abbrev pub optional : Option String → Json
optional none = null
optional (some s) = str s

-- The dict that the lock holds.
abbrev pub requirements_json : Requirements → Json
requirements_json r = obj (
    field "go" (str r.go)
      (field "toolchain" (optional r.toolchain) (field "upstream" (optional r.upstream) end)))

pub record Directives : Type 0 where
  pub go : List String
  pub toolchain : List String

abbrev argument : List String → Result String
argument (w ∷ []) = ok w
argument _ = raise (value_error "invalid Go toolchain directive")

unfoldable pub directive : Directives → List String → Result Directives
directive ds [] = ok ds
directive ds (name ∷ args) =
    if name == "go"
    then (argument args >>= λ w. ok (record ds { go = ds.go ++ w ∷ [] }))
    else if name == "toolchain"
    then (argument args >>= λ w. ok (record ds { toolchain = ds.toolchain ++ w ∷ [] }))
    else ok ds

-- The loop over the lines of go.mod.
unfoldable pub scan_lines : Directives → List String → Result Directives
scan_lines ds [] = ok ds
scan_lines ds (raw ∷ lines) = do
  ds' ← directive ds (words (strip (before_comment raw)))
  scan_lines ds' lines

module _ ⦃py : Interpreter⦄ where
  unfoldable pub suggested_version : Option String → Result (Option String)
  suggested_version none = ok none
  suggested_version (some t) =
      if t == "default" then ok none else (version (str t) false >>= λ v. ok (some v))

  unfoldable pub upstream_version : Json → Result (Option String)
  upstream_version null = ok none
  upstream_version (str s) =
      if s == "" then ok none else (version (str s) false >>= λ v. ok (some v))
  upstream_version v = do w ← version v false; ok (some w)

  unfoldable pub selected : String → Option String → Json → Result Requirements
  selected g suggested preferred = do
    go ← version (str g) true
    toolchain ← suggested_version suggested
    upstream ← upstream_version preferred
    ok (record { go = go; toolchain = toolchain; upstream = upstream })

  unfoldable pub from_directives : List String → List String → Json → Result Requirements
  from_directives (g ∷ []) [] preferred = selected g none preferred
  from_directives (g ∷ []) (t ∷ []) preferred = selected g (some t) preferred
  from_directives _ _ _ =
      raise (value_error "expected one go directive and at most one toolchain directive")

  unfoldable pub requirements : Json → Json → Result Requirements
  requirements (str text) preferred = do
    ds ← scan_lines (record { go = []; toolchain = [] }) (splitlines text)
    from_directives ds.go ds.toolchain preferred
  requirements _ preferred = raise (value_error "go.mod must be text")
