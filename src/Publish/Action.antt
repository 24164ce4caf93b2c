-- ===== src/Publish/Action.antt =====
-- The effects of the publishing script. What is outside answers as it likes, and its answers may
-- depend on all that happened so far.
pub mod Laws
pub mod Avoids
use tailscale_koolshare.Common.{ℕ, String, List, [], ◌∷◌, ◌≡◌, refl, Bool, true, false}
use tailscale_koolshare.Common.Outcome.{Exception, Result, ok, raise}
use tailscale_koolshare.Python.Json.{Json}

abbrev pub Bytes : Type 0
Bytes = List ℕ

pub data Event : Type 0 where
  -- a GET request of a URL
  requested : String → Event
  -- a `gh` command, without the `--repo` option that `gh` adds to each
  ran : List String → Event
  -- a file written to a temporary directory
  wrote : String → Bytes → Event
  -- a text file written to build/core-release
  wrote_text : String → String → Event
  -- `time.sleep`
  slept : ℕ → Event

-- GitHub, the `gh` command, the verifier `tsks-helper`, SHA-256, and the local release directory.
-- Histories have their latest event at the head.
pub record World : Type 0 where
  -- `json_url`
  pub api : List Event → String → Result Json
  -- the chunks of a response, none of them empty
  pub fetch : List Event → String → Result (List Bytes)
  pub gh : List Event → List String → Result (Unit {0})
  -- a file that `gh release download` has left in its directory
  pub downloaded : List Event → String → Result Bytes
  -- a file of build/core-release
  pub file : String → Result Bytes
  -- `tsks-helper verify` of a manifest for an architecture
  pub verify : Bytes → String → Result Json
  -- `tsks-helper extract` of an archive by its descriptor
  pub extract : Bytes → Json → Result (Unit {0})
  pub sha256 : Bytes → String
  -- `os.environ["GITHUB_SHA"]`
  pub commit : Result String
  -- the tags of tools/core_recipe.json
  pub tags : List String

abbrev pub Action : Type 0 → Type 0
Action A = List Event → Result A × List Event

module _ {A B : Type 0} where
  abbrev pub continue : Result A → (A → Action B) → Action B
  continue (ok a) f h = f a h
  continue (raise e) f h = (raise e, h)

  infixl 5 ◌>>=◌
  abbrev pub ◌>>=◌ : Action A → (A → Action B) → Action B
  ◌>>=◌ m f h = let (r, h') = m h in continue r f h'

infixl 5 ◌>>◌
abbrev pub ◌>>◌ : {B : Type 0} → Action (Unit {0}) → Action B → Action B
m >> k = m >>= λ _. k

module _ {A : Type 0} where
  abbrev pub pure : A → Action A
  pure a h = (ok a, h)

  abbrev pub fail : Exception → Action A
  fail e h = (raise e, h)

  abbrev pub lift : Result A → Action A
  lift r h = (r, h)

-- The `gh` commands of a history.
unfoldable pub commands : List Event → List (List String)
commands [] = []
commands (ran args ∷ h) = args ∷ commands h
commands (requested url ∷ h) = commands h
commands (wrote name body ∷ h) = commands h
commands (wrote_text name text ∷ h) = commands h
commands (slept n ∷ h) = commands h

-- `path.write_bytes(body)` in a temporary directory
unfoldable pub write_file : String → Bytes → Action (Unit {0})
write_file name body h = (ok tt, wrote name body ∷ h)

-- `path.write_text(text)` in build/core-release
unfoldable pub write_text : String → String → Action (Unit {0})
write_text name text h = (ok tt, wrote_text name text ∷ h)

module _ (w : World) where
  -- `gh(*args)`
  unfoldable pub gh : List String → Action (Unit {0})
  gh args h = (w.gh h args, ran args ∷ h)

  unfoldable pub api : String → Action Json
  api url h = (w.api h url, requested url ∷ h)

  unfoldable pub fetch : String → Action (List Bytes)
  fetch url h = (w.fetch h url, requested url ∷ h)

  unfoldable pub sleep : ℕ → Action (Unit {0})
  sleep n h = (ok tt, slept n ∷ h)

  -- Reading a file that `gh release download` has left.
  unfoldable pub downloaded : String → Action Bytes
  downloaded name h = (w.downloaded h name, h)
