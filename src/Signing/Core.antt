-- ===== src/Signing/Core.antt =====
-- What `validated_core` accepts.
use tailscale_koolshare.Common.{
  ℕ, pos, Bool, String, true, false, List, some, ◌≡◌, ap, ◌∙◌, All, length, and-eq-true, ◌⊎◌, subst,
}
use tailscale_koolshare.Common.Outcome.{
  ok, require, for_each, >>=-eq-ok, >>-eq-ok, require-eq-ok, ok-injective,
}
use tailscale_koolshare.Python.Interpreter.{Interpreter}
use tailscale_koolshare.Python.Json.{Json, int, str, json_eq, item, get}
use tailscale_koolshare.Python.Json.Laws.{json_eq-str}
use tailscale_koolshare.CoreLock.Lock.{Recipe}
use tailscale_koolshare.Archive.Elf.{max_binary, check_elf}
use tailscale_koolshare.Archive.Elf.Laws.{IsBinary, check_elf_sound}
use tailscale_koolshare.Signing.Metadata.{
  Library, has_key, check_built, provenance_keys, validate_metadata, validated_core,
}
use tailscale_koolshare.Signing.Bound.{Agrees, for_each-All, IsLocked, validate_metadata-IsLocked}

-- The entries in which the record of a build agrees with the metadata, by whether their schema is 2.
pub data SameOrigin (built metadata : Json) : Bool → Type 0 where
  bound_origin :
      Agrees built metadata "version"
      → Agrees built metadata "build"
      → Agrees built metadata "source_commit"
      → Agrees built metadata "recipe_sha256"
      → Agrees built metadata "go_version"
      → Agrees built metadata "source_sha256"
      → SameOrigin built metadata true
  old_origin :
      Agrees built metadata "version"
      → Agrees built metadata "build"
      → Agrees built metadata "source_commit"
      → Agrees built metadata "recipe_sha256"
      → SameOrigin built metadata false

All-SameOrigin :
    (built metadata : Json) (bound : Bool)
    → All (Agrees built metadata) (provenance_keys bound)
    → SameOrigin built metadata bound
All-SameOrigin built metadata true (v, (b, (c, (r, (g, (s, _)))))) = bound_origin v b c r g s
All-SameOrigin built metadata false (v, (b, (c, (r, _)))) = old_origin v b c r

check_built_sound :
    (built metadata : Json) (key : String)
    → check_built built metadata key ≡ ok tt
    → Agrees built metadata key
unfolding check_built
check_built_sound built metadata key h =
    let (found, got, h₁) = >>=-eq-ok (get key built) _ h in
    let (value, has_value, h₂) = >>=-eq-ok (item key metadata) _ h₁ in
    record {
      found = found;
      value = value;
      got = got;
      has_value = has_value;
      same = require-eq-ok _ _ h₂;
    }

module _ ⦃py : Interpreter⦄ (lib : Library) (recipe : Recipe) (core_recipe : Json) where
  -- The metadata are bound to their lock, the binary is one of the architecture, and the record of
  -- its build names the same origin, architecture, size and digest.
  pub record IsCore (arch : String) (metadata : Json) (binary : List ℕ) (built : Json)
      (core : ℕ × String) : Type 0 where
    pub bound :
        (has_key "dependency_lock" metadata ≡ false) ⊎ IsLocked lib recipe core_recipe metadata
    pub is_binary : IsBinary binary arch (some 12582912)
    pub measured : core ≡ (length binary, lib.file_sha256 binary)
    pub schema : Json
    pub has_schema : get "schema" metadata ≡ ok schema
    pub origin : SameOrigin built metadata (json_eq schema (int (pos 2)))
    pub has_arch : get "arch" built ≡ ok (str arch)
    pub size : Json
    pub has_size : get "binary_size" built ≡ ok size
    pub same_size : json_eq size (int (pos core.0)) ≡ true
    pub has_digest : get "binary_sha256" built ≡ ok (str core.1)

  -- When validated_core returns a size and a digest, the metadata have no lock or are bound to a
  -- valid lock of the current recipe, the binary is an ELF file of the architecture within the
  -- size limit, the size and digest are its own, and the record of its build names the same
  -- architecture, size and digest and agrees with the metadata in version, build, source_commit
  -- and recipe_sha256, and for schema 2 in go_version and source_sha256 too.
  pub validated_core-IsCore :
      (arch : String) (metadata : Json) (binary : List ℕ) (built : Json) {core : ℕ × String}
      → validated_core lib recipe core_recipe arch metadata binary built ≡ ok core
      → IsCore arch metadata binary built core
  unfolding validated_core
  validated_core-IsCore arch metadata binary built {core} h =
      let (valid, h₁) = >>-eq-ok (validate_metadata lib recipe core_recipe metadata) _ h in
      let (measure, checked, h₂) =
        >>=-eq-ok (check_elf lib.file_sha256 binary arch (some max_binary)) _ h₁ in
      let (schema, has_schema, h₃) = >>=-eq-ok (get "schema" metadata) _ h₂ in
      let names = provenance_keys (json_eq schema (int (pos 2))) in
      let (agreed, h₄) = >>-eq-ok (for_each (check_built built metadata) names) _ h₃ in
      let (built_arch, has_arch, h₅) = >>=-eq-ok (get "arch" built) _ h₄ in
      let (size, has_size, h₆) = >>=-eq-ok (get "binary_size" built) _ h₅ in
      let (digest, has_digest, h₇) = >>=-eq-ok (get "binary_sha256" built) _ h₆ in
      let (same, h₈) = >>-eq-ok (require _ _) _ h₇ in
      let (first, same_digest) = and-eq-true _ _ (require-eq-ok _ _ same) in
      let (same_arch, same_size) = and-eq-true _ _ first in
      let (is_binary, measured) =
        check_elf_sound lib.file_sha256 binary arch (some max_binary) checked in
      subst (IsCore arch metadata binary built) (ok-injective h₈) (record {
        bound = validate_metadata-IsLocked lib recipe core_recipe metadata valid;
        is_binary = is_binary;
        measured = measured;
        schema = schema;
        has_schema = has_schema;
        origin = All-SameOrigin built metadata (json_eq schema (int (pos 2))) (
            for_each-All (check_built built metadata) (check_built_sound built metadata) names
              agreed);
        has_arch = has_arch ∙ ap ok (json_eq-str built_arch arch same_arch);
        size = size;
        has_size = has_size;
        same_size = same_size;
        has_digest = has_digest ∙ ap ok (json_eq-str digest measure.1 same_digest);
      })
