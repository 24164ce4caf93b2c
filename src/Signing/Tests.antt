-- ===== src/Signing/Tests.antt =====
-- Metadata of a build, and the theorems at it.
use tailscale_koolshare.Common.{ℕ, zero, suc, false, List, [], ◌∷◌, ◌++◌, ◌≡◌, ◌⊎◌, refl, pos}
use tailscale_koolshare.Common.Outcome.{ok}
use tailscale_koolshare.Python.Interpreter.{Interpreter, ascii}
use tailscale_koolshare.Python.Text.{strip, remove_prefix, split_on}
use tailscale_koolshare.Python.Number.{int_of}
use tailscale_koolshare.Python.Regex.{fullmatch}
use tailscale_koolshare.Python.Json.{
  Json, arr, nil, int, str, obj, field, end, has_exactly, json_eq, item, as_str, lookup, text_item,
  get,
}
use tailscale_koolshare.CoreLock.Identity.{
  minor_of, check_pin_fields, check_stable, bundle_identity,
}
use tailscale_koolshare.CoreLock.Lock.{
  is_int_one, source_url, check_version, check_source, validate_lock,
}
use tailscale_koolshare.Toolchain.Version.{version, key, key_ltb, max_from, max_by_key}
use tailscale_koolshare.Toolchain.Lock.{
  has_fields, is_match, is_positive_int, archive_name, archive_url, check_archive,
  check_requirement, check_greatest, validate_go_lock,
}
use tailscale_koolshare.CoreLock.Sample.{commit, digest, lock, recipe}
use tailscale_koolshare.Archive.Elf.{arch_machine, exceeds_limit, is_elf, check_elf}
use tailscale_koolshare.Signing.Metadata.{
  Library, lock_hash, schema_of, is_int, has_key, check_entry, expected_entries, check_recipe_entry,
  check_built, check_locked, check_schema, validate_metadata, validated_core,
}
use tailscale_koolshare.Signing.Bound.{IsLocked, validate_metadata-IsLocked}
use tailscale_koolshare.Signing.Core.{IsCore, validated_core-IsCore}

instance abbrev plain : Interpreter
plain = ascii

abbrev zeros : ℕ → List ℕ
zeros zero = []
zeros (suc n) = 0 ∷ zeros n

abbrev library : Library
library = record { dumps = λ v. "{}"; text_sha256 = λ s. "fedcba98"; file_sha256 = λ bytes. "0123" }

abbrev core_recipe : Json
core_recipe = obj (field "upx_version" (str "5.0.0") (field "tags" (arr nil) end))

abbrev metadata : Json
metadata = obj (
    field "schema" (int (pos 2)) (
      field "version" (str "1.98.2") (
        field "build" (str "r4") (
          field "source_commit" (str commit) (
            field "source_sha256" (str digest) (
              field "go_version" (str "1.26.6") (
                field "recipe_source_sha256" (str digest) (
                  field "recipe_sha256" (str "fedcba98") (
                    field "upx_version" (str "5.0.0")
                      (field "tags" (arr nil) (field "dependency_lock" lock end)))))))))))

abbrev built : Json
built = obj (
    field "version" (str "1.98.2") (
      field "build" (str "r4") (
        field "source_commit" (str commit) (
          field "source_sha256" (str digest) (
            field "go_version" (str "1.26.6") (
              field "recipe_sha256" (str "fedcba98") (
                field "arch" (str "arm64") (
                  field "binary_size" (int (pos 64))
                    (field "binary_sha256" (str "0123") end)))))))))

abbrev binary : List ℕ
binary = 0x7f ∷ b'E' ∷ b'L' ∷ b'F' ∷ 2 ∷ 1 ∷ zeros 12 ++ 183 ∷ zeros 45

opened : Unit {0}
unfolding version key key_ltb max_from max_by_key strip remove_prefix fullmatch split_on int_of
    has_fields has_exactly is_match is_positive_int archive_name archive_url json_eq item text_item
    as_str check_archive check_requirement check_greatest validate_go_lock lookup minor_of
    check_pin_fields check_stable bundle_identity is_int_one source_url check_version check_source
    validate_lock get lock_hash schema_of is_int has_key check_entry expected_entries
    check_recipe_entry check_built check_locked check_schema validate_metadata validated_core
    arch_machine exceeds_limit is_elf check_elf
opened = tt

metadata_test : validate_metadata library recipe core_recipe metadata ≡ ok tt
unfolding opened
metadata_test = refl

core_test :
    validated_core library recipe core_recipe "arm64" metadata binary built ≡ ok (64, "0123")
unfolding opened
core_test = refl

validate_metadata_example :
    (has_key "dependency_lock" metadata ≡ false) ⊎ IsLocked library recipe core_recipe metadata
validate_metadata_example =
    validate_metadata-IsLocked library recipe core_recipe metadata metadata_test

validated_core_example :
    IsCore library recipe core_recipe "arm64" metadata binary built (64, "0123")
validated_core_example =
    validated_core-IsCore library recipe core_recipe "arm64" metadata binary built core_test
