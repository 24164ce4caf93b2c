-- ===== src/Toolchain/Provision/Tests.antt =====
-- Runs of the installation of a toolchain, and the theorems at concrete inputs.
use mathlib.Core.List.{Permᴰ}
use tailscale_koolshare.Common.{
  ℕ, zero, suc, ◌≡◌, ◌↔◌, refl, true, false, List, [], ◌∷◌, String, Option, none, some, subst, eqb,
  if◌then◌else◌,
}
use tailscale_koolshare.Common.Outcome.{ok, raise, os_error, >>=-eq-ok, ok-injective}
use tailscale_koolshare.Python.Interpreter.{Interpreter, ascii}
use tailscale_koolshare.Python.Sorted.{insert, sorted}
use tailscale_koolshare.Python.Text.{strip, remove_prefix, splitlines, split_on}
use tailscale_koolshare.Python.Number.{int_of}
use tailscale_koolshare.Python.Regex.{fullmatch}
use tailscale_koolshare.Python.Json.{has_exactly, json_eq, item, as_str, lookup, text_item}
use tailscale_koolshare.Files.{
  Node, file, dir, Tree, missing, directory, same_path, find_node, put_node, listing, IsTree,
}
use tailscale_koolshare.Toolchain.Version.{version, key, key_ltb, max_from, max_by_key}
use tailscale_koolshare.Toolchain.Lock.{
  has_fields, is_match, is_positive_int, archive_name, archive_url, check_archive,
  check_requirement, check_greatest, validate_go_lock,
}
use tailscale_koolshare.Toolchain.Sample.{sum, sample_lock}
use tailscale_koolshare.Toolchain.Tree.{
  Codec, posix, marker_path, starts_with_line, or_false, entry_value, hash_input, tree_hash,
  check_stamp, check_extracted, marker, marker_matches, tree_valid, installed_valid,
}
use tailscale_koolshare.Toolchain.Tree.Marked.{tree_hash-perm}
use tailscale_koolshare.Toolchain.Tree.Installed.{
  Reads, IsInstalled, installed_valid_iff, put_node-IsInstalled,
}
use tailscale_koolshare.Toolchain.Install.{prefix, toolchain_dir, digest_matches, archive_valid}
use tailscale_koolshare.Toolchain.Stage.{
  Disk, Moment, before_move, Outside, archive_of, cached_name, replace_file, rename_onto,
  write_marker, stage,
}
use tailscale_koolshare.Toolchain.Provision.{
  candidate_ok, fetch_unless, is_installed, move_aside, accept_other, after_move, move_unless,
  install_unless, provision_go,
}
use tailscale_koolshare.Toolchain.Provision.Installed.{
  IsDocumented, InstalledAt, IsPlain, provision_go-InstalledAt,
}
use tailscale_koolshare.Toolchain.Provision.Race.{move_unless-race}

instance abbrev plain : Interpreter
plain = ascii

abbrev zeros : ℕ → List ℕ
zeros zero = []
zeros (suc n) = 0 ∷ zeros n

abbrev decoded : List ℕ → String
decoded [] = ""
decoded (b ∷ body) = if eqb b 103 then "go1.26.6\n" else "{}"

abbrev codec : Codec
codec = record {
  encoded = λ v. 123 ∷ [];
  read_text = λ body. ok (decoded body);
  loads = λ s. ok (marker sample_lock "amd64" sum);
  sha256 = λ body. sum;
}

abbrev extracted_tree : Tree
extracted_tree =
    ("go" ∷ [], dir)
    ∷ ("go" ∷ "bin" ∷ [], dir)
    ∷ ("go" ∷ "bin" ∷ "go" ∷ [], file 493 (127 ∷ []))
    ∷ ("go" ∷ "VERSION" ∷ [], file 420 (103 ∷ 111 ∷ []))
    ∷ []

abbrev shuffled_tree : Tree
shuffled_tree =
    ("go" ∷ "bin" ∷ [], dir)
    ∷ ("go" ∷ [], dir)
    ∷ ("go" ∷ "bin" ∷ "go" ∷ [], file 493 (127 ∷ []))
    ∷ ("go" ∷ "VERSION" ∷ [], file 420 (103 ∷ 111 ∷ []))
    ∷ []

abbrev archive : Option Node
archive = some (file 420 (zeros 70))

abbrev outside : Outside
outside = record {
  codec = codec;
  download = λ url sha256. ok archive;
  extract = λ cached. ok extracted_tree;
  write_through = λ path body tree. raise os_error;
  new_mode = 420;
  others = λ moment d. d;
  collision = os_error;
}

opened : Unit {0}
unfolding version key key_ltb max_from max_by_key strip remove_prefix fullmatch split_on int_of
    splitlines has_fields has_exactly is_match is_positive_int archive_name archive_url json_eq item
    check_archive check_requirement check_greatest as_str validate_go_lock lookup text_item insert
    sorted same_path find_node put_node listing posix starts_with_line or_false entry_value
    hash_input tree_hash check_stamp check_extracted marker marker_matches tree_valid
    installed_valid prefix toolchain_dir digest_matches archive_valid archive_of cached_name
    replace_file rename_onto write_marker stage candidate_ok fetch_unless is_installed move_aside
    accept_other after_move move_unless install_unless provision_go
opened = tt

abbrev empty_disk : Disk
empty_disk = record { cached = none; target = missing }

abbrev result_tree : Tree
result_tree = put_node marker_path (file 420 (123 ∷ 10 ∷ [])) extracted_tree

abbrev result_rest : Tree
result_rest =
    ("go" ∷ "bin" ∷ [], dir)
    ∷ ("go" ∷ "bin" ∷ "go" ∷ [], file 493 (127 ∷ []))
    ∷ ("go" ∷ "VERSION" ∷ [], file 420 (103 ∷ 111 ∷ []))
    ∷ (marker_path, file 420 (123 ∷ 10 ∷ []))
    ∷ []

installs : provision_go outside sample_lock "amd64" "core" empty_disk ≡ (
  ok ("toolchains" ∷ "core" ∷ "go1.26.6" ∷ "amd64-0123456789abcdef" ∷ []),
  record { cached = archive; target = directory result_tree },
)
unfolding opened
installs = refl

distinct : IsTree extracted_tree
distinct =
    ((λ h. cc, (λ h. cc, (λ h. cc, tt))), ((λ h. cc, (λ h. cc, tt)), ((λ h. cc, tt), (tt, tt))))

tree_hash-perm_example : tree_hash codec extracted_tree ≡ tree_hash codec shuffled_tree
tree_hash-perm_example = tree_hash-perm codec (Permᴰ.swap refl refl) distinct

hash_is_sum : (tree : Tree) (digest : String) → tree_hash codec tree ≡ ok digest → sum ≡ digest
unfolding tree_hash
hash_is_sum tree digest h =
    let (bytes, _, h₁) = >>=-eq-ok (hash_input codec (listing tree)) _ h in ok-injective h₁

reads : Reads codec (marker sample_lock "amd64" sum) (123 ∷ 10 ∷ [])
unfolding opened
reads = record {
  text = "{}";
  found = marker sample_lock "amd64" sum;
  decoded = refl;
  loaded = refl;
  same = refl;
}

documented : IsDocumented outside sample_lock "amd64"
unfolding opened
documented = record {
  reads = λ tree digest h.
      subst (λ d. Reads codec (marker sample_lock "amd64" d) (123 ∷ 10 ∷ []))
        (hash_is_sum tree digest h) reads;
  extracted = λ cached tree h.
      subst (λ t. IsTree t × IsPlain (find_node marker_path t)) (ok-injective h) (distinct, tt);
}

provision_go_example : InstalledAt codec sample_lock "amd64" (directory result_tree)
provision_go_example =
    provision_go-InstalledAt outside sample_lock "amd64" documented "core" empty_disk
      (record { cached = archive; target = directory result_tree })
      ("toolchains" ∷ "core" ∷ "go1.26.6" ∷ "amd64-0123456789abcdef" ∷ []) installs

locked : text_item "version" sample_lock ≡ ok "1.26.6"
unfolding opened
locked = refl

checked : check_extracted codec extracted_tree "1.26.6" ≡ ok tt
unfolding opened
checked = refl

hashed : tree_hash codec extracted_tree ≡ ok sum
unfolding opened
hashed = refl

put_node_example : IsInstalled codec sample_lock "amd64" result_tree
put_node_example =
    put_node-IsInstalled codec sample_lock "amd64" extracted_tree 420 (123 ∷ 10 ∷ []) "1.26.6" sum
      distinct locked checked hashed reads

installed_valid_example :
    (installed_valid codec (directory result_tree) sample_lock "amd64" ≡ ok true)
    ↔ IsInstalled codec sample_lock "amd64" result_tree
installed_valid_example = installed_valid_iff codec sample_lock "amd64" result_tree

-- Another process installs the same toolchain just before the move.
abbrev other_first : Moment → Disk → Disk
other_first before_move d = record { cached = d.cached; target = directory result_tree }
other_first _ d = d

abbrev contended : Outside
contended = record {
  codec = codec;
  download = λ url sha256. ok archive;
  extract = λ cached. ok extracted_tree;
  write_through = λ path body tree. raise os_error;
  new_mode = 420;
  others = other_first;
  collision = os_error;
}

there : directory result_tree ≡ directory (("go" ∷ [], dir) ∷ result_rest)
unfolding opened
there = refl

installed : IsInstalled codec sample_lock "amd64" (("go" ∷ [], dir) ∷ result_rest)
unfolding opened
installed = put_node_example

race_example :
    move_unless contended false sample_lock "amd64" extracted_tree empty_disk
    ≡ (raise os_error, record { cached = none; target = directory result_tree })
race_example =
    move_unless-race contended sample_lock "amd64" extracted_tree empty_disk
      (record { cached = none; target = directory result_tree }) ("go" ∷ [], dir) result_rest refl
      refl there installed
