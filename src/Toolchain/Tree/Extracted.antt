-- ===== src/Toolchain/Tree/Extracted.antt =====
-- What `_check_extracted` accepts.
use tailscale_koolshare.Common.{
  or-eq-false, ℕ, ◌%◌, ◌/◌, String, true, false, List, [], ◌∷◌, Option, none, some, ◌≡◌, refl, ◌↔◌,
  ◌⊎◌, eq_iff, subst, ap, arith, not-true,
}
use tailscale_koolshare.Common.Outcome.{ok, >>=-eq-ok, >>-eq-ok, require, require-eq-ok}
use tailscale_koolshare.Python.Text.{◌<>◌, splitlines}
use tailscale_koolshare.Files.{
  Node, file, link, dir, special, Tree, find_node, is_symlink, is_executable,
}
use tailscale_koolshare.Toolchain.Tree.{
  Codec, starts_with_line, is_runnable, check_stamp, check_extracted,
}

-- A node that is no symbolic link.
abbrev IsReal : Option Node → Type 0
IsReal n = (target : String) → n ≡ some (link target) → ⊥

-- One of the three bits of the mode that let a file be executed.
abbrev IsExecutable : ℕ → Type 0
IsExecutable mode = (mode % 2 ≡ 1) ⊎ ((mode / 8 % 2 ≡ 1) ⊎ (mode / 64 % 2 ≡ 1))

-- The directories of the program are no links, the program is a regular file that may be executed,
-- and the first line of go/VERSION is the version.
pub record IsExtracted (c : Codec) (tree : Tree) (version : String) : Type 0 where
  pub real_go : IsReal (find_node ("go" ∷ []) tree)
  pub real_bin : IsReal (find_node ("go" ∷ "bin" ∷ []) tree)
  pub mode : ℕ
  pub program : List ℕ
  pub has_program : find_node ("go" ∷ "bin" ∷ "go" ∷ []) tree ≡ some (file mode program)
  pub runs : IsExecutable mode
  pub stamp_mode : ℕ
  pub stamp : List ℕ
  pub has_stamp : find_node ("go" ∷ "VERSION" ∷ []) tree ≡ some (file stamp_mode stamp)
  pub text : String
  pub read : c.read_text stamp ≡ ok text
  pub lines : List String
  pub stamped : splitlines text ≡ ("go" <> version) ∷ lines

is_link-IsReal : (n : Option Node) → is_symlink n ≡ false → IsReal n
is_link-IsReal n h target e = let wrong : true ≡ false = subst (λ m. is_symlink m ≡ false) e h in cc

IsReal-is_link : (n : Option Node) → IsReal n → is_symlink n ≡ false
IsReal-is_link none h = refl
IsReal-is_link (some (link target)) h = absurd (h target refl)
IsReal-is_link (some (file mode body)) h = refl
IsReal-is_link (some dir) h = refl
IsReal-is_link (some special) h = refl

is_executable_iff : (mode : ℕ) → (is_executable mode ≡ true) ↔ IsExecutable mode
is_executable_iff mode = ground arith

runnable_sound :
    (n : Option Node)
    → is_runnable n ≡ true
    → (mode : ℕ) × (body : List ℕ) × (n ≡ some (file mode body)) × IsExecutable mode
runnable_sound (some (file mode body)) h = (mode, body, refl, (is_executable_iff mode).0 h)
runnable_sound (some (link target)) h = cc
runnable_sound (some dir) h = cc
runnable_sound (some special) h = cc
runnable_sound none h = cc

first_line :
    (s : String) (ls : List String)
    → starts_with_line s ls ≡ true
    → (later : List String) × (ls ≡ s ∷ later)
unfolding starts_with_line
first_line s [] h = cc
first_line s (l ∷ ls) h = (ls, ap (λ x. x ∷ ls) ((eq_iff l s).0 h))

starts_with_line-first : (s : String) (ls : List String) → starts_with_line s (s ∷ ls) ≡ true
unfolding starts_with_line
starts_with_line-first s ls = (eq_iff s s).1 refl

module _ (c : Codec) where
  stamp_sound :
      (version : String) (n : Option Node)
      → check_stamp c version n ≡ ok tt
      → (mode : ℕ) × (body : List ℕ) × (n ≡ some (file mode body))
        × (text : String) × (c.read_text body ≡ ok text)
        × (lines : List String) × (splitlines text ≡ ("go" <> version) ∷ lines)
  unfolding check_stamp
  stamp_sound version (some (file mode body)) h =
      let (text, read, h₁) = >>=-eq-ok (c.read_text body) _ h in
      let (lines, first) = first_line ("go" <> version) _ (require-eq-ok _ _ h₁) in
      (mode, body, refl, text, read, lines, first)
  stamp_sound version (some (link target)) h = cc
  stamp_sound version (some dir) h = cc
  stamp_sound version (some special) h = cc
  stamp_sound version none h = cc

  pub check_extracted-IsExtracted :
      (tree : Tree) (version : String)
      → check_extracted c tree version ≡ ok tt
      → IsExtracted c tree version
  unfolding check_extracted
  check_extracted-IsExtracted tree version h =
      let (links, h₁) = >>-eq-ok (require _ _) _ h in
      let (go_real, bin_real) =
        or-eq-false (is_symlink (find_node ("go" ∷ []) tree))
          (is_symlink (find_node ("go" ∷ "bin" ∷ []) tree))
          (not-true _ (require-eq-ok _ _ links)) in
      let (runnable, h₂) = >>-eq-ok (require _ _) _ h₁ in
      let (mode, program, has_program, runs) = runnable_sound _ (require-eq-ok _ _ runnable) in
      let (stamp_mode, stamp, has_stamp, text, read, lines, stamped) = stamp_sound version _ h₂ in
      record {
        real_go = is_link-IsReal _ go_real;
        real_bin = is_link-IsReal _ bin_real;
        mode = mode;
        program = program;
        has_program = has_program;
        runs = runs;
        stamp_mode = stamp_mode;
        stamp = stamp;
        has_stamp = has_stamp;
        text = text;
        read = read;
        lines = lines;
        stamped = stamped;
      }

  pub IsExtracted-check_extracted :
      (tree : Tree) (version : String)
      → IsExtracted c tree version
      → check_extracted c tree version ≡ ok tt
  unfolding check_extracted check_stamp
  IsExtracted-check_extracted tree version x =
      rw
        (
          IsReal-is_link _ x.real_go,
          IsReal-is_link _ x.real_bin,
          x.has_program,
          (is_executable_iff x.mode).1 x.runs,
          x.has_stamp,
          x.read,
          x.stamped,
          starts_with_line-first ("go" <> version) x.lines,
        )
        refl
