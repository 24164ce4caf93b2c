-- ===== src/Python/Number.antt =====
-- `int(text)`: a sign, and decimal digits with single underscores between them.
use tailscale_koolshare.Common.{
  ℕ, ◌+◌, ◌*◌, String, Bool, true, false, ◌&&◌, List, [], ◌∷◌, Option, none, some, eqb,
  if◌then◌else◌, ℤ, pos, neg,
}
use mathlib.Core.Option
use tailscale_koolshare.Common.Outcome.{Result, from_option, value_error}
use tailscale_koolshare.Python.Interpreter.{Interpreter}
use tailscale_koolshare.Python.Regex.{codes}
use tailscale_koolshare.Python.Text.{strip}

module _ ⦃py : Interpreter⦄ where
  -- The flag says that a digit was just read, so that the text may end or go on with an underscore.
  unfoldable pub digits_value : Bool → ℕ → List ℕ → Option ℕ
  digits_value true acc [] = some acc
  digits_value false acc [] = none
  digits_value after_digit acc (c ∷ s) = elim (py.decimal c) [
    | some d ↦ digits_value true (acc * 10 + d) s
    | none ↦ if after_digit && eqb c b'_' then digits_value false acc s else none
  ]

  signed_value : List ℕ → Option ℤ
  unfolding digits_value
  signed_value [] = none
  signed_value (c ∷ s) =
      if eqb c b'-'
      then Option.map neg (digits_value false 0 s)
      else if eqb c b'+'
      then Option.map pos (digits_value false 0 s)
      else Option.map pos (digits_value false 0 (c ∷ s))

  unfoldable pub int_of : String → Result ℤ
  unfolding signed_value strip
  int_of s = from_option (value_error "invalid literal for int()") (signed_value (codes (strip s)))
