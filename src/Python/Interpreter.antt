-- ===== src/Python/Interpreter.antt =====
-- What the tools rely on of the interpreter that runs them. `\d` and `int` accept every decimal
-- digit of its Unicode database, not only those of ASCII; `str` prints a JSON value.
use tailscale_koolshare.Common.{
  ℕ, String, ◌+◌, ◌<◌, ◌≡◌, false, Option, some, none, arith, leb, if◌then◌else◌, ◌&&◌, ◌-◌,
}
use tailscale_koolshare.Python.Json.{Json, str}
use tailscale_koolshare.Python.Text.{is_space}

pub record Interpreter : Type 0 where
  -- `unicodedata.decimal` of a code point
  pub decimal : ℕ → Option ℕ
  -- `str(v)` where `v` is no text
  pub repr : Json → String

-- The documented behaviour: digits have values below ten and are no white space, and the ASCII ones
-- are `0` to `9`.
pub record IsPython (py : Interpreter) : Type 0 where
  pub decimal-lt : (c d : ℕ) → py.decimal c ≡ some d → d < 10
  pub decimal_not_space : (c d : ℕ) → py.decimal c ≡ some d → is_space c ≡ false
  pub decimal_ascii : (d : ℕ) → d < 10 → py.decimal (b'0' + d) ≡ some d
  pub ascii_only : (c d : ℕ) → c < 128 → py.decimal c ≡ some d → c ≡ b'0' + d

-- `str(v)`
abbrev pub to_str : ⦃py : Interpreter⦄ → Json → String
to_str (str s) = s
to_str ⦃py⦄ v = py.repr v

-- An interpreter with the ASCII digits alone.
abbrev pub ascii : Interpreter
ascii = record {
  decimal = λ c. if leb b'0' c && leb c b'9' then some (c - b'0') else none;
  repr = λ v. "None";
}

pub ascii-IsPython : IsPython ascii
ascii-IsPython = record {
  decimal-lt = λ c d h. ground arith;
  decimal_not_space = λ c d h. ground arith;
  decimal_ascii = λ d h. ground arith;
  ascii_only = λ c d l h. ground arith;
}
