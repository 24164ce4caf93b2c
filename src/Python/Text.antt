-- ===== src/Python/Text.antt =====
-- The `str` methods that the tools call.
use Prim.Native.Char.{Char, code}
use Prim.Native.String
use tailscale_koolshare.Common.{
  ℕ, String, Bool, true, false, not, ◌&&◌, ◌||◌, List, [], ◌∷◌, Option, none, some, leb, eqb,
  if◌then◌else◌, keep,
}

infixr 66 ◌<>◌
-- `s + t`
abbrev pub ◌<>◌ : String → String → String
s <> t = String.◌++◌ s t

-- `c.isspace()`
abbrev pub is_space : ℕ → Bool
is_space c =
    leb 9 c && leb c 13
    || leb 28 c && leb c 32
    || eqb c 133
    || eqb c 160
    || eqb c 5760
    || leb 8192 c && leb c 8202
    || eqb c 8232
    || eqb c 8233
    || eqb c 8239
    || eqb c 8287
    || eqb c 12288

-- Where `splitlines` ends a line.
abbrev is_line_end : ℕ → Bool
is_line_end c =
    leb 10 c && leb c 13 || leb 28 c && leb c 30 || eqb c 133 || eqb c 8232 || eqb c 8233

abbrev first_is : ℕ → String → Bool
first_is d String.[] = false
first_is d (String.◌∷◌ c s) = eqb (code c) d

abbrev is_empty : String → Bool
is_empty String.[] = true
is_empty (String.◌∷◌ c s) = false

unfoldable pub lstrip : String → String
lstrip String.[] = ""
lstrip (String.◌∷◌ c s) = let rest = lstrip s in if is_space (code c) then rest else String.◌∷◌ c s

unfoldable pub rstrip : String → String
rstrip String.[] = ""
rstrip (String.◌∷◌ c s) =
    let rest = rstrip s in if is_space (code c) && is_empty rest then "" else String.◌∷◌ c rest

-- `s.strip()`
unfoldable pub strip : String → String
unfolding lstrip rstrip
strip s = lstrip (rstrip s)

strip_prefix? : String → String → Option String
strip_prefix? String.[] s = some s
strip_prefix? (String.◌∷◌ p ps) String.[] = none
strip_prefix? (String.◌∷◌ p ps) (String.◌∷◌ c s) =
    if eqb (code p) (code c) then strip_prefix? ps s else none

-- `s.startswith(p)`
unfoldable pub starts_with : String → String → Bool
starts_with String.[] s = true
starts_with (String.◌∷◌ p ps) String.[] = false
starts_with (String.◌∷◌ p ps) (String.◌∷◌ c s) = eqb (code p) (code c) && starts_with ps s

abbrev or_else : String → Option String → String
or_else s none = s
or_else s (some t) = t

-- `s.removeprefix(p)`
unfoldable pub remove_prefix : String → String → String
unfolding strip_prefix?
remove_prefix p s = or_else s (strip_prefix? p s)

-- A character in front of the first of the pieces.
abbrev cons_first : Char → List String → List String
cons_first c [] = String.◌∷◌ c "" ∷ []
cons_first c (w ∷ ws) = String.◌∷◌ c w ∷ ws

unfoldable pub split_where : (ℕ → Bool) → String → List String
split_where p String.[] = "" ∷ []
split_where p (String.◌∷◌ c s) =
    let rest = split_where p s in if p (code c) then "" ∷ rest else cons_first c rest

-- `s.split(sep)` for a separator of one character
unfoldable pub split_on : ℕ → String → List String
unfolding split_where
split_on sep s = split_where (λ c. eqb c sep) s

-- `s.split()`
unfoldable pub words : String → List String
unfolding split_where
words s = keep (λ w. not (is_empty w)) (split_where is_space s)

-- A line end `\r\n` counts once.
join_crlf : String → String
join_crlf String.[] = ""
join_crlf (String.◌∷◌ c s) =
    let rest = join_crlf s in if eqb (code c) 13 && first_is 10 s then rest else String.◌∷◌ c rest

lines_of : String → List String
lines_of String.[] = []
lines_of (String.◌∷◌ c s) =
    let rest = lines_of s in if is_line_end (code c) then "" ∷ rest else cons_first c rest

-- `s.splitlines()`
unfoldable pub splitlines : String → List String
unfolding join_crlf lines_of
splitlines s = lines_of (join_crlf s)

-- `s.split("//", 1)[0]`
unfoldable pub before_comment : String → String
before_comment String.[] = ""
before_comment (String.◌∷◌ c s) =
    let rest = before_comment s in
    if eqb (code c) b'/' && first_is b'/' s then "" else String.◌∷◌ c rest

abbrev last_piece : List String → Option String
last_piece [] = none
last_piece (_ ∷ []) = none
last_piece (_ ∷ w ∷ []) = some w
last_piece (_ ∷ v ∷ w ∷ ws) = last_piece (v ∷ w ∷ ws)

-- `s.rsplit(sep, 1)[1]`; without a separator there is no such element.
unfoldable pub after_last : ℕ → String → Option String
unfolding split_on
after_last sep s = last_piece (split_on sep s)
