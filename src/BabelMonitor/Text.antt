-- ===== src/BabelMonitor/Text.antt =====
-- The functions of `str` that babel_monitor/src/lib.rs uses: splitting, trimming, searching, and the
-- parsing of numbers.
use Prim.Native.Char.{Char, code}
use Prim.Native.String.{String}
use text.Mathlib.Text.{find?}
use althea_rs.Prelude.{
  ℕ, ◌+◌, ◌-◌, ◌*◌, Bool, true, false, Option, none, some, List, [], ◌∷◌, ltb, leb, ◌==◌, ◌&&◌,
  ◌||◌, if◌then◌else◌,
}

-- A character in front of the first piece.
abbrev pub prepend : Char → List String → List String
prepend c [] = String.◌∷◌ c "" ∷ []
prepend c (piece ∷ pieces) = String.◌∷◌ c piece ∷ pieces

-- `split` by a character, given by its code: one piece more than there are separators.
unfoldable pub split : ℕ → String → List String
split separator String.[] = "" ∷ []
split separator (String.◌∷◌ c s) =
    let rest = split separator s in if code c == separator then "" ∷ rest else prepend c rest

-- `contains`
abbrev pub contains_text : String → String → Bool
contains_text s pattern = elim (find? s pattern) [ none ↦ false | some at ↦ true ]

-- `char::is_whitespace`
abbrev pub is_whitespace : ℕ → Bool
is_whitespace c =
    (leb 9 c && leb c 13)
    || c == 32
    || c == 0x85
    || c == 0xa0
    || c == 0x1680
    || (leb 0x2000 c && leb c 0x200a)
    || c == 0x2028
    || c == 0x2029
    || c == 0x202f
    || c == 0x205f
    || c == 0x3000

unfoldable pub trim_start : (ℕ → Bool) → String → String
trim_start p String.[] = ""
trim_start p (String.◌∷◌ c s) =
    let rest = trim_start p s in if p (code c) then rest else String.◌∷◌ c s

-- A text of characters to drop alone is dropped whole.
unfoldable pub trim_end : (ℕ → Bool) → String → String
trim_end p String.[] = ""
trim_end p (String.◌∷◌ c s) = elim (trim_end p s) [
  | String.[] ↦ if p (code c) then "" else String.◌∷◌ c ""
  | String.◌∷◌ d t ↦ String.◌∷◌ c (String.◌∷◌ d t)
]

unfoldable pub trim : String → String
unfolding trim_start trim_end
trim s = trim_end is_whitespace (trim_start is_whitespace s)

-- The value of a digit, in bases up to 16.
abbrev pub digit : ℕ → ℕ → Option ℕ
digit base c =
    let value =
      if leb b'0' c && leb c b'9'
      then c - b'0'
      else if leb b'a' c && leb c b'f'
      then c - b'a' + 10
      else if leb b'A' c && leb c b'F'
      then c - b'A' + 10
      else base in
    if ltb value base then some value else none

-- The digits of a number below a bound, after the digits read so far.
unfoldable pub digits : ℕ → ℕ → ℕ → String → Option ℕ
digits base bound total String.[] = some total
digits base bound total (String.◌∷◌ c s) = elim (digit base (code c)) [
  | none ↦ none
  | some d ↦
      let rest = digits base bound (total * base + d) s in
      if ltb (total * base + d) bound then rest else none
]

-- `from_str_radix` for an unsigned type whose values are those below the bound.
unfoldable pub from_str_radix : ℕ → ℕ → String → Option ℕ
unfolding digits
from_str_radix base bound String.[] = none
from_str_radix base bound (String.◌∷◌ c s) =
    if code c == b'+'
    then (elim s [ String.[] ↦ none | String.◌∷◌ d t ↦ digits base bound 0 (String.◌∷◌ d t) ])
    else digits base bound 0 (String.◌∷◌ c s)
