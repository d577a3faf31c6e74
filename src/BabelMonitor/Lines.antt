-- ===== src/BabelMonitor/Lines.antt =====
-- babel_monitor/src/lib.rs: the words of a line and the lines of an output, and what is parsed of them.
use Prim.Native.Char.{Char, char, code}
use Prim.Native.String.{String, ◌++◌}
use text.Mathlib.TextLemmas.{nil-append, cons-append}
use althea_rs.Prelude.{
  ℕ, ◌≡◌, refl, ap, ◌∙◌, true, false, Option, none, some, List, [], ◌∷◌, ◌==◌, ◌&&◌, arith, All,
  any, inl, inr, Option-cases, Bool-cases, if◌then◌else◌,
}
use althea_rs.BabelMonitor.Text.{split, contains_text}
use althea_rs.BabelMonitor.Parsing.{parse_lines, parse_all, is_empty}

-- No character of a text has the code.
abbrev pub Free : ℕ → String → Type 0
Free separator String.[] = Unit
Free separator (String.◌∷◌ c s) = ((code c == separator) ≡ false) × Free separator s

-- Pieces with a separator between.
unfoldable pub join : Char → List String → String
join c [] = ""
join c (piece ∷ pieces) = elim pieces [
  | [] ↦ piece
  | next ∷ rest ↦ piece ++ String.◌∷◌ c (join c pieces)
]

code_eq : (c : Char) → (code c == code c) ≡ true
code_eq c = ground arith

split-piece :
    (c : Char) (s t : String)
    → Free (code c) s
    → split (code c) (s ++ String.◌∷◌ c t) ≡ s ∷ split (code c) t
unfolding split
split-piece c String.[] t free = rw (nil-append (String.◌∷◌ c t), split) (rw (code_eq c))
split-piece c (String.◌∷◌ d s) t free =
    rw (cons-append d s (String.◌∷◌ c t), split) (rw (free.0, split-piece c s t free.1))

split-last : (c : Char) (s : String) → Free (code c) s → split (code c) s ≡ s ∷ []
unfolding split
split-last c String.[] free = refl
split-last c (String.◌∷◌ d s) free = rw (free.0, split-last c s free.1)

-- What is joined is split again.
pub split-join :
    (c : Char) (piece : String) (pieces : List String)
    → All (Free (code c)) (piece ∷ pieces)
    → split (code c) (join c (piece ∷ pieces)) ≡ piece ∷ pieces
unfolding join
split-join c piece [] free = split-last c piece free.0
split-join c piece (next ∷ pieces) free =
    split-piece c piece (join c (next ∷ pieces)) free.0
    ∙ ap (λ ps. piece ∷ ps) (split-join c next pieces free.1)

-- The values of the marked lines that can be parsed, in their order.
abbrev pub parsed : {A : Type 0} → String → (String → Option A) → List String → List A
parsed marker parse [] = []
parsed marker parse (line ∷ lines) =
    let rest = parsed marker parse lines in
    if contains_text line marker
    then (elim (parse line) [ none ↦ rest | some a ↦ a ∷ rest ])
    else rest

parse_lines-parsed :
    {A : Type 0} (marker : String) (parse : String → Option A) (lines : List String)
    → parse_lines marker parse lines
      ≡ (any (λ line. contains_text line marker) lines, parsed marker parse lines)
unfolding parse_lines
parse_lines-parsed marker parse [] = refl
parse_lines-parsed marker parse (line ∷ lines) = elim (Bool-cases (contains_text line marker)) [
  | inl marked ↦ elim (Option-cases (parse line)) [
    | inl refused ↦
        rw (marked, refused, parse_lines) (ground (arith, parse_lines-parsed marker parse lines))
    | inr (a, good) ↦
        rw (marked, good, parse_lines) (ground (arith, parse_lines-parsed marker parse lines))
  ]
  | inr other ↦ rw (other, parse_lines) (ground (arith, parse_lines-parsed marker parse lines))
]

abbrev pub newline : Char
newline = char 10 tt

-- What is parsed of the lines of an output: the values of the marked lines that can be parsed, in
-- their order; an error exactly if there are marked lines and none of them can be parsed. The output
-- is any sequence of lines without newlines, at least one, joined by newlines.
pub parse_all-parsed :
    {A : Type 0} (marker : String) (parse : String → Option A) (line : String) (lines : List String)
    → All (Free 10) (line ∷ lines)
    → parse_all marker parse (join newline (line ∷ lines)) ≡ (
        if is_empty (parsed marker parse (line ∷ lines))
          && any (λ l. contains_text l marker) (line ∷ lines)
        then none
        else some (parsed marker parse (line ∷ lines)))
unfolding parse_all
parse_all-parsed marker parse line lines free =
    rw (split-join newline line lines free, parse_lines-parsed marker parse (line ∷ lines))
