-- ===== src/BabelMonitor/Socket.antt =====
-- babel_monitor/src/lib.rs: an answer of babeld, read in pieces until its last line. What the socket
-- gives is a list of reads.
use Prim.Native.Char.{code}
use Prim.Native.String.{String, ◌++◌}
use text.Mathlib.Text.{◌==◌ as str_eq}
use althea_rs.Prelude.{
  ℕ, ◌+◌, Bool, Option, none, some, List, [], ◌∷◌, ltb, ◌==◌, ◌||◌, if◌then◌else◌,
}
use althea_rs.BabelMonitor.Text.{split, trim, trim_start, trim_end}

-- The errors of reading, with their texts; `ReadFailed` round a text is that text here.
pub data BabelMonitorError : Type 0 where
  read_failed : String → BabelMonitorError
  no_terminator : String → BabelMonitorError
  tokio_error : BabelMonitorError

pub data Reply : Type 0 where
  ok : String → Reply
  err : BabelMonitorError → Reply

-- `str::lines`: a last line that is empty is none, and a carriage return before the end is dropped.
unfoldable pub without_return : String → String
without_return String.[] = ""
without_return (String.◌∷◌ c s) = elim s [
  | String.[] ↦ if code c == 13 then "" else String.◌∷◌ c ""
  | String.◌∷◌ d t ↦ String.◌∷◌ c (without_return s)
]

unfoldable pub lines_of : List String → List String
unfolding without_return
lines_of [] = []
lines_of (piece ∷ pieces) = elim pieces [
  | [] ↦ if str_eq piece "" then [] else without_return piece ∷ []
  | next ∷ rest ↦ without_return piece ∷ lines_of pieces
]

-- The loop of `read_babel_sync`.
unfoldable pub read_lines : String → List String → Reply
unfolding trim
read_lines ret [] = err (no_terminator ret)
read_lines ret (line ∷ lines) =
    let ret' = (ret ++ line) ++ "\n" in
    let rest = read_lines ret' lines in
    if str_eq (trim line) "ok"
    then ok ret'
    else if str_eq (trim line) "bad" || str_eq (trim line) "no"
    then err (read_failed ret')
    else rest

unfoldable pub read_babel_sync : String → Reply
unfolding read_lines lines_of split
read_babel_sync output = read_lines "" (lines_of (split 10 output))

-- One read: the text of the buffer, if it is UTF-8, and whether it filled the buffer.
pub record Read : Type 0 where
  pub output : Option String
  pub full_buffer : Bool

unfoldable pub trim_zeros : String → String
unfolding trim_start trim_end
trim_zeros s = trim_end (λ c. c == 0) (trim_start (λ c. c == 0) s)

-- `read_babel`; `none` where it still waits when the reads are used up.
unfoldable pub read_babel : List Read → String → ℕ → Option Reply
unfolding trim_zeros read_babel_sync
read_babel [] previous_contents depth = none
read_babel (r ∷ reads) previous_contents depth = elim (r.output) [
  | none ↦ some (err tokio_error)
  | some output ↦
      let full_message = previous_contents ++ trim_zeros output in
      let again = read_babel reads full_message depth in
      let later = read_babel reads full_message (depth + 1) in
      if ltb 5 depth
      then some (err (read_failed "Babel read timed out!"))
      else if r.full_buffer
      then again
      else elim (read_babel_sync full_message) [
        | ok babel_data ↦ some (ok babel_data)
        | err e ↦ elim e [
          | no_terminator ret ↦ later
          | read_failed ret ↦ some (err (read_failed ret))
          | tokio_error ↦ some (err tokio_error)
        ]
      ]
]
