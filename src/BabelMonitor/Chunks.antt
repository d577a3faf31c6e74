-- ===== src/BabelMonitor/Chunks.antt =====
-- babel_monitor/src/lib.rs: reading in pieces ends.
use Prim.Native.String.{String, ◌++◌}
use althea_rs.Prelude.{
  ℕ, ◌+◌, ◌≡◌, refl, ◌∙◌, ◌⊎◌, Bool-cases, Option, true, ltb, leb, ◌≢◌, ◌≤◌, none, some, List, [],
  ◌∷◌, inl, inr, Option-cases, arith, if◌then◌else◌,
}
use althea_rs.BabelMonitor.Socket.{
  Read, Reply, err, read_failed, no_terminator, read_babel_sync, read_babel, trim_zeros,
}

-- The reads that did not fill the buffer.
abbrev pub partial_reads : List Read → ℕ
partial_reads [] = 0
partial_reads (r ∷ reads) = (if r.full_buffer then 0 else 1) + partial_reads reads

ends :
    (reads : List Read) (previous_contents : String) (depth : ℕ)
    → 7 ≤ partial_reads reads + depth
    → depth ≤ 6
    → read_babel reads previous_contents depth ≢ none
unfolding read_babel
ends [] previous_contents depth h d = absurd (omega arith)
ends (r ∷ reads) previous_contents depth h d = elim (Option-cases r.output) [
  | inl bad ↦ ground arith
  | inr (output, good) ↦
      let full_message = previous_contents ++ trim_zeros output in
      ground (arith, ends reads full_message depth, ends reads full_message (depth + 1))
]

-- Reading ends, with an answer or an error, by the seventh read that does not fill the buffer,
-- whatever babeld sends; reads that fill it do not count.
pub read_babel-ends :
    (reads : List Read)
    → 7 ≤ partial_reads reads
    → (reply : Reply) × (read_babel reads "" 0 ≡ some reply)
read_babel-ends reads h = elim (Option-cases (read_babel reads "" 0)) [
  | inl open_end ↦ absurd (ends reads "" 0 (omega arith) (omega arith) open_end)
  | inr answer ↦ answer
]

-- Reads of text such that, whatever was read before, no read that leaves room in the buffer completes
-- an answer: the text so far has no line that ends one.
abbrev pub IsOpen : String → List Read → Type 0
IsOpen previous_contents [] = Unit
IsOpen previous_contents (r ∷ reads) =
    (output : String) × (r.output ≡ some output)
    × ((r.full_buffer ≡ true)
        ⊎ ((ret : String) × (read_babel_sync (previous_contents ++ trim_zeros output)
              ≡ err (no_terminator ret))))
    × IsOpen (previous_contents ++ trim_zeros output) reads

-- All reads but the last.
abbrev pub before_last : List Read → List Read
before_last [] = []
before_last (r ∷ reads) = elim reads [ [] ↦ [] | next ∷ rest ↦ r ∷ before_last reads ]

abbrev timed_out : Option Reply
timed_out = some (err (read_failed "Babel read timed out!"))

abbrev next_depth : Read → ℕ → ℕ
next_depth r depth = if r.full_buffer then depth else depth + 1

-- One read that leaves the answer open.
open_read :
    (r : Read) (reads : List Read) (previous_contents output : String) (depth : ℕ)
    → r.output ≡ some output
    → (r.full_buffer ≡ true)
      ⊎ ((ret : String) × (read_babel_sync (previous_contents ++ trim_zeros output)
            ≡ err (no_terminator ret)))
    → read_babel (r ∷ reads) previous_contents depth ≡ (
        if ltb 5 depth
        then timed_out
        else read_babel reads (previous_contents ++ trim_zeros output) (next_depth r depth))
unfolding read_babel
open_read r reads previous_contents output depth text (inl full) = rw (text, full, read_babel) refl
open_read r reads previous_contents output depth text (inr (ret, more)) =
    elim (Bool-cases r.full_buffer) [
      | inl full ↦ rw (text, full, read_babel) refl
      | inr room ↦ rw (text, room, more, read_babel) refl
    ]

abbrev verdict : ℕ → List Read → Option Reply
verdict depth [] = none
verdict depth (r ∷ reads) =
    if leb 6 (depth + partial_reads (before_last (r ∷ reads))) then timed_out else none

waits :
    (reads : List Read) (previous_contents : String) (depth : ℕ)
    → IsOpen previous_contents reads
    → depth ≤ 6
    → read_babel reads previous_contents depth ≡ verdict depth reads
unfolding read_babel
waits [] previous_contents depth open_reads h = refl
waits (r ∷ []) previous_contents depth (output, text, more, later) h =
    open_read r [] previous_contents output depth text more ∙ ground arith
waits (r ∷ (s ∷ reads)) previous_contents depth (output, text, more, later) h =
    open_read r (s ∷ reads) previous_contents output depth text more
    ∙ elim (Bool-cases (ltb 5 depth)) [
      | inl late ↦ rw late (ground arith)
      | inr early ↦ rw early (
          waits (s ∷ reads) (previous_contents ++ trim_zeros output) (next_depth r depth) later
            (ground arith)
          ∙ ground arith)
    ]

-- As long as no answer is complete, reading goes on through exactly six reads that leave room in the
-- buffer, however many fill it: it waits for more, unless six such reads came before the last one,
-- and then it fails for the time.
pub read_babel-waits :
    (reads : List Read)
    → IsOpen "" reads
    → read_babel reads "" 0 ≡ (
        if leb 6 (partial_reads (before_last reads))
        then some (err (read_failed "Babel read timed out!"))
        else none)
read_babel-waits [] open_reads = unfold read_babel in refl
read_babel-waits (r ∷ reads) open_reads =
    waits (r ∷ reads) "" 0 open_reads (omega arith) ∙ ground arith
