-- ===== src/Time.antt =====
-- `std::time`: an `Instant` is the number of nanoseconds since some start, a `Duration` a number of
-- nanoseconds. The clock is monotonic; a call receives the time at which it runs, and a difference
-- of instants is taken of a later and an earlier one.
use althea_rs.Prelude.{ℕ, ◌*◌, ◌-◌, Bool, ltb}

abbrev pub Instant : Type 0
Instant = ℕ

abbrev pub Duration : Type 0
Duration = ℕ

-- `Duration::from_secs`
abbrev pub from_secs : ℕ → Duration
from_secs n = n * 1_000_000_000

-- `now - start > limit`
abbrev pub elapsed_over : Instant → Instant → Duration → Bool
elapsed_over now start limit = ltb limit (now - start)
