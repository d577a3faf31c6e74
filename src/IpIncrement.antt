-- ===== src/IpIncrement.antt =====
-- rita/src/rita_common/utils/ip_increment.rs: the next address below a netmask. An address is the
-- list of its octets, four or sixteen of them, the most significant first.
pub mod Value
pub mod Subnet
mod Tests
use althea_rs.Prelude.{
  ℕ, zero, suc, ◌+◌, ◌-◌, ◌/◌, ◌%◌, Bool, true, false, List, [], ◌∷◌, ◌==◌, ◌&&◌, leb, ltb, get_or,
  set, if◌then◌else◌,
}
use althea_rs.Prelude.Outcome.{Outcome, ok, err, panic}

pub data Error : Type 0 where
  exhausted no_more_space : Error

abbrev pub Octets : Type 0
Octets = List ℕ

-- `n` indices downwards from `i`: the range `(i + 1 - n .. i + 1).rev()`.
unfoldable pub down : ℕ → ℕ → List ℕ
down zero i = []
down (suc n) i = i ∷ down n (i - 1)

-- The `for` loop over the indices, with the index of the first test.
unfoldable pub increment_loop : ℕ → List ℕ → Bool → Octets → Outcome Error Octets
increment_loop last [] carry oct = err no_more_space
increment_loop last (i ∷ indices) carry oct =
    let rest = increment_loop last indices true (set oct i 0) in
    if i == last && get_or oct i 0 == 255 && carry
    then err exhausted
    else (if get_or oct i 0 == 255 then rest else ok (set oct i (get_or oct i 0 + 1)))

-- `bytes_to_modify` for addresses of so many bits.
abbrev pub bytes_to_modify : ℕ → ℕ → ℕ
bytes_to_modify bits netmask = (bits - netmask + 7) / 8

-- `incrementv4`, and `increment` on `IpAddr::V4`. The assertions, and the `u8` subtractions that
-- would be negative, panic.
unfoldable pub incrementv4 : Octets → ℕ → Outcome Error Octets
unfolding increment_loop down
incrementv4 address netmask =
    let bytes = bytes_to_modify 32 netmask in
    if netmask % 8 == 0 && leb netmask 32 && ltb 0 bytes && leb bytes 3
    then increment_loop (4 - bytes) (down (bytes + 1) 3) false address
    else panic

-- `increment` on `IpAddr::V6`.
unfoldable pub incrementv6 : Octets → ℕ → Outcome Error Octets
unfolding increment_loop down
incrementv6 address netmask =
    let bytes = bytes_to_modify 128 netmask in
    if netmask % 8 == 0 && leb netmask 128 && ltb 0 bytes && leb bytes 15
    then increment_loop (15 - bytes) (down bytes 15) false address
    else panic

pub data IpAddr : Type 0 where
  v4 v6 : Octets → IpAddr

abbrev as_v4 : Outcome Error Octets → Outcome Error IpAddr
as_v4 (ok a) = ok (v4 a)
as_v4 (err e) = err e
as_v4 panic = panic

abbrev as_v6 : Outcome Error Octets → Outcome Error IpAddr
as_v6 (ok a) = ok (v6 a)
as_v6 (err e) = err e
as_v6 panic = panic

unfoldable pub increment : IpAddr → ℕ → Outcome Error IpAddr
unfolding incrementv4 incrementv6
increment (v4 address) netmask = as_v4 (incrementv4 address netmask)
increment (v6 address) netmask = as_v6 (incrementv6 address netmask)
