-- ===== src/BabelMonitor/Tests.antt =====
-- Outputs of babeld, and instances of the theorems.
use Prim.Native.Char.{code}
use Prim.Native.String.{String, ◌++◌}
use althea_rs.Prelude.{
  inl, inr, not, ◌==◌, ◌&&◌, ℕ, zero, suc, arith, ◌+◌, ◌-◌, ◌*◌, ◌/◌, ◌≡◌, refl, Bool, true, false,
  some, List, [], ◌∷◌, ltb,
}
use althea_rs.Float32.{Float32}
use althea_rs.BabelMonitor.Records.{v6, net6, Route}
use althea_rs.BabelMonitor.Text.{split, from_str_radix, digits, trim, trim_start, trim_end}
use althea_rs.BabelMonitor.Parsing.{
  Parsers, find_val, find_babel_val, find_and_parse, parse_route, parse_lines, parse_all,
  parse_routes_sync, get_local_fee_sync,
}
use althea_rs.BabelMonitor.Routes.{route_via, via_neigh, get_route_via_neigh}
use althea_rs.BabelMonitor.Searches.{FindsVia, get_route_via_neigh-Finds}
use althea_rs.BabelMonitor.Socket.{
  err, read_failed, trim_zeros, Read, ok, without_return, lines_of, read_lines, read_babel_sync,
  read_babel,
}
use althea_rs.BabelMonitor.Chunks.{IsOpen, read_babel-waits}
use althea_rs.BabelMonitor.Lines.{Free, newline, join, parsed, parse_all-parsed}

abbrev problem_route_line : String
problem_route_line =
    "add route 241fee0 prefix fdc5:5bcb:24ac:b35a:4b7f:146a:a2a1:bdc4/128 from ::/0 installed no id e6:95:6e:ff:fe:44:c4:12 metric 331 price 426000 fee 354600 refmetric 220 full-path-rtt 38.286 via fe80::6459:f009:c4b4:9971 if wg36"

abbrev neigh_line : String
neigh_line =
    "add neighbour 14f05f0 address fe80::e9d0:498f:6c61:be29 if wlan0 reach ffff rxcost 256 txcost 256 rtt 29.264 rttcost 1050 cost 1306"

-- `line_parse`
fee_word : find_babel_val "fee" problem_route_line ≡ some "354600"
unfolding find_babel_val split
fee_word = refl

reach_word : find_babel_val "reach" neigh_line ≡ some "ffff"
unfolding find_babel_val split
reach_word = refl

-- Whole numbers for floats, and parsers that read their length.
abbrev whole : Float32
whole = record {
  F = ℕ;
  from_ℕ = λ n. n;
  plus = ◌+◌;
  minus = ◌-◌;
  times = ◌*◌;
  divided = ◌/◌;
  less = ltb;
}

abbrev parsers : Parsers whole
parsers = record {
  ip_addr = λ s. some (v6 1);
  ip_network = λ s. some (net6 2 128);
  f32 = λ s. some 7;
}

abbrev output : List String
output = "local fee 1024" ∷ neigh_line ∷ problem_route_line ∷ "add route broken" ∷ "ok" ∷ []

all_lines :
    join newline output
    ≡ "local fee 1024\n" ++ neigh_line ++ "\n" ++ problem_route_line ++ "\nadd route broken\nok"
unfolding join
all_lines = refl

-- `local_fee_parse`
fee : get_local_fee_sync (join newline output) ≡ some 1024
unfolding get_local_fee_sync find_and_parse find_babel_val find_val split from_str_radix digits join
fee = refl

one_route : (r : Route whole) × (parse_routes_sync parsers (join newline output) ≡ some (r ∷ []))
unfolding parse_routes_sync parse_all parse_lines parse_route find_and_parse find_babel_val find_val
    split from_str_radix digits join
one_route = (_, refl)

-- `only_ok_in_output`
only_ok_in_output : read_babel_sync "ok\n" ≡ ok "ok\n"
unfolding read_babel_sync read_lines lines_of split without_return trim trim_start trim_end
only_ok_in_output = refl

abbrev has_no_newline : String → Bool
has_no_newline String.[] = true
has_no_newline (String.◌∷◌ c s) = not (code c == 10) && has_no_newline s

free : (s : String) → has_no_newline s ≡ true → Free 10 s
free String.[] h = tt
free (String.◌∷◌ c s) h = (ground arith, free s (ground arith))

parse_all-parsed_example :
    parse_all "add route" (parse_route parsers) (join newline output)
    ≡ some (parsed "add route" (parse_route parsers) output)
unfolding parse_route find_and_parse find_babel_val find_val split from_str_radix digits
parse_all-parsed_example =
    parse_all-parsed "add route" (parse_route parsers) "local fee 1024"
      (neigh_line ∷ problem_route_line ∷ "add route broken" ∷ "ok" ∷ [])
      (
        free "local fee 1024" refl,
        (
          free neigh_line refl,
          (free problem_route_line refl, (free "add route broken" refl, (free "ok" refl, tt))),
        ),
      )

abbrev route_to : ℕ → ℕ → Bool → Route whole
route_to neigh dest installed = record {
  id = "241fee0";
  iface = "wg36";
  xroute = false;
  installed = installed;
  neigh_ip = v6 neigh;
  prefix = net6 dest 128;
  metric = 331;
  refmetric = 220;
  full_path_rtt = 38;
  price = 426000;
  fee = 354600;
}

-- Two ways to the address 9, of which the second is installed, and one to the neighbour itself.
abbrev table : List (Route whole)
table = route_to 1 9 false ∷ route_to 2 9 true ∷ route_to 2 8 true ∷ []

get_route_via_neigh-Finds_example :
    FindsVia (v6 8) (v6 9) table table (get_route_via_neigh (v6 8) (v6 9) table)
get_route_via_neigh-Finds_example = get_route_via_neigh-Finds (v6 8) (v6 9) table

second : get_route_via_neigh (v6 8) (v6 9) table ≡ some (route_to 2 9 true)
unfolding get_route_via_neigh via_neigh route_via
second = refl

abbrev pieces : ℕ → List Read
pieces zero = []
pieces (suc n) = record { output = some "-"; full_buffer = false } ∷ pieces n

-- A read that fills the buffer, and seven that do not.
abbrev reads : List Read
reads = record { output = some "add"; full_buffer = true } ∷ pieces 7

reads-IsOpen : IsOpen "" reads
unfolding read_babel_sync read_lines lines_of split without_return trim trim_start trim_end
    trim_zeros
reads-IsOpen = (
  "add",
  refl,
  inl refl,
  (
    "-",
    refl,
    inr (_, refl),
    (
      "-",
      refl,
      inr (_, refl),
      (
        "-",
        refl,
        inr (_, refl),
        (
          "-",
          refl,
          inr (_, refl),
          ("-", refl, inr (_, refl), ("-", refl, inr (_, refl), ("-", refl, inr (_, refl), tt))),
        ),
      ),
    ),
  ),
)

read_babel-waits_example : read_babel reads "" 0 ≡ some (err (read_failed "Babel read timed out!"))
read_babel-waits_example = read_babel-waits reads reads-IsOpen
