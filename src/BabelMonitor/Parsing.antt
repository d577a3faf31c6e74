-- ===== src/BabelMonitor/Parsing.antt =====
-- babel_monitor/src/lib.rs: the lines that babeld prints for routes and neighbours. The parsers of
-- addresses, networks and floats are parameters.
use Prim.Native.String.{String}
use text.Mathlib.Text.{◌==◌ as str_eq}
use althea_rs.Prelude.{
  ℕ, ◌^◌, Bool, true, false, Option, none, some, List, [], ◌∷◌, ◌&&◌, if◌then◌else◌,
}
use althea_rs.Float32.{Float32}
use althea_rs.BabelMonitor.Records.{IpAddr, IpNetwork, Route, Neighbor}
use althea_rs.BabelMonitor.Text.{split, contains_text, from_str_radix}

-- The word after another.
abbrev pub next_word : List String → Option String
next_word [] = none
next_word (v ∷ words) = some v

-- The loop of `find_babel_val` over the words of a line.
unfoldable pub find_val : String → List String → Option String
find_val val [] = none
find_val val (entry ∷ rest) = if str_eq entry val then next_word rest else find_val val rest

unfoldable pub find_babel_val : String → String → Option String
unfolding find_val
find_babel_val val line = find_val val (split b' ' line)

infixl 5 ◌>>=◌
abbrev ◌>>=◌ : {A B : Type 0} → Option A → (A → Option B) → Option B
none >>= f = none
some a >>= f = f a

-- `find_and_parse_babel_val`
unfoldable pub find_and_parse : {T : Type 0} → (String → Option T) → String → String → Option T
unfolding find_babel_val
find_and_parse parse val line = find_babel_val val line >>= parse

abbrev pub or_default : {T : Type 0} → T → Option T → T
or_default d none = d
or_default d (some a) = a

abbrev pub u16 : String → Option ℕ
u16 = from_str_radix 10 (2 ^ 16)

abbrev pub u32 : String → Option ℕ
u32 = from_str_radix 10 (2 ^ 32)

pub record Parsers (float : Float32) : Type 0 where
  pub ip_addr : String → Option IpAddr
  pub ip_network : String → Option IpNetwork
  pub f32 : String → Option float.F

module _ {float : Float32} (parsers : Parsers float) where
  open parsers use {ip_addr, ip_network, f32}

  -- The body of the loop of `parse_neighs_sync`; `none` is `continue`.
  unfoldable pub parse_neigh : String → Option (Neighbor float)
  unfolding find_and_parse
  parse_neigh entry = do
    id ← find_babel_val "neighbour" entry
    address ← find_and_parse ip_addr "address" entry
    iface ← find_babel_val "if" entry
    reach ← find_and_parse (from_str_radix 16 (2 ^ 16)) "reach" entry
    txcost ← find_and_parse u16 "txcost" entry
    rxcost ← find_and_parse u16 "rxcost" entry
    cost ← find_and_parse u16 "cost" entry
    some (record {
      id = id;
      address = address;
      iface = iface;
      reach = reach;
      txcost = txcost;
      rxcost = rxcost;
      rtt = or_default (float.from_ℕ 0) (find_and_parse f32 "rtt" entry);
      rttcost = or_default 0 (find_and_parse u16 "rttcost" entry);
      cost = cost;
    })

  -- The body of the loop of `parse_routes_sync`.
  unfoldable pub parse_route : String → Option (Route float)
  unfolding find_and_parse
  parse_route entry = do
    id ← find_babel_val "route" entry
    iface ← find_babel_val "if" entry
    installed ← find_babel_val "installed" entry
    neigh_ip ← find_and_parse ip_addr "via" entry
    prefix ← find_and_parse ip_network "prefix" entry
    metric ← find_and_parse u16 "metric" entry
    refmetric ← find_and_parse u16 "refmetric" entry
    full_path_rtt ← find_and_parse f32 "full-path-rtt" entry
    price ← find_and_parse u32 "price" entry
    fee ← find_and_parse u32 "fee" entry
    some (record {
      id = id;
      iface = iface;
      xroute = false;
      installed = contains_text installed "yes";
      neigh_ip = neigh_ip;
      prefix = prefix;
      metric = metric;
      refmetric = refmetric;
      full_path_rtt = full_path_rtt;
      price = price;
      fee = fee;
    })

-- The loop over the lines that hold a marker: whether there was one, and what could be parsed.
unfoldable pub parse_lines :
    {A : Type 0} → String → (String → Option A) → List String → Bool × List A
parse_lines marker parse [] = (false, [])
parse_lines marker parse (entry ∷ lines) =
    let (found, vector) = parse_lines marker parse lines in
    if contains_text entry marker
    then (elim (parse entry) [ none ↦ (true, vector) | some a ↦ (true, a ∷ vector) ])
    else (found, vector)

abbrev pub is_empty : {A : Type 0} → List A → Bool
is_empty [] = true
is_empty (x ∷ xs) = false

-- `none` is the error that all parsing has failed.
unfoldable pub parse_all : {A : Type 0} → String → (String → Option A) → String → Option (List A)
unfolding parse_lines
parse_all marker parse output =
    let (found, vector) = parse_lines marker parse (split 10 output) in
    if is_empty vector && found then none else some vector

module _ {float : Float32} (parsers : Parsers float) where
  unfoldable pub parse_neighs_sync : String → Option (List (Neighbor float))
  unfolding parse_all parse_neigh
  parse_neighs_sync = parse_all "add neighbour" (parse_neigh parsers)

  unfoldable pub parse_routes_sync : String → Option (List (Route float))
  unfolding parse_all parse_route
  parse_routes_sync = parse_all "add route" (parse_route parsers)

-- The line of the fee is the first.
unfoldable pub get_local_fee_sync : String → Option ℕ
unfolding find_and_parse
get_local_fee_sync babel_output = elim (split 10 babel_output) [
  | [] ↦ none
  | fee_entry ∷ lines ↦
      if contains_text fee_entry "local fee" then find_and_parse u32 "fee" fee_entry else none
]

unfoldable pub validate_preamble : String → Bool
validate_preamble preamble = contains_text preamble "ALTHEA 0.1"
