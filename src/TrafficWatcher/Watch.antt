-- ===== src/TrafficWatcher/Watch.antt =====
-- rita/src/rita_common/traffic_watcher/mod.rs: `watch`, with the counters of the kernel interface and
-- the routes of babel as arguments. An IPv6 address is the number that its bytes spell.
use Prim.Native.String.{String}
use althea_rs.Prelude.{
  ℕ, ◌+◌, ◌*◌, ◌/◌, ◌%◌, ◌^◌, Bool, Option, none, some, List, [], ◌∷◌, ◌==◌, ◌&&◌, ◌||◌, ltb,
  if◌then◌else◌,
}
use althea_rs.Prelude.Int.{ℤ, pos, negsuc, ◌+ℤ◌, ◌-ℤ◌}
use althea_rs.Prelude.Maps.{HashMap, get, insert}
use althea_rs.AltheaTypes.{Identity, identity_key}
use althea_rs.UsageTracker.{UpdateUsage, relay}
use althea_rs.DebtKeeper.Keeper.{Traffic}
use althea_rs.TunnelManager.Contact.{Neighbor}
use althea_rs.TrafficWatcher.Keys.{ip_key, name_key, counter_key}

-- The fields of a babel route that are read; the prefix is an address and its length, or IPv4.
pub record Route : Type 0 where
  pub prefix : Option (ℕ × ℕ)
  pub installed : Bool
  pub price : ℕ

abbrev pub Counters : Type 0
Counters = HashMap (ℕ × String) ℕ

-- The loop of `prepare_helper_maps` on the two maps.
unfoldable pub helper_maps :
    List Neighbor
    → HashMap ℕ Identity × HashMap String Identity
    → HashMap ℕ Identity × HashMap String Identity
helper_maps [] maps = maps
helper_maps (neigh ∷ neighbors) (identities, if_to_id) = helper_maps neighbors (
  insert neigh.identity.global.mesh_ip neigh.identity.global identities,
  insert neigh.iface_name neigh.identity.global if_to_id,
)

-- The sum of `u32`.
abbrev capped_price : ℕ → ℕ → ℕ → ℕ
capped_price max_fee local_fee price =
    ((if ltb max_fee price then max_fee else price) + local_fee) % 2 ^ 32

-- The loop of `get_babel_info`: host addresses with an installed route.
unfoldable pub destinations_of : ℕ → ℕ → List Route → HashMap ℕ ℕ → HashMap ℕ ℕ
destinations_of max_fee local_fee [] destinations = destinations
destinations_of max_fee local_fee (route ∷ routes) destinations =
    destinations_of max_fee local_fee routes (elim route.prefix [
      | none ↦ destinations
      | some (ip, length) ↦
          if length == 128 && route.installed
          then insert ip (capped_price max_fee local_fee route.price) destinations
          else destinations
    ])

unfoldable pub get_babel_info : ℕ → ℕ → Option ℕ → List Route → Option (HashMap ℕ ℕ)
unfolding destinations_of
get_babel_info max_fee local_fee mesh_ip routes = elim mesh_ip [
  | none ↦ none
  | some ip ↦ some (insert ip 0 (destinations_of max_fee local_fee routes []))
]

-- `is_link_local` and `is_multicast` of an IPv6 address: fe80::/10 and ff00::/8.
abbrev pub is_local : ℕ → Bool
is_local ip = ip / 2 ^ 118 == 1018 || ip / 2 ^ 120 == 255

-- `*total.entry(k).or_insert(0) += v` on `u64`.
abbrev add_counter : ℕ × String → ℕ → Counters → Counters
add_counter k v total = insert k ((elim (get k total) [ none ↦ v | some w ↦ w + v ]) % 2 ^ 64) total

unfoldable pub add_forwarded : Counters → Counters → Counters
add_forwarded [] total = total
add_forwarded ((k, v) ∷ counters) total = add_forwarded counters (add_counter k v total)

unfoldable pub add_billable : Counters → Counters → Counters
add_billable [] total = total
add_billable (((ip, name), v) ∷ counters) total =
    add_billable counters (if is_local ip then total else add_counter (ip, name) v total)

-- `get_input_counters` and `get_output_counters`, with what is read of the two counters of each.
unfoldable pub get_counters : Option Counters → Option Counters → Option Counters
unfolding add_billable add_forwarded
get_counters none forwarded = none
get_counters (some counters) none = none
get_counters (some counters) (some forwarded) =
    some (add_forwarded forwarded (add_billable counters []))

abbrev total_of : Counters → ℕ
total_of [] = 0
total_of ((k, v) ∷ counters) = v + total_of counters

-- `update_usage`; the sums are of `u64`.
unfoldable pub update_usage : Counters → Counters → ℕ → UpdateUsage
update_usage input output our_fee = record {
  kind = relay;
  up = total_of output % 2 ^ 64;
  down = total_of input % 2 ^ 64;
  price = our_fee;
}

abbrev pub Debts : Type 0
Debts = HashMap Identity ℤ

-- The table of debts, at zero.
unfoldable pub setup_debts : HashMap ℕ Identity → Debts → Debts
setup_debts [] debts = debts
setup_debts ((ip, ident) ∷ identities) debts = setup_debts identities (insert ident (pos 0) debts)

-- An integer times a natural number.
unfoldable pub scale : ℤ → ℕ → ℤ
scale (pos a) n = pos (a * n)
scale (negsuc a) n = pos 0 -ℤ pos ((a + 1) * n)

-- How a counter changes a debt, by the price of the destination and the number of bytes.
abbrev pub debit : ℕ → ℕ → ℤ → ℤ
debit dest bytes debt = debt -ℤ pos (dest * bytes)

abbrev pub credit : ℕ → ℕ → ℕ → ℤ → ℤ
credit local_fee dest bytes debt = debt +ℤ scale (pos dest -ℤ pos local_fee) bytes

module _ (destinations : HashMap ℕ ℕ) (if_to_id : HashMap String Identity) where
  -- One turn of either loop over the counters.
  unfoldable pub bill_one : (ℕ → ℕ → ℤ → ℤ) → ℕ → String → ℕ → Debts → Debts
  bill_one change ip interface bytes debts = elim (get ip destinations) [
    | none ↦ debts
    | some dest ↦ elim (get interface if_to_id) [
      | none ↦ debts
      | some id_from_if ↦ elim (get id_from_if debts) [
        | none ↦ debts
        | some debt ↦ insert id_from_if (change dest bytes debt) debts
      ]
    ]
  ]

  unfoldable pub bill : (ℕ → ℕ → ℤ → ℤ) → Counters → Debts → Debts
  unfolding bill_one
  bill change [] debts = debts
  bill change (((ip, interface), bytes) ∷ counters) debts =
      bill change counters (bill_one change ip interface bytes debts)

unfoldable pub traffic_vec : Debts → List Traffic
traffic_vec [] = []
traffic_vec ((from, amount) ∷ debts) = record { from = from; amount = amount } ∷ traffic_vec debts

-- What the kernel interface and babel answer, and the settings that are read.
pub record Inputs : Type 0 where
  pub neighbors : List Neighbor
  pub routes : List Route
  pub max_fee : ℕ
  pub local_fee : ℕ
  pub mesh_ip : Option ℕ
  pub input : Option Counters
  pub forward_input : Option Counters
  pub output : Option Counters
  pub forward_output : Option Counters

-- The two loops of `watch` from the table at zero.
unfoldable pub final_debts : Inputs → HashMap ℕ ℕ → Counters → Counters → Debts
unfolding helper_maps setup_debts bill
final_debts inputs destinations input output =
    let (identities, if_to_id) = helper_maps inputs.neighbors ([], []) in
    bill destinations if_to_id (credit inputs.local_fee) output
      (bill destinations if_to_id debit input (setup_debts identities []))

-- `watch`: the messages to the usage tracker and to the debt keeper, or an error.
unfoldable pub watch : Inputs → Option (UpdateUsage × List Traffic)
unfolding get_babel_info get_counters update_usage traffic_vec final_debts
watch inputs = elim (get_babel_info inputs.max_fee inputs.local_fee inputs.mesh_ip inputs.routes) [
  | none ↦ none
  | some destinations ↦ elim (get_counters inputs.input inputs.forward_input) [
    | none ↦ none
    | some input ↦ elim (get_counters inputs.output inputs.forward_output) [
      | none ↦ none
      | some output ↦ some (
        update_usage input output inputs.local_fee,
        traffic_vec (final_debts inputs destinations input output),
      )
    ]
  ]
]
