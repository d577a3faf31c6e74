-- ===== src/ClientWatcher.antt =====
-- rita/src/rita_client/traffic_watcher/mod.rs: what a client owes its exit for the traffic of a round.
-- Sums and products of `i128` are exact; the product of `u64` wraps.
pub mod Rounds
pub mod Answers
mod Tests
use althea_rs.Prelude.{
  ℕ, ◌+◌, ◌-◌, ◌*◌, ◌%◌, ◌^◌, Bool, true, false, Option, none, some, List, [], ◌∷◌, ltb, ◌||◌, not,
  if◌then◌else◌,
}
use althea_rs.Prelude.Int.{ℤ, pos, leb_ℤ}
use althea_rs.AltheaTypes.{Identity}
use althea_rs.Float32.{Float32}
use althea_rs.UsageTracker.{UpdateUsage, client as client_usage}
use althea_rs.DebtKeeper.Keeper.{Traffic}
use althea_rs.ExitWatcher.{WgUsage, Usages}
use althea_rs.BabelMonitor.Records.{IpAddr, v4, v6, Route}
use althea_rs.BabelMonitor.Routes.{get_installed_route}

pub record TrafficWatcher : Type 0 where
  pub last_read_input : ℕ
  pub last_read_output : ℕ
  pub gateway_exit_client : Bool
  pub last_exit_dest_price : ℕ

-- `TrafficWatcher::default`
abbrev pub new_watcher : TrafficWatcher
new_watcher = record {
  last_read_input = 0;
  last_read_output = 0;
  gateway_exit_client = false;
  last_exit_dest_price = 0;
}

unfoldable pub we_are_gateway_client : Bool → TrafficWatcher → TrafficWatcher
we_are_gateway_client value history = record history { gateway_exit_client = value }

unfoldable pub get_exit_dest_price : TrafficWatcher → ℕ
get_exit_dest_price history = history.last_exit_dest_price

-- The last of the counters; the reading has failed or is empty at `none`.
unfoldable pub last_counter : Usages → Option WgUsage
last_counter [] = none
last_counter ((key, counter) ∷ res) = elim res [
  | [] ↦ some counter
  | next ∷ rest ↦ last_counter res
]

abbrev pub counter_of : Option Usages → Option WgUsage
counter_of none = none
counter_of (some res) = last_counter res

-- Counters that have fallen are those of a new interface.
unfoldable pub reset_if_fallen : WgUsage → TrafficWatcher → TrafficWatcher
reset_if_fallen counter history =
    if ltb counter.download history.last_read_input || ltb counter.upload history.last_read_output
    then record history { last_read_input = 0; last_read_output = 0 }
    else history

module _ {float : Float32} where
  unfoldable pub find_exit_route_capped : ℕ → IpAddr → List (Route float) → Option (Route float)
  unfolding get_installed_route
  find_exit_route_capped max_fee exit_mesh_ip routes =
      elim (get_installed_route exit_mesh_ip routes) [
        | none ↦ none
        | some exit_route ↦
            if ltb max_fee exit_route.price
            then some (record exit_route { price = max_fee })
            else some exit_route
      ]

  -- What is owed, or an error; the usage that is sent; and the state.
  unfoldable pub local_traffic_calculation :
      ℕ
      → Option Usages
      → Identity
      → ℕ
      → List (Route float)
      → TrafficWatcher
      → Option ℕ × Option UpdateUsage × TrafficWatcher
  unfolding find_exit_route_capped last_counter reset_if_fallen
  local_traffic_calculation max_fee counters exit exit_price routes history =
      elim (find_exit_route_capped max_fee (v6 exit.mesh_ip) routes) [
        | none ↦ (none, none, history)
        | some exit_route ↦ elim (counter_of counters) [
          | none ↦ (none, none, history)
          | some counter ↦
              let reset = reset_if_fallen counter history in
              let input = counter.download - reset.last_read_input in
              let output = counter.upload - reset.last_read_output in
              let exit_dest_price = exit_route.price + exit_price in
              let owes_exit = input * exit_dest_price + (exit_price * output) % 2 ^ 64 in
              (
                some owes_exit,
                if ltb 0 owes_exit
                    then some (record {
                      kind = client_usage;
                      up = output;
                      down = input;
                      price = exit_dest_price % 2 ^ 32;
                    })
                    else none,
                record reset {
                  last_read_input = counter.download;
                  last_read_output = counter.upload;
                  last_exit_dest_price = exit_dest_price;
                },
              )
        ]
      ]

-- What becomes of the request to the exit.
pub data Reply : Type 0 where
  no_stream no_response no_json : Reply
  debt : ℤ → Reply

-- The messages to the debt keeper.
pub data Sent : Type 0 where
  traffic_replace : Traffic → Sent
  key_insensitive_update : Traffic → Sent
  traffic_update : List Traffic → Sent

-- What is sent where the exit gives no number.
abbrev pub local_update : Identity → Option ℕ → Option Sent
local_update exit_id none = none
local_update exit_id (some val) =
    some (traffic_update (record { from = exit_id; amount = pos val } ∷ []))

unfoldable pub act_on : Bool → Identity → Option ℕ → Reply → Option Sent
act_on gateway_exit_client exit_id local_debt no_stream = local_update exit_id local_debt
act_on gateway_exit_client exit_id local_debt no_response = local_update exit_id local_debt
act_on gateway_exit_client exit_id local_debt no_json = local_update exit_id local_debt
act_on gateway_exit_client exit_id local_debt (debt amount) =
    if not gateway_exit_client
    then (if leb_ℤ (pos 0) amount
        then some (traffic_replace (record { from = exit_id; amount = amount }))
        else none)
    else (elim local_debt [
      | none ↦ none
      | some val ↦ some (key_insensitive_update (record { from = exit_id; amount = pos val }))
    ])

pub record QueryExitDebts (float : Float32) : Type 0 where
  pub exit_internal_addr : IpAddr
  pub exit_port : ℕ
  pub exit_id : Identity
  pub exit_price : ℕ
  pub routes : List (Route float)

-- The address and the port in one text are not parsed where the address is IPv6.
abbrev pub has_socket : IpAddr → Bool
has_socket (v4 a) = true
has_socket (v6 a) = false

-- `Handler<QueryExitDebts>` with the future that it starts: the message to the debt keeper, or a
-- panic; the usage that is sent; and the state.
unfoldable pub handle_query_exit_debts :
    {float : Float32}
    → ℕ
    → Option Usages
    → Reply
    → QueryExitDebts float
    → TrafficWatcher
    → Option (Option Sent) × Option UpdateUsage × TrafficWatcher
unfolding local_traffic_calculation act_on
handle_query_exit_debts max_fee counters reply msg history =
    let (local_debt, usage, history') =
      local_traffic_calculation max_fee counters msg.exit_id msg.exit_price msg.routes history in
    (
      if has_socket msg.exit_internal_addr
          then some (act_on history'.gateway_exit_client msg.exit_id local_debt reply)
          else none,
      usage,
      history',
    )
