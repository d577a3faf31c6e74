-- ===== src/LightClientManager/Watching.antt =====
-- rita/src/rita_client/light_client_manager/mod.rs: `Watch`, the bills of light clients.
use althea_rs.Prelude.{ℕ, ◌+◌, ◌*◌, ◌%◌, ◌^◌, Option, none, some, List, [], ◌∷◌, map}
use althea_rs.Prelude.Int.{pos, ◌-ℤ◌}
use althea_rs.Prelude.Maps.{get, insert}
use althea_rs.AltheaTypes.{Identity, identity_key}
use althea_rs.IpIncrement.{Octets}
use althea_rs.DebtKeeper.Keeper.{Traffic}
use althea_rs.TrafficWatcher.Keys.{ip_key}
use althea_rs.TrafficWatcher.Watch.{Debts, traffic_vec}
use althea_rs.ExitWatcher.{Usages, prepare_usage_history, moved}
use althea_rs.LightClientManager.{LightClientManager, return_addresses}

-- What is read of a tunnel, with what `read_wg_counters` answers for its interface.
pub record Watched : Type 0 where
  pub light_client_details : Option Octets
  pub global : Identity
  pub counter : Option Usages

unfoldable pub subtract_or_insert_and_subtract : Identity → ℕ → Debts → Debts
subtract_or_insert_and_subtract i debt debts = elim (get i debts) [
  | some val ↦ insert i (val -ℤ pos debt) debts
  | none ↦ insert i (pos 0 -ℤ pos debt) debts
]

-- What is billed for the counters of a light client, and what is seen then; `none` is a panic.
unfoldable pub charge : ℕ → Usages → Usages → Option (ℕ × Usages)
unfolding prepare_usage_history moved
charge our_price [] last_seen_bytes = none
charge our_price ((key, usage) ∷ []) last_seen_bytes =
    let prepared = prepare_usage_history ((key, usage) ∷ []) last_seen_bytes in
    elim (get key prepared) [
      | none ↦ none
      | some last_seen_usage ↦
          let round_upload = moved usage.upload last_seen_usage.upload in
          let round_download = moved usage.download last_seen_usage.download in
          some (
            (round_upload + round_download) % 2 ^ 64 * (our_price % 2 ^ 64) % 2 ^ 64,
            insert key usage prepared,
          )
    ]
charge our_price (first ∷ (second ∷ counters)) last_seen_bytes = none

-- The loop over the tunnels.
unfoldable pub bill_tunnels : ℕ → List Watched → Debts × Usages → Option (Debts × Usages)
unfolding charge subtract_or_insert_and_subtract
bill_tunnels our_price [] state = some state
bill_tunnels our_price (tunnel ∷ tunnels) (debts, last_seen_bytes) =
    elim (tunnel.light_client_details) [
      | none ↦ bill_tunnels our_price tunnels (debts, last_seen_bytes)
      | some details ↦ elim (tunnel.counter) [
        | none ↦ bill_tunnels our_price tunnels (debts, last_seen_bytes)
        | some counter ↦ elim (charge our_price counter last_seen_bytes) [
          | none ↦ none
          | some (debt, seen) ↦
              bill_tunnels our_price tunnels
                (subtract_or_insert_and_subtract tunnel.global debt debts, seen)
        ]
      ]
    ]

-- `Handler<Watch>`: the traffic that is sent to the debt keeper and the state; `none` is a panic.
unfoldable pub watch :
    ℕ → ℕ → List Watched → LightClientManager → Option (List Traffic × LightClientManager)
unfolding bill_tunnels traffic_vec return_addresses
watch local_fee exit_dest_price tunnels m =
    elim (bill_tunnels (local_fee + exit_dest_price) tunnels ([], m.last_seen_bytes)) [
      | none ↦ none
      | some (debts, last_seen_bytes) ↦ some (
        traffic_vec debts,
        record m {
          assigned_addresses =
              return_addresses (map (λ t. t.light_client_details) tunnels) m.assigned_addresses;
          last_seen_bytes = last_seen_bytes;
        },
      )
    ]
