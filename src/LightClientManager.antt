-- ===== src/LightClientManager.antt =====
-- rita/src/rita_client/light_client_manager/mod.rs: the addresses of light clients, which are phones
-- behind the router, and their bills. `HashMap` and `HashSet` of addresses are lists, as everywhere.
pub mod Search
pub mod Addresses
pub mod Garbage
pub mod Watching
pub mod Bills
pub mod Moved
mod Tests
use althea_rs.Prelude.{
  ℕ, zero, suc, ◌+◌, Bool, true, false, Option, none, some, List, [], ◌∷◌, ◌==◌, ◌&&◌, ◌||◌, length,
  any, map, if◌then◌else◌,
}
use althea_rs.Prelude.Maps.{HashMap, get, insert, remove}
use althea_rs.Prelude.Outcome.{Outcome, ok, err, panic}
use althea_rs.AltheaTypes.{LocalIdentity, local_identity_key}
use althea_rs.ExitWatcher.{Usages}
use althea_rs.IpIncrement.{Octets, Error, incrementv4}

-- `Ipv4Addr::eq`
abbrev pub octets_eq : Octets → Octets → Bool
octets_eq [] [] = true
octets_eq [] (y ∷ ys) = false
octets_eq (x ∷ xs) [] = false
octets_eq (x ∷ xs) (y ∷ ys) = x == y && octets_eq xs ys

pub record LightClientManager : Type 0 where
  pub start_address : Octets
  pub prefix : ℕ
  pub assigned_addresses : HashMap LocalIdentity Octets
  pub last_seen_bytes : Usages

-- `LightClientManager::default`
unfoldable pub default : LightClientManager
default = record {
  start_address = 192 ∷ (168 ∷ (20 ∷ (1 ∷ [])));
  prefix = 24;
  assigned_addresses = [];
  last_seen_bytes = [];
}

-- `assigned_ips`
abbrev pub addresses : HashMap LocalIdentity Octets → List Octets
addresses [] = []
addresses ((id, ip) ∷ m) = ip ∷ addresses m

abbrev pub is_assigned : Octets → List Octets → Bool
is_assigned address assigned = any (octets_eq address) assigned

-- The `while` loop, on fuel: `none` where that runs out.
unfoldable pub first_unused : ℕ → List Octets → ℕ → Octets → Option (Outcome Error Octets)
first_unused zero assigned prefix address = none
first_unused (suc fuel) assigned prefix address = elim (is_assigned address assigned) [
  | false ↦ some (ok address)
  | true ↦ elim (incrementv4 address prefix) [
    | ok next ↦ first_unused fuel assigned prefix next
    | err e ↦ some (err e)
    | panic ↦ some panic
  ]
]

-- `Handler<GetAddress>`, on fuel for one step more than there are addresses.
unfoldable pub get_address :
    LocalIdentity → LightClientManager → Option (Outcome Error Octets) × LightClientManager
get_address requester_id m = elim (get requester_id m.assigned_addresses) [
  | some ip ↦ (some (ok ip), m)
  | none ↦
      let assigned_ips = addresses m.assigned_addresses in
      elim (first_unused (suc (length assigned_ips)) assigned_ips m.prefix m.start_address) [
        | some (ok new_address) ↦ (
          some (ok new_address),
          record m { assigned_addresses = insert requester_id new_address m.assigned_addresses },
        )
        | some (err e) ↦ (some (err e), m)
        | some panic ↦ (some panic, m)
        | none ↦ (none, m)
      ]
]

-- `light_client_details` of a `Tunnel`, for each tunnel.
abbrev pub in_use : List (Option Octets) → Octets → Bool
in_use [] ip = false
in_use (none ∷ tunnels) ip = in_use tunnels ip
in_use (some tunnel_ip ∷ tunnels) ip = octets_eq tunnel_ip ip || in_use tunnels ip

-- The loop of `return_addresses`, from a value of its flag `found` on.
unfoldable pub addresses_to_remove :
    List (Option Octets) → Bool → HashMap LocalIdentity Octets → List LocalIdentity
addresses_to_remove tunnels found [] = []
addresses_to_remove tunnels found ((id, ip) ∷ m) =
    let found' = in_use tunnels ip || found in
    let rest = addresses_to_remove tunnels found' m in if found' then rest else id ∷ rest

unfoldable pub remove_all :
    List LocalIdentity → HashMap LocalIdentity Octets → HashMap LocalIdentity Octets
remove_all [] m = m
remove_all (id ∷ ids) m = remove_all ids (remove id m)

unfoldable pub return_addresses :
    List (Option Octets) → HashMap LocalIdentity Octets → HashMap LocalIdentity Octets
unfolding addresses_to_remove remove_all
return_addresses tunnels m = remove_all (addresses_to_remove tunnels false m) m
