-- ===== src/Oracle/Prices.antt =====
-- rita/src/rita_common/oracle/mod.rs: `update_oracle`, what the answer of the settings server
-- changes. The settings turn into JSON and back by code that the crate serde derives, which is a
-- parameter, like the package feed of the router, which is read and written as a file.
use Prim.Native.String.{String}
use text.Mathlib.Text.{◌==◌ as str_eq, starts_with}
use althea_rs.Prelude.{
  ℕ, Bool, true, false, not, Option, none, some, List, [], ◌∷◌, ltb, ◌==◌, ◌&&◌, if◌then◌else◌,
}
use althea_rs.AltheaTypes.{SystemChain}
use althea_rs.Oracle.Json.{Value, null, scalar, array, object, json_merge, contains_forbidden_key}

pub data ReleaseStatus : Type 0 where
  custom : String → ReleaseStatus
  release_candidate pre_release general_availability : ReleaseStatus

-- `ReleaseStatus::from_str`
unfoldable pub release_from_str : String → Option ReleaseStatus
release_from_str s =
    if str_eq s "rc"
    then some release_candidate
    else if str_eq s "pr"
    then some pre_release
    else if str_eq s "ga"
    then some general_availability
    else if str_eq s "ReleaseCandidate"
    then some release_candidate
    else if str_eq s "PreRelease"
    then some pre_release
    else if str_eq s "GeneralAvailability"
    then some general_availability
    else if str_eq s ""
    then none
    else some (custom s)

-- The derived `PartialEq` of `ReleaseStatus`.
unfoldable pub release_eq : ReleaseStatus → ReleaseStatus → Bool
release_eq (custom s) (custom t) = str_eq s t
release_eq release_candidate release_candidate = true
release_eq pre_release pre_release = true
release_eq general_availability general_availability = true
release_eq _ _ = false

pub record OracleUpdate : Type 0 where
  pub client : ℕ
  pub gateway : ℕ
  pub max : ℕ
  pub dao_fee : ℕ
  pub warning : ℕ
  pub system_chain : Option SystemChain
  pub withdraw_chain : Option SystemChain
  pub release_feed : Option String
  pub merge_json : Value

pub record TokenBridgeAddresses : Type 0 where
  pub uniswap_address : ℕ
  pub xdai_home_bridge_address : ℕ
  pub xdai_foreign_bridge_address : ℕ
  pub foreign_dai_contract_address : ℕ
  pub eth_full_node_url : String
  pub xdai_full_node_url : String

-- The derived `PartialEq` of `TokenBridgeAddresses`.
unfoldable pub addresses_eq : TokenBridgeAddresses → TokenBridgeAddresses → Bool
addresses_eq a b =
    a.uniswap_address == b.uniswap_address
    && a.xdai_home_bridge_address == b.xdai_home_bridge_address
    && a.xdai_foreign_bridge_address == b.xdai_foreign_bridge_address
    && a.foreign_dai_contract_address == b.foreign_dai_contract_address
    && str_eq a.eth_full_node_url b.eth_full_node_url
    && str_eq a.xdai_full_node_url b.xdai_full_node_url

-- The settings that the oracle reads or writes by name; all else that they hold is `other`.
pub record OracleSettings (Other : Type 0) : Type 0 where
  pub oracle_enabled : Bool
  pub oracle_url : Option String
  pub use_oracle_price : Bool
  pub is_gateway : Bool
  pub local_fee : ℕ
  pub max_fee : ℕ
  pub balance_warning_level : ℕ
  pub system_chain : SystemChain
  pub withdraw_chain : SystemChain
  pub dao_fee : ℕ
  pub bridge_addresses : TokenBridgeAddresses
  pub other : Other

-- What serde derives for a type of settings.
pub record Serde (S : Type 0) : Type 0 where
  pub to_value : S → Value
  pub from_value : Value → Option S

abbrev pub forbidden_merge_values : List String
forbidden_merge_values =
    "eth_private_key" ∷ "eth_address" ∷ "mesh_ip" ∷ "external_nic" ∷ "peer_interfaces" ∷ []

module _ {S : Type 0} (serde : Serde S) where
  -- `merge` of settings/src/client.rs and settings/src/exit.rs: an error leaves the settings.
  unfoldable pub merge : Value → S → S
  merge changed_settings settings =
      elim (serde.from_value (json_merge (serde.to_value settings) changed_settings)) [
        | none ↦ settings
        | some new_settings ↦ new_settings
      ]

  -- A value that is no object is not merged, be it the empty text or another.
  unfoldable pub merge_settings_safely : Value → S → S
  unfolding merge
  merge_settings_safely null settings = settings
  merge_settings_safely (scalar s) settings = settings
  merge_settings_safely (array xs) settings = settings
  merge_settings_safely (object map) settings =
      if contains_forbidden_key forbidden_merge_values map
      then settings
      else merge (object map) settings

-- The feed that `handle_release_feed_update` sets, by what `get_release_feed` answers.
unfoldable pub handle_release_feed_update :
    Option String → Option ReleaseStatus → Option ReleaseStatus
unfolding release_from_str release_eq
handle_release_feed_update none old = none
handle_release_feed_update (some new_feed) none = none
handle_release_feed_update (some new_feed) (some old_feed) = elim (release_from_str new_feed) [
  | none ↦ none
  | some feed ↦ if release_eq feed old_feed then none else some feed
]

-- What an update leads to besides new settings: a new feed, and `ReloadAddresses` to the bridge.
pub record Effects : Type 0 where
  pub set_feed : Option ReleaseStatus
  pub reload_addresses : Bool

module _ {Other : Type 0} (serde : Serde (OracleSettings Other)) where
  -- The prices and chains.
  unfoldable pub set_prices : OracleUpdate → Bool → OracleSettings Other → OracleSettings Other
  set_prices new is_gateway s = record s {
    local_fee =
        if s.use_oracle_price
        then (if is_gateway then new.gateway else new.client)
        else s.local_fee;
    max_fee = new.max;
    balance_warning_level = new.warning;
    system_chain = elim (new.system_chain) [ none ↦ s.system_chain | some chain ↦ chain ];
    withdraw_chain = elim (new.withdraw_chain) [ none ↦ s.withdraw_chain | some chain ↦ chain ];
  }

  unfoldable pub raise_dao_fee : ℕ → OracleSettings Other → OracleSettings Other
  raise_dao_fee new_dao_fee s =
      if ltb s.dao_fee new_dao_fee then record s { dao_fee = new_dao_fee } else s

  -- What is done with an answer that could be read.
  unfoldable pub apply_update :
      OracleUpdate
      → Bool
      → Option ReleaseStatus
      → OracleSettings Other
      → Effects × OracleSettings Other
  unfolding set_prices raise_dao_fee merge_settings_safely handle_release_feed_update addresses_eq
  apply_update new is_gateway old_feed s =
      let s' =
        merge_settings_safely serde new.merge_json
          (raise_dao_fee new.dao_fee (set_prices new is_gateway s)) in
      (
        record {
          set_feed = handle_release_feed_update new.release_feed old_feed;
          reload_addresses = not (addresses_eq s'.bridge_addresses s.bridge_addresses);
        },
        s',
      )

  no_effects : Effects
  no_effects = record { set_feed = none; reload_addresses = false }

  -- `update_oracle`, with the answer of the server, if there is one that can be read.
  unfoldable pub update_oracle :
      Option OracleUpdate
      → Option ReleaseStatus
      → OracleSettings Other
      → Effects × OracleSettings Other
  unfolding apply_update no_effects
  update_oracle answer old_feed s =
      if s.oracle_enabled
      then (elim (s.oracle_url) [
        | none ↦ (no_effects, s)
        | some url ↦
            if starts_with url "https://"
            then (elim answer [
              | none ↦ (no_effects, s)
              | some new_settings ↦ apply_update new_settings s.is_gateway old_feed s
            ])
            else (no_effects, s)
      ])
      else (no_effects, s)
