-- ===== src/ExitWatcher.antt =====
-- rita/src/rita_exit/traffic_watcher/mod.rs: what the clients of an exit owe for the traffic of a round,
-- and `prepare_usage_history` of althea_kernel_interface/src/wg_iface_counter.rs. A WireGuard key and an
-- IPv6 address are the numbers that their bytes spell.
pub mod Rounds
mod Tests
use althea_rs.Prelude.{
  ℕ, ◌+◌, ◌-◌, ◌*◌, ◌%◌, ◌^◌, Bool, Option, none, some, List, [], ◌∷◌, ◌==◌, ◌&&◌, ltb,
  if◌then◌else◌,
}
use althea_rs.Prelude.Int.{ℤ, pos, ◌-ℤ◌}
use althea_rs.Prelude.Maps.{HashMap, get, insert}
use althea_rs.AltheaTypes.{Identity, identity_key}
use althea_rs.UsageTracker.{UpdateUsage, exit as exit_usage}
use althea_rs.DebtKeeper.Keeper.{Traffic}
use althea_rs.TrafficWatcher.Keys.{ip_key}
use althea_rs.TrafficWatcher.Watch.{Route, Debts, traffic_vec}

pub record WgUsage : Type 0 where
  pub upload : ℕ
  pub download : ℕ

abbrev pub Usages : Type 0
Usages = HashMap ℕ WgUsage

-- The entry of a key that is in the history, by what is read now.
unfoldable pub refreshed : WgUsage → WgUsage → WgUsage
refreshed bytes history =
    let first =
      if ltb bytes.download history.download then record history { download = 0 } else history in
    if ltb bytes.upload first.upload then record first { download = 0 } else first

unfoldable pub prepare_usage_history : Usages → Usages → Usages
unfolding refreshed
prepare_usage_history [] usage_history = usage_history
prepare_usage_history ((wg_key, bytes) ∷ counters) usage_history =
    prepare_usage_history counters (elim (get wg_key usage_history) [
      | none ↦ insert wg_key bytes usage_history
      | some history ↦ insert wg_key (refreshed bytes history) usage_history
    ])

-- The loop of `generate_helper_maps`.
unfoldable pub helper_maps :
    List Identity
    → HashMap ℕ Identity × HashMap ℕ Identity
    → HashMap ℕ Identity × HashMap ℕ Identity
helper_maps [] maps = maps
helper_maps (ident ∷ clients) (identities, id_from_ip) =
    helper_maps clients
      (insert ident.wg_public_key ident identities, insert ident.mesh_ip ident id_from_ip)

-- The loop of `get_babel_info`.
unfoldable pub destinations_of : ℕ → HashMap ℕ Identity → List Route → HashMap ℕ ℕ → HashMap ℕ ℕ
destinations_of max_fee id_from_ip [] destinations = destinations
destinations_of max_fee id_from_ip (route ∷ routes) destinations =
    destinations_of max_fee id_from_ip routes (elim route.prefix [
      | none ↦ destinations
      | some (ip, length) ↦
          if length == 128 && route.installed
          then (elim (get ip id_from_ip) [
            | none ↦ destinations
            | some id ↦
                insert id.wg_public_key (if ltb max_fee route.price then max_fee else route.price)
                  destinations
          ])
          else destinations
    ])

-- The difference of `u64`.
unfoldable pub moved : ℕ → ℕ → ℕ
moved now before = (now + 2 ^ 64 - before) % 2 ^ 64

-- The sums of `counters_logging`, of `u64`.
unfoldable pub total_moved : (WgUsage → ℕ) → Usages → Usages → ℕ
unfolding moved
total_moved field [] history = 0
total_moved field ((key, val) ∷ counters) history = (elim (get key history) [
  | none ↦ total_moved field counters history
  | some history_val ↦
      (moved (field val) (field history_val) + total_moved field counters history) % 2 ^ 64
])

unfoldable pub counters_logging : Usages → Usages → ℕ → UpdateUsage
unfolding total_moved
counters_logging counters history exit_fee = record {
  kind = exit_usage;
  up = total_moved (λ u. u.upload) counters history;
  down = total_moved (λ u. u.download) counters history;
  price = exit_fee;
}

unfoldable pub setup_debts : HashMap ℕ Identity → Debts → Debts
setup_debts [] debts = debts
setup_debts ((key, ident) ∷ identities) debts = setup_debts identities (insert ident (pos 0) debts)

module _ (identities : HashMap ℕ Identity) (destinations : HashMap ℕ ℕ) where
  -- One turn of either loop: what it bills by the price of the destination, and the history after it.
  unfoldable pub bill_one :
      (ℕ → WgUsage → ℕ) → (WgUsage → WgUsage) → ℕ → Debts × Usages → Debts × Usages
  bill_one value seen wg_key (debts, usage_history) = elim (get wg_key identities) [
    | none ↦ (debts, usage_history)
    | some id ↦ elim (get wg_key destinations) [
      | none ↦ (debts, usage_history)
      | some dest ↦ elim (get wg_key usage_history) [
        | none ↦ (debts, usage_history)
        | some history ↦ elim (get id debts) [
          | none ↦ (debts, usage_history)
          | some debt ↦ (
            insert id (debt -ℤ pos (value dest history)) debts,
            insert wg_key (seen history) usage_history,
          )
        ]
      ]
    ]
  ]

  -- The two loops: the price of the exit for the download, and that with the price of the
  -- destination for the upload.
  unfoldable pub bill_input : ℕ → Usages → Debts × Usages → Debts × Usages
  unfolding bill_one moved
  bill_input our_price [] state = state
  bill_input our_price ((wg_key, bytes) ∷ counters) state = bill_input our_price counters (
      bill_one (λ dest history. our_price * moved bytes.download history.download)
        (λ history. record history { download = bytes.download }) wg_key state)

  unfoldable pub bill_output : ℕ → Usages → Debts × Usages → Debts × Usages
  unfolding bill_one moved
  bill_output our_price [] state = state
  bill_output our_price ((wg_key, bytes) ∷ counters) state = bill_output our_price counters (
      bill_one (λ dest history. (dest + our_price) % 2 ^ 64 * moved bytes.upload history.upload)
        (λ history. record history { upload = bytes.upload }) wg_key state)

-- What the kernel interface and babel answer, and the settings that are read.
pub record Inputs : Type 0 where
  pub clients : List Identity
  pub routes : List Route
  pub max_fee : ℕ
  pub local_fee : ℕ
  pub exit_price : ℕ
  pub our_id : Option Identity
  pub counters : Option Usages

-- `watch`: the messages, or an error, and the history. Our own address is that of our identity.
unfoldable pub watch : Inputs → Usages → Option (UpdateUsage × List Traffic) × Usages
unfolding helper_maps destinations_of prepare_usage_history counters_logging setup_debts bill_input
    bill_output traffic_vec
watch inputs usage_history = elim inputs.our_id [
  | none ↦ (none, usage_history)
  | some our_id ↦
      let (identities, id_from_ip) =
        helper_maps inputs.clients ([], insert our_id.mesh_ip our_id []) in
      let destinations =
        destinations_of inputs.max_fee id_from_ip inputs.routes
          (insert our_id.wg_public_key inputs.local_fee []) in
      elim inputs.counters [
        | none ↦ (none, usage_history)
        | some counters ↦
            let prepared = prepare_usage_history counters usage_history in
            let (debts, last) = bill_output identities destinations inputs.exit_price counters (
              bill_input identities destinations inputs.exit_price counters
                (setup_debts identities [], prepared)) in
            (
              some (
                counters_logging counters prepared (inputs.exit_price % 2 ^ 32),
                traffic_vec debts,
              ),
              last,
            )
      ]
]
