-- ===== src/ClientWatcher/Answers.antt =====
-- rita/src/rita_client/traffic_watcher/mod.rs with rita/src/rita_common/debt_keeper/mod.rs: the debt
-- with the exit after a round.
use althea_rs.Prelude.{
  ℕ, ◌≡◌, refl, Bool, true, false, Option, none, some, List, [], ◌∷◌, ◌&&◌, not, arith, inl, inr,
  Bool-cases, if◌then◌else◌,
}
use althea_rs.Prelude.Int.{ℤ, pos, leb_ℤ, ◌+ℤ◌, int_laws}
use althea_rs.Prelude.Maps.{get-insert_self}
use althea_rs.Num256.{Num256, FitsInt256}
use althea_rs.Time.{Instant, from_secs, elapsed_over}
use althea_rs.AltheaTypes.{Identity, identity_key}
use althea_rs.Float32.{Float32}
use althea_rs.DebtKeeper.Peer.{NodeDebtData, Method, traffic_update, traffic_replace}
use althea_rs.DebtKeeper.Keeper.{
  DebtKeeper, Traffic, debt_data_or_new, on_peer, traffic_updates, insensitive_update,
  handle_traffic_replace,
}
use althea_rs.ExitWatcher.{Usages}
use althea_rs.BabelMonitor.Records.{v4, Route}
use althea_rs.ClientWatcher.{
  TrafficWatcher, reset_if_fallen, local_traffic_calculation, Reply, no_stream, no_response,
  no_json, debt, Sent, local_update, act_on, QueryExitDebts, handle_query_exit_debts,
}
use althea_rs.ClientWatcher as Watcher

module _ (num : Num256) (now : Instant) where
  -- The debt keeper after the message, if there is one.
  abbrev pub deliver : Option Sent → DebtKeeper → DebtKeeper
  deliver none k = k
  deliver (some (Watcher.traffic_replace t)) k = (handle_traffic_replace num now t k).1
  deliver (some (Watcher.key_insensitive_update t)) k = (insensitive_update num t k).1
  deliver (some (Watcher.traffic_update ts)) k = (traffic_updates num ts k).1

-- The debt keeper takes over the debt that the exit states: no payment is in flight, and the last
-- one is more than 15 seconds ago.
abbrev pub takes_over : Instant → NodeDebtData → Bool
takes_over now d = not d.payment_in_flight && (elim d.last_successful_payment [
  | none ↦ true
  | some val ↦ elapsed_over now val (from_secs 15)
])

-- The debt with the exit after a round in which it answers so and the amount is owed locally.
abbrev pub debt_after : Instant → Reply → ℕ → NodeDebtData → ℤ
debt_after now no_stream owed d = d.debt +ℤ pos owed
debt_after now no_response owed d = d.debt +ℤ pos owed
debt_after now no_json owed d = d.debt +ℤ pos owed
debt_after now (debt amount) owed d =
    if leb_ℤ (pos 0) amount && takes_over now d then amount else d.debt

abbrev pub amount_of : Option ℕ → ℕ
amount_of none = 0
amount_of (some owed) = owed

entry-on_peer :
    {A : Type 0} (i : Identity) (method : Method A) (k : DebtKeeper)
    → debt_data_or_new i (on_peer i method k).1.debt_data
      ≡ (method (debt_data_or_new i k.debt_data)).1
unfolding debt_data_or_new on_peer
entry-on_peer i method k =
    rw (get-insert_self i (method (debt_data_or_new i k.debt_data)).1 k.debt_data, debt_data_or_new)

module _ (num : Num256) (now : Instant) where
  one_update :
      (t : Traffic) (k : DebtKeeper)
      → (traffic_updates num (t ∷ []) k).1 ≡ (on_peer t.from (traffic_update num t.amount) k).1
  unfolding traffic_updates
  one_update t k = ground arith

  local_update-debt :
      (i : Identity) (owed : Option ℕ) (k : DebtKeeper)
      → let d = debt_data_or_new i k.debt_data in
        FitsInt256 (d.debt +ℤ pos (amount_of owed))
        → (debt_data_or_new i (deliver num now (local_update i owed) k).debt_data).debt
          ≡ d.debt +ℤ pos (amount_of owed)
  unfolding traffic_update
  local_update-debt i none k fits = omega int_laws
  local_update-debt i (some owed) k fits =
      rw
        (
          one_update (record { from = i; amount = pos owed }) k,
          entry-on_peer i (traffic_update num (pos owed)) k,
        )
        (ground (arith, num.int256_fits _ fits))

  replace-debt :
      (i : Identity) (amount : ℤ) (k : DebtKeeper)
      → let d = debt_data_or_new i k.debt_data in
        (debt_data_or_new i
          (handle_traffic_replace num now
            (record { from = i; amount = amount })
            k).1.debt_data).debt
        ≡ (if takes_over now d then amount else d.debt)
  unfolding handle_traffic_replace traffic_replace
  replace-debt i amount k = rw (entry-on_peer i (traffic_replace num now amount) k) (ground arith)

  act_on-settles :
      (i : Identity) (reply : Reply) (owed : Option ℕ) (k : DebtKeeper)
      → let d = debt_data_or_new i k.debt_data in
        FitsInt256 (d.debt +ℤ pos (amount_of owed))
        → (debt_data_or_new i (deliver num now (act_on false i owed reply) k).debt_data).debt
          ≡ debt_after now reply (amount_of owed) d
  unfolding act_on
  act_on-settles i no_stream owed k fits = local_update-debt i owed k fits
  act_on-settles i no_response owed k fits = local_update-debt i owed k fits
  act_on-settles i no_json owed k fits = local_update-debt i owed k fits
  act_on-settles i (debt amount) owed k fits = elim (Bool-cases (leb_ℤ (pos 0) amount)) [
    | inl owe ↦ rw (owe, act_on) (replace-debt i amount k)
    | inr owes_us ↦ rw (owes_us, act_on) refl
  ]

  same_gateway :
      {float : Float32} (max_fee : ℕ) (counters : Option Usages) (exit : Identity) (exit_price : ℕ)
      (routes : List (Route float)) (history : TrafficWatcher)
      → (local_traffic_calculation max_fee counters exit exit_price routes
          history).2.gateway_exit_client
        ≡ history.gateway_exit_client
  unfolding local_traffic_calculation reset_if_fallen
  same_gateway max_fee counters exit exit_price routes history = ground arith

  -- A round in which the exit is reached at an IPv4 address, by a client that is no gateway, leaves
  -- the debt with the exit as the answer says: without a number from the exit it is raised by what the
  -- local calculation finds, if that succeeds; a number that is not negative replaces it, unless a
  -- payment is in flight or was confirmed within 15 seconds; and else it stays. The sum is
  -- representable.
  pub handle_query_exit_debts-settles :
      {float : Float32} (max_fee : ℕ) (counters : Option Usages) (reply : Reply)
      (msg : QueryExitDebts float) (history : TrafficWatcher) (k : DebtKeeper) (address : ℕ)
      → msg.exit_internal_addr ≡ v4 address
      → history.gateway_exit_client ≡ false
      → let (local_debt, usage, history') =
          local_traffic_calculation max_fee counters msg.exit_id msg.exit_price msg.routes
            history in
        let d = debt_data_or_new msg.exit_id k.debt_data in
        FitsInt256 (d.debt +ℤ pos (amount_of local_debt))
        → (sent : Option Sent) × ((handle_query_exit_debts max_fee counters reply msg history).0
            ≡ some sent)
          × ((debt_data_or_new msg.exit_id (deliver num now sent k).debt_data).debt
              ≡ debt_after now reply (amount_of local_debt) d)
  unfolding handle_query_exit_debts
  handle_query_exit_debts-settles max_fee counters reply msg history k address socket client fits =
      let local_debt =
        (local_traffic_calculation max_fee counters msg.exit_id msg.exit_price msg.routes
          history).0 in
      (
        act_on false msg.exit_id local_debt reply,
        rw
            (
              socket,
              same_gateway max_fee counters msg.exit_id msg.exit_price msg.routes history,
              client,
            )
            refl,
        act_on-settles msg.exit_id reply local_debt k fits,
      )
