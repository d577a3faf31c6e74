-- ===== src/DebtKeeper/Keeper.antt =====
-- rita/src/rita_common/debt_keeper/mod.rs: the actor `DebtKeeper`, its message handlers, and the
-- loading and saving of its data. What a handler sends to other actors is part of its result.
use althea_rs.Prelude.{
  ℕ, Bool, true, false, not, Option, none, some, List, [], ◌∷◌, ◌++◌, ◌&&◌, ◌==◌, map,
  if◌then◌else◌,
}
use althea_rs.Prelude.Int.{ℤ, pos, leb_ℤ}
use althea_rs.Prelude.Maps.{HashMap, get, insert}
use althea_rs.Prelude.Outcome.{Outcome, ok, err, panic, Action}
use althea_rs.Num256.{Num256}
use althea_rs.AltheaTypes.{Identity, PaymentTx, identity_key}
use althea_rs.Settings.{PaymentSettings}
use althea_rs.Time.{Instant, Duration, from_secs, elapsed_over}
use althea_rs.DebtKeeper.Peer.{
  DebtAction, suspend_tunnel, open_tunnel, make_payment, Error, no_mesh_ip, NodeDebtData, Method,
  new_debt_data, payment_received, payment_succeeded, payment_failed, traffic_update,
  traffic_replace,
}
use althea_rs.DebtKeeper.Update.{send_update}
use althea_rs.TunnelManager.Tunnel.{payment_overdue, paid_on_time, TunnelChange}

abbrev pub DebtData : Type 0
DebtData = HashMap Identity NodeDebtData

pub record DebtKeeper : Type 0 where
  pub last_save : Option Instant
  pub debt_data : DebtData

pub record Traffic : Type 0 where
  pub from : Identity
  pub amount : ℤ

-- `SAVE_FREQENCY`
abbrev pub save_frequency : Duration
save_frequency = from_secs 1800

-- `get_debt_data_mut`: the entry, made new where there is none.
unfoldable pub debt_data_or_new : Identity → DebtData → NodeDebtData
debt_data_or_new ident m = elim (get ident m) [ none ↦ new_debt_data | some d ↦ d ]

-- A method of the keeper that works on the entry of one peer.
unfoldable pub on_peer : {A : Type 0} → Identity → Method A → Action DebtKeeper Error A
on_peer ident method k =
    let (r, d) = method (debt_data_or_new ident k.debt_data) in
    (r, record k { debt_data = insert ident d k.debt_data })

-- `save_if_needed`, where `saves` says whether writing the file succeeds.
unfoldable pub save_if_needed : Instant → Bool → DebtKeeper → DebtKeeper
save_if_needed now saves k =
    if needed k.last_save && saves then record k { last_save = some now } else k
  where
    needed : Option Instant → Bool
    needed none = true
    needed (some val) = elapsed_over now val save_frequency

-- `Dump` and `GetDebtsList`
unfoldable pub get_debts : DebtKeeper → DebtData
get_debts k = k.debt_data

-- `debt_data_to_ser`
unfoldable pub debt_data_to_ser : DebtData → List (Identity × NodeDebtData)
debt_data_to_ser [] = []
debt_data_to_ser ((i, d) ∷ m) = (i, d) ∷ debt_data_to_ser m

-- The `serde` attributes of `NodeDebtData`: these three fields are not read back.
unfoldable pub deserialized : NodeDebtData → NodeDebtData
deserialized d = record d {
  payment_in_flight = false;
  payment_in_flight_start = none;
  last_successful_payment = none;
}

-- The loop of `ser_to_debt_data`.
unfoldable pub load_entries : List (Identity × NodeDebtData) → DebtData → DebtData
load_entries [] ret = ret
load_entries ((i, d) ∷ rest) ret = load_entries rest (
    if leb_ℤ d.debt (pos 0) && d.incoming_payments == 0
    then ret
    else (insert i (if leb_ℤ d.debt (pos 0) then record d { debt = pos 0 } else d) ret))

unfoldable pub ser_to_debt_data : List (Identity × NodeDebtData) → DebtData
unfolding load_entries
ser_to_debt_data entries = load_entries entries []

-- `DebtKeeper::default` after its assertions: `none` stands for a file that cannot be opened, read
-- or parsed.
unfoldable pub load : Option (List (Identity × NodeDebtData)) → DebtKeeper
unfolding ser_to_debt_data
load none = record { last_save = none; debt_data = [] }
load (some entries) = record { last_save = none; debt_data = ser_to_debt_data entries }

-- What `SendUpdate` sends: payments at once, the tunnel changes together at the end.
pub record Sent : Type 0 where
  pub payments : List PaymentTx
  pub tunnels : Option (List TunnelChange)

-- The one tunnel change that an answer stands for.
unfoldable pub tunnel_change : Identity → DebtAction → List TunnelChange
tunnel_change k suspend_tunnel = record { identity = k; action = payment_overdue } ∷ []
tunnel_change k open_tunnel = record { identity = k; action = paid_on_time } ∷ []
tunnel_change k (make_payment to amount) = []

module _ (num : Num256) where
  -- `Handler<TrafficUpdate>`
  unfoldable pub traffic_updates : List Traffic → Action DebtKeeper Error (Unit {0})
  traffic_updates [] k = (ok tt, k)
  traffic_updates (t ∷ ts) k =
      let (r, k') = on_peer t.from (traffic_update num t.amount) k in
      let rest = traffic_updates ts k' in
      elim r [ ok _ ↦ rest | err e ↦ (err e, k') | panic ↦ (panic, k') ]

  -- The loop of `Handler<WgKeyInsensitiveTrafficUpdate>` over the entries.
  unfoldable pub find_insensitive : Identity → DebtData → Option Identity
  find_insensitive partial_id [] = none
  find_insensitive partial_id ((id, d) ∷ m) =
      if id.eth_address == partial_id.eth_address
        && id.mesh_ip == partial_id.mesh_ip
        && not (id.wg_public_key == partial_id.wg_public_key)
      then some id
      else find_insensitive partial_id m

  unfoldable pub insensitive_update : Traffic → Action DebtKeeper Error (Unit {0})
  insensitive_update t k = elim (find_insensitive t.from k.debt_data) [
    | none ↦ (ok tt, k)
    | some id ↦ on_peer id (traffic_update num t.amount) k
  ]

  module _ (settings : PaymentSettings) (now : Instant) (our_id : Option Identity) where
    -- The loop of `Handler<SendUpdate>` over the peers, with the tunnel changes so far. The
    -- payments come back also where an error ends the loop.
    unfoldable pub update_peers :
        List Identity
        → List TunnelChange
        → DebtKeeper
        → Outcome Error (List TunnelChange) × List PaymentTx × DebtKeeper
    update_peers [] changes k = (ok changes, [], k)
    update_peers (ident ∷ rest) changes k =
        let (r, k') = on_peer ident (send_update num settings now ident) k in
        elim r [
          | err e ↦ (err e, [], k')
          | panic ↦ (panic, [], k')
          | ok (make_payment to amount) ↦ elim our_id [
            | none ↦ (err no_mesh_ip, [], k')
            | some id ↦
                let (r', sent, last) = update_peers rest changes k' in
                (r', record { to = to; from = id; amount = amount; txid = none } ∷ sent, last)
          ]
          | ok action ↦ update_peers rest (changes ++ tunnel_change ident action) k'
        ]

    -- `Handler<SendUpdate>`
    unfoldable pub handle_send_update :
        Bool → DebtKeeper → Outcome Error (Unit {0}) × Sent × DebtKeeper
    handle_send_update saves k₀ =
        let k = save_if_needed now saves k₀ in
        let (r, sent, k') = update_peers (map (λ e. e.0) k.debt_data) [] k in
        elim r [
          | ok changes ↦ (ok tt, record { payments = sent; tunnels = some changes }, k')
          | err e ↦ (err e, record { payments = sent; tunnels = none }, k')
          | panic ↦ (panic, record { payments = sent; tunnels = none }, k')
        ]

  -- `Handler<PaymentReceived>`, `Handler<PaymentFailed>` and `Handler<TrafficReplace>`
  unfoldable pub handle_payment_received : Identity → ℕ → Action DebtKeeper Error (Unit {0})
  handle_payment_received from amount = on_peer from (payment_received num amount)

  unfoldable pub handle_payment_failed : Identity → Action DebtKeeper Error (Unit {0})
  handle_payment_failed to = on_peer to (payment_failed num)

  unfoldable pub handle_traffic_replace : Instant → Traffic → Action DebtKeeper Error (Unit {0})
  handle_traffic_replace now t = on_peer t.from (traffic_replace num now t.amount)

  -- `Handler<PaymentSucceeded>`: the second part is the amount of the message `AddTxToTotal`.
  unfoldable pub handle_payment_succeeded :
      Instant → Identity → ℕ → DebtKeeper → Outcome Error (Unit {0}) × ℕ × DebtKeeper
  handle_payment_succeeded now to amount k =
      let (r, k') = on_peer to (payment_succeeded num now amount) k in (r, amount, k')
