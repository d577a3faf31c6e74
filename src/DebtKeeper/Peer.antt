-- ===== src/DebtKeeper/Peer.antt =====
-- rita/src/rita_common/debt_keeper/mod.rs: the debt data of one peer, and what the methods of
-- `DebtKeeper` do to it once `get_debt_data_mut` has found it. A method gives its outcome and the
-- data as it leaves them, which on an error keep what was written before.
use althea_rs.Prelude.{ℕ, ◌+◌, ◌-◌, Bool, false, Option, none, some, ltb, ◌&&◌, if◌then◌else◌}
use althea_rs.Prelude.Int.{ℤ, pos, ◌+ℤ◌, ◌-ℤ◌, ltb_ℤ, abs}
use althea_rs.Prelude.Outcome.{ok, panic, Action, unwrap, or_raise, modify, ◌>>=◌, ◌>>◌}
use althea_rs.Num256.{Num256}
use althea_rs.AltheaTypes.{Identity}
use althea_rs.Time.{Instant, from_secs, elapsed_over}

pub data DebtAction : Type 0 where
  suspend_tunnel open_tunnel : DebtAction
  make_payment : Identity → ℕ → DebtAction

-- The errors that the methods return.
pub data Error : Type 0 where
  amount_too_big incoming_too_big debt_not_unsigned no_mesh_ip : Error

pub record NodeDebtData : Type 0 where
  pub total_payment_received : ℕ
  pub total_payment_sent : ℕ
  pub debt : ℤ
  pub incoming_payments : ℕ
  pub action : DebtAction
  pub payment_in_flight : Bool
  pub payment_in_flight_start : Option Instant
  pub last_successful_payment : Option Instant

-- `NodeDebtData::new`
unfoldable pub new_debt_data : NodeDebtData
new_debt_data = record {
  total_payment_received = 0;
  total_payment_sent = 0;
  debt = pos 0;
  incoming_payments = 0;
  action = open_tunnel;
  payment_in_flight = false;
  payment_in_flight_start = none;
  last_successful_payment = none;
}

abbrev pub Method : Type 0 → Type 0
Method A = Action NodeDebtData Error A

module _ (num : Num256) where
  open num use {uint256, int256, to_int256, to_uint256}

  unfoldable pub debt_limit : ℤ → ℤ → Option ℤ
  debt_limit debt close_threshold =
      if ltb_ℤ debt close_threshold
      then int256 (close_threshold -ℤ pos 1)
      else (if ltb_ℤ (abs close_threshold) debt
          then int256 (abs close_threshold +ℤ pos 1)
          else some debt)

  unfoldable pub payment_failed : Method (Unit {0})
  payment_failed peer =
      (ok tt, record peer { payment_in_flight = false; payment_in_flight_start = none })

  unfoldable pub payment_succeeded : Instant → ℕ → Method (Unit {0})
  payment_succeeded now amount = do
    modify λ peer. record peer { payment_in_flight = false; payment_in_flight_start = none }
    sent ← λ peer. unwrap (uint256 (peer.total_payment_sent + amount)) peer
    modify λ peer. record peer { total_payment_sent = sent; last_successful_payment = some now }
    val ← or_raise (to_int256 amount) amount_too_big
    debt ← λ peer. unwrap (int256 (peer.debt -ℤ val)) peer
    modify λ peer. record peer { debt = debt }

  -- The `match` of `payment_received`, which applies the credit to what the peer owes.
  unfoldable pub apply_incoming : Method (Unit {0})
  apply_incoming data₀ =
      let they_owe_us = ltb_ℤ data₀.debt (pos 0) in
      elim (to_uint256 (abs data₀.debt)) [
        | none ↦ (panic, data₀)
        | some owed ↦
            if they_owe_us && ltb owed data₀.incoming_payments
            then (
              ok tt,
              record data₀ { incoming_payments = data₀.incoming_payments - owed; debt = pos 0 },
            )
            else (if they_owe_us
                then (do
                  signed_incoming ← or_raise (to_int256 data₀.incoming_payments) incoming_too_big
                  debt ← unwrap (int256 (data₀.debt +ℤ signed_incoming))
                  modify λ d. record d { debt = debt; incoming_payments = 0 })
                    data₀
                else (ok tt, data₀))
      ]

  unfoldable pub payment_received : ℕ → Method (Unit {0})
  payment_received amount = do
    total ← λ d. unwrap (uint256 (d.total_payment_received + amount)) d
    modify λ d. record d { total_payment_received = total }
    incoming ← λ d. unwrap (uint256 (d.incoming_payments + amount)) d
    modify λ d. record d { incoming_payments = incoming }
    apply_incoming

  unfoldable pub traffic_update : ℤ → Method (Unit {0})
  traffic_update amount = do
    debt ← λ d. unwrap (int256 (d.debt +ℤ amount)) d
    modify λ d. record d { debt = debt }

  unfoldable pub traffic_replace : Instant → ℤ → Method (Unit {0})
  traffic_replace now amount d =
      let replaced = record d { debt = amount } in
      (
        ok tt,
        if d.payment_in_flight then d else (elim d.last_successful_payment [
          | none ↦ replaced
          | some val ↦ if elapsed_over now val (from_secs 15) then replaced else d
        ]),
      )
