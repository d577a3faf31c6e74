-- ===== src/DebtKeeper/Decision.antt =====
-- rita/src/rita_common/debt_keeper/mod.rs: what `send_update` decides, on every branch, and how
-- `debt_limit` bounds what it leaves behind and what it pays.
use native.Mathlib.Nat.{add-zero}
use althea_rs.Prelude.{ℕ, ◌≡◌, ◌≢◌, ◌<◌, Bool, true, false, some, arith, if◌then◌else◌}
use althea_rs.Prelude.Int.{
  ℤ, pos, pos_part, ◌+ℤ◌, ◌-ℤ◌, ◌≤ℤ◌, ◌<ℤ◌, ltb_ℤ, abs, max_ℤ, min_ℤ, -ℤ_parts, +ℤ_parts,
}
use althea_rs.Prelude.Outcome.{Outcome, ok}
use althea_rs.Num256.{Num256, FitsInt256, FitsUint256}
use althea_rs.AltheaTypes.{Identity}
use althea_rs.Settings.{PaymentSettings}
use althea_rs.Time.{Instant}
use althea_rs.DebtKeeper.Peer.{
  DebtAction, Error, suspend_tunnel, open_tunnel, make_payment, NodeDebtData, debt_limit,
}
use althea_rs.DebtKeeper.Update.{
  limit_debt, apply_credit, suspend, open_up, overpay, start_payment, await_payment, act,
  send_update,
}
use althea_rs.DebtKeeper.Payments.{Received, payment_received-Received}

-- The thresholds that `DebtKeeper::default` asserts.
pub record IsValid (settings : PaymentSettings) : Type 0 where
  pub close_negative : settings.close_threshold ≤ℤ pos 0
  pub pay_positive : pos 0 ≤ℤ settings.pay_threshold

-- The sums that an update computes are representable.
pub record IsInRange (settings : PaymentSettings) (d : NodeDebtData) : Type 0 where
  pub lower : FitsInt256 (settings.close_threshold -ℤ pos 1)
  pub upper : FitsInt256 (abs settings.close_threshold +ℤ pos 1)
  pub debt : FitsInt256 d.debt
  pub total : FitsUint256 d.total_payment_received
  pub incoming : FitsUint256 d.incoming_payments
  pub incoming_signed : FitsInt256 (pos d.incoming_payments)

-- The interval of debts that the limit allows.
abbrev pub clamp : ℤ → ℤ → ℤ → ℤ
clamp lo hi z = max_ℤ lo (min_ℤ z hi)

pub limited : PaymentSettings → ℤ → ℤ
limited settings debt =
    if settings.debt_limit_enabled
    then clamp (settings.close_threshold -ℤ pos 1) (abs settings.close_threshold +ℤ pos 1) debt
    else debt

-- The limit leaves what is above a threshold above it.
pub limited-above :
    (settings : PaymentSettings) (z : ℤ) (t : ℕ)
    → pos t ≤ℤ abs settings.close_threshold
    → pos t <ℤ z
    → t < pos_part (limited settings z)
unfolding limited ◌+ℤ◌ ◌-ℤ◌
limited-above settings z t le lt = ground arith

module _ (num : Num256) where
  -- `debt_limit` is the restriction to the interval from one below the close threshold to one above
  -- its absolute value, for a threshold that is not positive.
  pub debt_limit-clamp :
      (debt close : ℤ)
      → close ≤ℤ pos 0
      → FitsInt256 (close -ℤ pos 1)
      → FitsInt256 (abs close +ℤ pos 1)
      → debt_limit num debt close ≡ some (clamp (close -ℤ pos 1) (abs close +ℤ pos 1) debt)
  unfolding debt_limit ◌+ℤ◌ ◌-ℤ◌
  debt_limit-clamp debt close neg lo hi =
      ground (arith, num.int256_fits (close -ℤ pos 1) lo, num.int256_fits (abs close +ℤ pos 1) hi)

  module _ (settings : PaymentSettings) (now : Instant) (ident : Identity) where
    limit_debt-limited :
        (d : NodeDebtData)
        → IsValid settings
        → IsInRange settings d
        → limit_debt num settings now ident d ≡ (ok tt, record d { debt = limited settings d.debt })
    unfolding limit_debt limited
    limit_debt-limited d v r =
        ground
          (arith, debt_limit-clamp d.debt settings.close_threshold v.close_negative r.lower r.upper)

    FitsInt256-limited :
        (d : NodeDebtData) → IsInRange settings d → FitsInt256 (limited settings d.debt)
    unfolding limited
    FitsInt256-limited d r = ground (arith, r.lower, r.upper, r.debt)

    apply_credit-ok :
        (d : NodeDebtData)
        → FitsInt256 d.debt
        → FitsUint256 d.total_payment_received
        → FitsUint256 d.incoming_payments
        → FitsInt256 (pos d.incoming_payments)
        → ((apply_credit num settings now ident d).0 ≡ ok open_tunnel)
          × Received 0 (record d { action = open_tunnel }) (apply_credit num settings now ident d).1
    unfolding apply_credit
    apply_credit-ok d fd ft fi fs =
        let received =
          payment_received-Received num 0 (record d { action = open_tunnel }) fd (rw add-zero ft)
            (rw add-zero fi) (rw add-zero fs) in
        ground (arith, received)

    -- The answer of an update, by the debt before it.
    pub record Decides (d : NodeDebtData) (answer : Outcome Error DebtAction) : Type 0 where
      pub suspends :
          d.debt <ℤ settings.close_threshold → d.incoming_payments ≡ 0 → answer ≡ ok suspend_tunnel
      pub forgives :
          d.debt <ℤ settings.close_threshold → d.incoming_payments ≢ 0 → answer ≡ ok open_tunnel
      pub pays :
          settings.pay_threshold <ℤ d.debt
          → d.payment_in_flight ≡ false
          → answer ≡ ok (make_payment ident (pos_part (limited settings d.debt)))
      pub waits :
          settings.pay_threshold <ℤ d.debt → d.payment_in_flight ≡ true → answer ≡ ok open_tunnel
      pub rests :
          settings.close_threshold ≤ℤ d.debt
          → d.debt ≤ℤ settings.pay_threshold
          → answer ≡ ok open_tunnel

    limited_nonneg :
        (d : NodeDebtData)
        → IsValid settings
        → settings.pay_threshold <ℤ d.debt
        → limited settings d.debt ≡ pos (pos_part (limited settings d.debt))
    unfolding limited ◌+ℤ◌ ◌-ℤ◌
    limited_nonneg d v h = ground (arith, v.pay_positive)

    act-Decides :
        (d : NodeDebtData)
        → IsValid settings
        → IsInRange settings d
        → settings.fudge_factor ≡ 0
        → let e = record d { debt = limited settings d.debt } in
          let close = ltb_ℤ d.debt settings.close_threshold in
          let pay = ltb_ℤ settings.pay_threshold d.debt in
          Decides d (act num settings now ident close pay d.payment_in_flight e).0
    unfolding act suspend open_up start_payment overpay await_payment
    act-Decides d v r nofudge =
        let e = record d { debt = limited settings d.debt } in
        ground (
          arith,
          v.close_negative,
          v.pay_positive,
          limited_nonneg d v,
          num.to_uint256_pos (pos_part (limited settings d.debt)),
          apply_credit-ok e (FitsInt256-limited d r) r.total r.incoming r.incoming_signed,
        )

    -- With the thresholds that the keeper asserts, no fudge factor and representable sums, an
    -- update never panics or fails. It suspends exactly a peer below the close threshold with no
    -- credit left, pays exactly a peer above the pay threshold with no payment in flight, the
    -- limited debt in full, and leaves all others open.
    pub send_update-Decides :
        (d : NodeDebtData)
        → IsValid settings
        → IsInRange settings d
        → settings.fudge_factor ≡ 0
        → Decides d (send_update num settings now ident d).0
    unfolding send_update
    send_update-Decides d v r nofudge =
        ground (arith, limit_debt-limited d v r, act-Decides d v r nofudge)

    IsBounded : ℤ → Type 0
    IsBounded z =
        (settings.close_threshold -ℤ pos 1 ≤ℤ z) × (z ≤ℤ abs settings.close_threshold +ℤ pos 1)

    limited-IsBounded :
        (z : ℤ)
        → IsValid settings
        → settings.debt_limit_enabled ≡ true
        → IsBounded (limited settings z)
    unfolding limited IsBounded ◌+ℤ◌ ◌-ℤ◌
    limited-IsBounded z v on = ground (arith, v.close_negative)

    apply_credit-IsBounded :
        (d : NodeDebtData)
        → IsBounded d.debt
        → FitsInt256 d.debt
        → FitsUint256 d.total_payment_received
        → FitsUint256 d.incoming_payments
        → FitsInt256 (pos d.incoming_payments)
        → IsBounded (apply_credit num settings now ident d).1.debt
    unfolding IsBounded
    apply_credit-IsBounded d b fd ft fi fs =
        let credit = apply_credit-ok d fd ft fi fs in
        ground (
          arith,
          credit,
          -ℤ_parts settings.close_threshold (pos 1),
          +ℤ_parts (abs settings.close_threshold) (pos 1),
        )

    act-IsBounded :
        (d : NodeDebtData) (close pay flight : Bool)
        → IsBounded d.debt
        → FitsInt256 d.debt
        → FitsUint256 d.total_payment_received
        → FitsUint256 d.incoming_payments
        → FitsInt256 (pos d.incoming_payments)
        → IsBounded (act num settings now ident close pay flight d).1.debt
    unfolding act suspend open_up start_payment overpay await_payment
    act-IsBounded d true true _ b fd ft fi fs = b
    act-IsBounded d true false _ b fd ft fi fs =
        ground (arith, apply_credit-IsBounded d b fd ft fi fs)
    act-IsBounded d false true true b fd ft fi fs = ground arith
    act-IsBounded d false true false b fd ft fi fs = ground arith
    act-IsBounded d false false _ b fd ft fi fs =
        ground (arith, apply_credit-IsBounded d b fd ft fi fs)

    -- With the limit enabled, an update leaves a debt between one below the close threshold and one
    -- above its absolute value, whatever the debt was before and whatever the update decides.
    pub send_update-IsBounded :
        (d : NodeDebtData)
        → IsValid settings
        → IsInRange settings d
        → settings.debt_limit_enabled ≡ true
        → let debt = (send_update num settings now ident d).1.debt in
          (settings.close_threshold -ℤ pos 1 ≤ℤ debt)
          × (debt ≤ℤ abs settings.close_threshold +ℤ pos 1)
    unfolding send_update IsBounded
    send_update-IsBounded d v r on =
        let e = record d { debt = limited settings d.debt } in
        let close = ltb_ℤ d.debt settings.close_threshold in
        let pay = ltb_ℤ settings.pay_threshold d.debt in
        let bounded =
          act-IsBounded e close pay d.payment_in_flight (limited-IsBounded d.debt v on)
            (FitsInt256-limited d r) r.total r.incoming r.incoming_signed in
        ground (arith, limit_debt-limited d v r, bounded)

    act-starts :
        (d : NodeDebtData) (amount : ℕ)
        → d.debt ≡ pos amount
        → settings.fudge_factor ≡ 0
        → let d' = (act num settings now ident false true false d).1 in
          (d'.payment_in_flight ≡ true) × (d'.payment_in_flight_start ≡ some now)
    unfolding act start_payment overpay
    act-starts d amount e nofudge = ground (arith, num.to_uint256_pos amount)

    -- An update that pays records the flight and its start.
    pub send_update-starts :
        (d : NodeDebtData)
        → IsValid settings
        → IsInRange settings d
        → settings.fudge_factor ≡ 0
        → settings.pay_threshold <ℤ d.debt
        → d.payment_in_flight ≡ false
        → let d' = (send_update num settings now ident d).1 in
          (d'.payment_in_flight ≡ true) × (d'.payment_in_flight_start ≡ some now)
    unfolding send_update
    send_update-starts d v r nofudge due idle =
        let e = record d { debt = limited settings d.debt } in
        ground (
          arith,
          v.close_negative,
          v.pay_positive,
          limit_debt-limited d v r,
          act-starts e (pos_part (limited settings d.debt)) (limited_nonneg d v due) nofudge,
        )
