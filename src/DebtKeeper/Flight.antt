-- ===== src/DebtKeeper/Flight.antt =====
-- rita/src/rita_common/debt_keeper/mod.rs: while a payment to a peer is in flight, no message but
-- its confirmation, its failure or a timeout lets another one start.
use althea_rs.Prelude.{
  ℕ, ◌-◌, ◌≤◌, ◌≡◌, refl, ◌≢◌, Bool, true, false, none, some, List, [], ◌∷◌, ◌++◌, All, arith,
}
use althea_rs.Prelude.Int.{ℤ, ltb_ℤ}
use althea_rs.Prelude.Outcome.{Outcome, ok, err, panic, Action}
use althea_rs.Num256.{Num256}
use althea_rs.AltheaTypes.{Identity}
use althea_rs.Settings.{PaymentSettings}
use althea_rs.Time.{Instant}
use althea_rs.PaymentValidator.Validator.{payment_timeout}
use althea_rs.DebtKeeper.Peer.{
  DebtAction, suspend_tunnel, open_tunnel, make_payment, Error, NodeDebtData, apply_incoming,
  payment_received, payment_succeeded, payment_failed, traffic_update, traffic_replace,
}
use althea_rs.DebtKeeper.Update.{
  limit_debt, apply_credit, suspend, open_up, start_payment, await_payment, act, send_update,
}

-- The messages about one peer, with the time at which they are handled.
pub data Event : Type 0 where
  received : ℕ → Event
  traffic : ℤ → Event
  replaced : Instant → ℤ → Event
  succeeded : Instant → ℕ → Event
  failed : Event
  updated : Instant → Event

-- What a message makes the keeper send to the payment controller.
abbrev pub paid : Outcome Error DebtAction → List ℕ
paid (ok (make_payment to amount)) = amount ∷ []
paid (ok open_tunnel) = []
paid (ok suspend_tunnel) = []
paid (err e) = []
paid panic = []

abbrev pub unpaid :
    {A : Type 0} → Outcome Error A × NodeDebtData → Outcome Error DebtAction × NodeDebtData
unpaid (ok a, d) = (ok open_tunnel, d)
unpaid (err e, d) = (err e, d)
unpaid (panic, d) = (panic, d)

-- The start of the flight is known whenever there is one.
abbrev pub IsTimed : NodeDebtData → Type 0
IsTimed d = d.payment_in_flight ≡ true → d.payment_in_flight_start ≢ none

abbrev pub InFlight : Instant → NodeDebtData → Type 0
InFlight start d = (d.payment_in_flight ≡ true) × (d.payment_in_flight_start ≡ some start)

-- A message that neither settles the payment that started then, nor comes after its timeout.
abbrev pub IsQuiet : Instant → Event → Type 0
IsQuiet start (received amount) = Unit
IsQuiet start (traffic amount) = Unit
IsQuiet start (replaced now amount) = Unit
IsQuiet start (succeeded now amount) = ⊥
IsQuiet start failed = ⊥
IsQuiet start (updated now) = now - start ≤ payment_timeout

module _ (num : Num256) (settings : PaymentSettings) (ident : Identity) where
  unfoldable pub handle : Event → Action NodeDebtData Error DebtAction
  handle (received amount) d = unpaid (payment_received num amount d)
  handle (traffic amount) d = unpaid (traffic_update num amount d)
  handle (replaced now amount) d = unpaid (traffic_replace num now amount d)
  handle (succeeded now amount) d = unpaid (payment_succeeded num now amount d)
  handle failed d = unpaid (payment_failed num d)
  handle (updated now) d = send_update num settings now ident d

  -- The payments sent over a run of messages, and the data after it. A panic ends the run.
  unfoldable pub run : List Event → NodeDebtData → List ℕ × NodeDebtData
  run [] d = ([], d)
  run (e ∷ es) d =
      let (r, d') = handle e d in
      let (amounts, last) = run es d' in
      elim r [
        | ok action ↦ (paid (ok action) ++ amounts, last)
        | err x ↦ (amounts, last)
        | panic ↦ ([], d')
      ]

module _ (num : Num256) where
  payment_received-flight :
      (amount : ℕ) (d : NodeDebtData)
      → let d' = (payment_received num amount d).1 in
        (d'.payment_in_flight ≡ d.payment_in_flight)
        × (d'.payment_in_flight_start ≡ d.payment_in_flight_start)
  unfolding payment_received apply_incoming
  payment_received-flight amount d = ground arith

  limit_debt-flight :
      (settings : PaymentSettings) (now : Instant) (ident : Identity) (d : NodeDebtData)
      → let d' = (limit_debt num settings now ident d).1 in
        (d'.payment_in_flight ≡ d.payment_in_flight)
        × (d'.payment_in_flight_start ≡ d.payment_in_flight_start)
  unfolding limit_debt
  limit_debt-flight settings now ident d = ground arith

  act-InFlight :
      (settings : PaymentSettings) (now : Instant) (ident : Identity) (start : Instant)
      (close pay : Bool) (d : NodeDebtData)
      → now - start ≤ payment_timeout
      → InFlight start d
      → let (r, d') = act num settings now ident close pay true d in
        (paid r ≡ []) × InFlight start d'
  unfolding act suspend open_up apply_credit await_payment
  act-InFlight settings now ident start true true d h f = ground arith
  act-InFlight settings now ident start true false d h f =
      ground (arith, payment_received-flight 0 (record d { action = open_tunnel }))
  act-InFlight settings now ident start false true d h f = ground arith
  act-InFlight settings now ident start false false d h f =
      ground (arith, payment_received-flight 0 (record d { action = open_tunnel }))

  send_update-InFlight :
      (settings : PaymentSettings) (now : Instant) (ident : Identity) (start : Instant)
      (d : NodeDebtData)
      → now - start ≤ payment_timeout
      → InFlight start d
      → let (r, d') = send_update num settings now ident d in (paid r ≡ []) × InFlight start d'
  unfolding send_update
  send_update-InFlight settings now ident start d h f = ground (
    arith,
    limit_debt-flight settings now ident d,
    act-InFlight settings now ident start (ltb_ℤ d.debt settings.close_threshold)
        (ltb_ℤ settings.pay_threshold d.debt) (limit_debt num settings now ident d).1 h,
  )

  handle-InFlight :
      (settings : PaymentSettings) (ident : Identity) (start : Instant) (e : Event)
      (d : NodeDebtData)
      → IsQuiet start e
      → InFlight start d
      → let (r, d') = handle num settings ident e d in (paid r ≡ []) × InFlight start d'
  unfolding handle traffic_update traffic_replace
  handle-InFlight settings ident start (received amount) d q f =
      ground (arith, payment_received-flight amount d)
  handle-InFlight settings ident start (traffic amount) d q f = ground arith
  handle-InFlight settings ident start (replaced now amount) d q f = ground arith
  handle-InFlight settings ident start (succeeded now amount) d q f = absurd q
  handle-InFlight settings ident start failed d q f = absurd q
  handle-InFlight settings ident start (updated now) d q f =
      send_update-InFlight settings now ident start d q f

  -- However many messages about a peer are handled while a payment to it is in flight, none of them
  -- makes another payment start and the flight stays as it is, as long as none of them confirms or
  -- fails the payment, and no update comes later than the timeout after its start.
  pub run-InFlight :
      (settings : PaymentSettings) (ident : Identity) (start : Instant) (es : List Event)
      (d : NodeDebtData)
      → All (IsQuiet start) es
      → InFlight start d
      → let (amounts, d') = run num settings ident es d in (amounts ≡ []) × InFlight start d'
  unfolding run
  run-InFlight settings ident start [] d q f = (refl, f)
  run-InFlight settings ident start (e ∷ es) d q f =
      let step = handle-InFlight settings ident start e d q.0 f in
      ground (
        arith,
        step,
        run-InFlight settings ident start es (handle num settings ident e d).1 q.1 step.1,
      )

  act-IsTimed :
      (settings : PaymentSettings) (now : Instant) (ident : Identity) (close pay flight : Bool)
      (d : NodeDebtData)
      → IsTimed d
      → IsTimed (act num settings now ident close pay flight d).1
  unfolding act suspend open_up apply_credit await_payment start_payment
  act-IsTimed settings now ident true true _ d t = t
  act-IsTimed settings now ident true false _ d t =
      ground (arith, payment_received-flight 0 (record d { action = open_tunnel }))
  act-IsTimed settings now ident false true true d t = ground arith
  act-IsTimed settings now ident false true false d t = ground arith
  act-IsTimed settings now ident false false _ d t =
      ground (arith, payment_received-flight 0 (record d { action = open_tunnel }))

  -- Every message, also one that fails, keeps the start of a flight known, so the branch of
  -- `send_update` that finds a flight without a start is never taken.
  pub handle-IsTimed :
      (settings : PaymentSettings) (ident : Identity) (e : Event) (d : NodeDebtData)
      → IsTimed d
      → IsTimed (handle num settings ident e d).1
  unfolding handle send_update traffic_update traffic_replace payment_succeeded payment_failed
  handle-IsTimed settings ident (received amount) d t =
      ground (arith, payment_received-flight amount d)
  handle-IsTimed settings ident (traffic amount) d t = ground arith
  handle-IsTimed settings ident (replaced now amount) d t = ground arith
  handle-IsTimed settings ident (succeeded now amount) d t = ground arith
  handle-IsTimed settings ident failed d t = ground arith
  handle-IsTimed settings ident (updated now) d t =
      let limited = (limit_debt num settings now ident d).1 in
      let close = ltb_ℤ d.debt settings.close_threshold in
      let pay = ltb_ℤ settings.pay_threshold d.debt in
      ground (
        arith,
        limit_debt-flight settings now ident d,
        act-IsTimed settings now ident close pay d.payment_in_flight limited,
      )
