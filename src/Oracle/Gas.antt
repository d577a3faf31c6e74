-- ===== src/Oracle/Gas.antt =====
-- rita/src/rita_common/oracle/mod.rs: the thresholds that `update_gas_price` derives, and what they
-- mean for the payments of the debt keeper; the balance that `Update` writes.
use native.Mathlib.Nat.{mul-le-mul}
use althea_rs.Prelude.{
  [], ◌∷◌, ℕ, zero, suc, ◌+◌, ◌*◌, ◌/◌, ◌-◌, ◌^◌, ◌≡◌, ◌≤◌, ◌<◌, refl, some, arith,
}
use althea_rs.Prelude.Int.{abs, pos, ◌≤ℤ◌}
use althea_rs.Prelude.Outcome.{Outcome, ok}
use althea_rs.Num256.{Num256, FitsInt256, FitsUint256, FitsInt256-below}
use althea_rs.AltheaTypes.{Identity}
use althea_rs.Settings.{PaymentSettings}
use althea_rs.Time.{Instant}
use althea_rs.DebtKeeper.Peer.{DebtAction, Error, make_payment, NodeDebtData}
use althea_rs.DebtKeeper.Update.{send_update}
use althea_rs.DebtKeeper.Decision.{IsValid, IsInRange, limited-above, Decides, send_update-Decides}
use althea_rs.Oracle.Chain.{
  GasSettings, minus_four_times, clamped, update_gas_price, update_balance, Answers, Oracle,
  handle_update, zero_window_time, ask_node, ask_server, update_blockchain_info,
}

-- The settings are values of their machine types.
pub record IsMachine (s : GasSettings) : Type 0 where
  pub multiplier : s.dynamic_fee_multiplier < 2 ^ 32
  pub least : s.min_gas < 2 ^ 64
  pub most : s.max_gas < 2 ^ 64

-- The settings after the gas price, by the price that is asked for.
abbrev pub repriced : GasSettings → ℕ → GasSettings
repriced s asked =
    let gas = clamped s.min_gas s.max_gas (asked + asked / 20) in
    let threshold = 21000 * gas * s.dynamic_fee_multiplier in
    record s {
      payment = record (s.payment) {
        gas_price = gas;
        pay_threshold = pos threshold;
        close_threshold = minus_four_times (pos threshold);
      };
    }

clamped-lt : (lo hi v : ℕ) → lo < 2 ^ 64 → hi < 2 ^ 64 → clamped lo hi v < 2 ^ 64
clamped-lt lo hi v hlo hhi = ground arith

product-le : (g m : ℕ) → g < 2 ^ 64 → m < 2 ^ 32 → 21000 * g * m ≤ 21000 * 2 ^ 64 * 2 ^ 32
product-le g m hg hm =
    mul-le-mul {n₁ = 21000 * g} {m₁ = m} {n₂ = 21000 * 2 ^ 64} {m₂ = 2 ^ 32} (omega arith)
      (omega arith)

-- The values that are computed on the way are representable.
FitsInt256-gas : (g : ℕ) → g < 2 ^ 64 → FitsInt256 (pos (21000 * g))
FitsInt256-gas g h = FitsInt256-below (pos (21000 * g)) (omega arith) (omega arith)

FitsInt256-price : (g : ℕ) → g < 2 ^ 64 → FitsInt256 (pos g)
FitsInt256-price g h = FitsInt256-below (pos g) (omega arith) (omega arith)

FitsInt256-threshold :
    (t : ℕ)
    → t ≤ 21000 * 2 ^ 64 * 2 ^ 32
    → FitsInt256 (pos t) × FitsInt256 (minus_four_times (pos t))
FitsInt256-threshold zero h = (
  FitsInt256-below (pos zero) (omega arith) (omega arith),
  FitsInt256-below (minus_four_times (pos zero)) (omega arith) (omega arith),
)
FitsInt256-threshold (suc t) h = (
  FitsInt256-below (pos (suc t)) (omega arith) (omega arith),
  FitsInt256-below (minus_four_times (pos (suc t))) (omega arith) (omega arith),
)

-- Four times a threshold below zero.
close-facts :
    (t : ℕ) → (minus_four_times (pos t) ≤ℤ pos 0) × (pos t ≤ℤ abs (minus_four_times (pos t)))
close-facts zero = (omega arith, omega arith)
close-facts (suc t) = (omega arith, omega arith)

module _ (num : Num256) where
  -- With machine values in the settings, and a price of which 105% is a value of `Uint256`, the update
  -- does not panic: the gas price is 105% of the price, moved into the configured range, the pay
  -- threshold is what a payment costs in gas times the multiplier, and the close threshold minus four
  -- times that; nothing else changes.
  pub update_gas_price-repriced :
      (s : GasSettings) (asked : ℕ)
      → IsMachine s
      → FitsUint256 (asked + asked / 20)
      → update_gas_price num asked s ≡ (ok tt, repriced s asked)
  unfolding update_gas_price
  update_gas_price-repriced s asked m fits =
      let gas = clamped s.min_gas s.max_gas (asked + asked / 20) in
      let small = clamped-lt s.min_gas s.max_gas (asked + asked / 20) m.least m.most in
      let top =
        FitsInt256-threshold (21000 * gas * s.dynamic_fee_multiplier)
          (product-le gas s.dynamic_fee_multiplier small m.multiplier) in
      ground (
        arith,
        num.uint256_fits (asked + asked / 20) fits,
        num.to_int256_fits gas (FitsInt256-price gas small),
        num.int256_fits (pos (21000 * gas)) (FitsInt256-gas gas small),
        num.int256_fits (pos (21000 * gas * s.dynamic_fee_multiplier)) top.0,
        num.int256_fits (minus_four_times (pos (21000 * gas * s.dynamic_fee_multiplier))) top.1,
      )

  -- What an update of the debt keeper pays is above the pay threshold.
  answer-above :
      (settings : PaymentSettings) (now : Instant) (ident : Identity) (d : NodeDebtData) (t : ℕ)
      → settings.pay_threshold ≡ pos t
      → pos t ≤ℤ abs settings.close_threshold
      → (answer : Outcome Error DebtAction) → Decides num settings now ident d answer
      → (payee : Identity) (amount : ℕ) → answer ≡ ok (make_payment payee amount)
      → (payee ≡ ident) × (t < amount)
  answer-above settings now ident d t e le answer h payee amount pays =
      ground (
        arith,
        h.suspends,
        h.forgives,
        h.pays,
        h.waits,
        h.rests,
        limited-above settings d.debt t le,
      )

  -- After an update of the gas price as above the thresholds are as the debt keeper asserts, and
  -- whatever it pays for a debt goes to the peer and is more than the multiplier times what the
  -- transaction costs in gas. The fudge factor is zero, and the sums of the debt are representable.
  pub update_gas_price-pays_above :
      (s : GasSettings) (asked : ℕ) (now : Instant) (ident : Identity) (d : NodeDebtData)
      (payee : Identity) (amount : ℕ)
      → IsMachine s
      → FitsUint256 (asked + asked / 20)
      → s.payment.fudge_factor ≡ 0
      → IsInRange (update_gas_price num asked s).1.payment d
      → (send_update num (update_gas_price num asked s).1.payment now ident d).0
        ≡ ok (make_payment payee amount)
      → let settings = (update_gas_price num asked s).1.payment in
        IsValid settings
        × (payee ≡ ident)
        × (21000 * settings.gas_price * s.dynamic_fee_multiplier < amount)
  update_gas_price-pays_above s asked now ident d payee amount m fits nofudge =
      rw (update_gas_price-repriced s asked m fits) (λ r pays.
        let settings = (repriced s asked).payment in
        let t = 21000 * settings.gas_price * s.dynamic_fee_multiplier in
        let valid : IsValid settings = record {
          close_negative = (close-facts t).0;
          pay_positive = omega arith;
        } in
        let above =
          answer-above settings now ident d t refl (close-facts t).1
            (send_update num settings now ident d).0
            (send_update-Decides num settings now ident d valid r nofudge) payee amount pays in
        (valid, above.0, above.1))

  update_gas_price-balance :
      (s : GasSettings) (asked : ℕ)
      → (update_gas_price num asked s).1.payment.balance ≡ s.payment.balance
  unfolding update_gas_price
  update_gas_price-balance s asked = ground arith

  -- With the window that an update hands to its request to the full node, the balance of the answer
  -- becomes ours, also where it is zero and ours was not, and whatever window the oracle has, also
  -- none, if the answer arrives within 300 seconds.
  pub handle_update-balance :
      (o : Oracle) (now answered : Instant) (a : Answers) (our_address : ℕ) (s : GasSettings)
      → s.payment.eth_address ≡ some our_address
      → answered - now ≤ zero_window_time
      → (handle_update o now s.payment ≡ ok (ask_node (some now) ∷ ask_server ∷ []))
        × ((update_blockchain_info num answered (some now) (some a) s).1.payment.balance
            ≡ a.balance)
  unfolding handle_update update_blockchain_info update_balance
  handle_update-balance o now answered a our_address s address soon = (
    rw address refl,
    ground (
      arith,
      update_gas_price-balance (record s { payment = record (s.payment) { balance = a.balance } })
          a.gas_price,
    ),
  )
