-- ===== src/DaoManager/Payments.antt =====
-- rita/src/rita_common/dao_manager/mod.rs: what a tick orders, and when.
use althea_rs.Prelude.{
  ℕ, ◌-◌, ◌*◌, ◌/◌, ◌≡◌, refl, some, List, [], ◌∷◌, map, arith, ltb, if◌then◌else◌,
}
use althea_rs.Prelude.Int.{pos}
use althea_rs.Prelude.Outcome.{ok}
use althea_rs.Num256.{Num256, FitsInt256}
use althea_rs.AltheaTypes.{Identity}
use althea_rs.Settings.{PaymentSettings}
use althea_rs.Time.{Instant}
use althea_rs.PaymentController.{Transaction, Clarity}
use althea_rs.DaoManager.{DaoManager, Order, dao_transaction, pay_all, handle_tick}

abbrev pub transactions : List Order → List Transaction
transactions [] = []
transactions (order ∷ orders) = order.transaction ∷ transactions orders

module _ (num : Num256) (clarity : Clarity) (settings : PaymentSettings) (key : ℕ) where
  -- Every address gets the whole threshold.
  pay_all-orders :
      (dao_addresses : List ℕ) (threshold : ℕ)
      → settings.pay_threshold ≡ pos threshold
      → settings.eth_private_key ≡ some key
      → ((tx : Transaction)
          → (bytes : List ℕ) × (clarity.sign_to_bytes tx key settings.net_version ≡ some bytes))
      → let (r, orders) = pay_all num clarity settings dao_addresses in
        (r ≡ ok tt) × (transactions orders ≡ map (dao_transaction settings threshold) dao_addresses)
  unfolding pay_all
  pay_all-orders [] threshold t k signs = (refl, refl)
  pay_all-orders (address ∷ addresses) threshold t k signs = ground (
    arith,
    num.to_uint256_pos threshold,
    (signs (dao_transaction settings threshold address)).1,
    pay_all-orders addresses threshold t k signs,
  )

  -- A tick pays exactly if the fee for the whole seconds since the last payment is above the pay
  -- threshold; then every address gets one transaction of the whole threshold, all with the nonce of
  -- the settings. It does not panic. The threshold is not negative, the fee and its product with the
  -- seconds are representable, a key is there, and every transaction can be signed.
  pub handle_tick-pays :
      (our_id : Identity) (dao_addresses : List ℕ) (dao_fee : ℕ) (now : Instant) (m : DaoManager)
      (threshold : ℕ)
      → settings.pay_threshold ≡ pos threshold
      → settings.eth_private_key ≡ some key
      → ((tx : Transaction)
          → (bytes : List ℕ) × (clarity.sign_to_bytes tx key settings.net_version ≡ some bytes))
      → FitsInt256 (pos dao_fee)
      → FitsInt256 (pos ((now - m.last_payment_time) / 1_000_000_000 * dao_fee))
      → let owed = (now - m.last_payment_time) / 1_000_000_000 * dao_fee in
        let (r, orders) =
          handle_tick num clarity settings (some our_id) dao_addresses dao_fee now m in
        (r ≡ ok tt)
        × (transactions orders ≡ (
            if ltb threshold owed
            then map
                (λ address. record {
                  nonce = settings.nonce;
                  gas_price = settings.gas_price;
                  to = address;
                  value = threshold;
                })
                dao_addresses
            else []))
  unfolding handle_tick dao_transaction
  handle_tick-pays our_id dao_addresses dao_fee now m threshold t k signs fits fits_owed = ground (
    arith,
    num.to_int256_fits dao_fee fits,
    num.int256_fits (pos ((now - m.last_payment_time) / 1_000_000_000 * dao_fee)) fits_owed,
    pay_all-orders dao_addresses threshold t k signs,
  )
