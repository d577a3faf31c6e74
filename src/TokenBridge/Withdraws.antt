-- ===== src/TokenBridge/Withdraws.antt =====
-- rita/src/rita_common/token_bridge/mod.rs: what a tick does for a withdrawal under way.
use althea_rs.Prelude.{
  ℕ, ◌+◌, ◌-◌, ◌*◌, ◌≡◌, ◌≤◌, refl, ◌⊎◌, Bool-cases, Option-cases, inl, inr, some, List, [], ◌∷◌,
  arith, leb, leb→le, if◌then◌else◌,
}
use althea_rs.Num256.{Num256}
use althea_rs.TokenBridge.Bridge.{
  minus, eth_equal, dai_wei_cent, eth_to_wei, ready_after, withdrawing, Withdrawal, Answers, Effect,
  state_change, detailed_state_change, dai_to_xdai_bridge, xdai_to_dai_bridge, eth_to_dai_swap,
  dai_to_eth_swap, eth_transfer,
}
use althea_rs.TokenBridge.Futures.{withdraw_amount, send_eth, advance, withdraw_step}
use althea_rs.TokenBridge.Deposits.{states_of}

-- The orders to move money among what a future does, and the transfers of ether.
abbrev pub orders : List Effect → ℕ
orders [] = 0
orders (state_change s ∷ effects) = orders effects
orders (detailed_state_change d ∷ effects) = orders effects
orders (dai_to_xdai_bridge n ∷ effects) = 1 + orders effects
orders (xdai_to_dai_bridge n ∷ effects) = 1 + orders effects
orders (eth_to_dai_swap n ∷ effects) = 1 + orders effects
orders (dai_to_eth_swap n ∷ effects) = 1 + orders effects
orders (eth_transfer to n ∷ effects) = 1 + orders effects

abbrev pub transfers_of : List Effect → List (ℕ × ℕ)
transfers_of [] = []
transfers_of (state_change s ∷ effects) = transfers_of effects
transfers_of (detailed_state_change d ∷ effects) = transfers_of effects
transfers_of (dai_to_xdai_bridge n ∷ effects) = transfers_of effects
transfers_of (xdai_to_dai_bridge n ∷ effects) = transfers_of effects
transfers_of (eth_to_dai_swap n ∷ effects) = transfers_of effects
transfers_of (dai_to_eth_swap n ∷ effects) = transfers_of effects
transfers_of (eth_transfer to n ∷ effects) = (to, n) ∷ transfers_of effects

module _ (num : Num256) (answers : Answers) (w : Withdrawal) where
  -- At most one order, and either nothing is sent and the withdrawal goes on, or an amount within the
  -- balance is sent to its address, and the withdrawal ends exactly if that succeeds.
  abbrev pub IsStep : ℕ → List Effect → Type 0
  IsStep balance effects =
      (orders effects ≤ 1)
      × (((transfers_of effects ≡ []) × (states_of effects ≡ []))
          ⊎ ((n : ℕ) × (n ≤ balance)
              × (transfers_of effects ≡ (w.to, n) ∷ [])
              × (states_of effects
                  ≡ (if answers.transfers w.to n then ready_after (withdrawing w) ∷ [] else []))))

  minus-le : (a b n : ℕ) → minus num a b ≡ some n → n ≤ a
  unfolding minus
  minus-le a b n h = elim (Bool-cases (leb b a)) [
    | inl fits ↦ omega (arith, leb→le b a fits, num.uint256_exact (a - b) (rw (fits, minus) at h))
    | inr less ↦ absurd (ground (arith, less, h))
  ]

  withdraw_amount-le :
      (balance transferred gas n : ℕ)
      → transferred ≤ balance
      → withdraw_amount num answers w balance transferred gas ≡ some n
      → n ≤ balance
  unfolding withdraw_amount
  withdraw_amount-le balance transferred gas n enough h = elim (Bool-cases w.withdraw_all) [
    | inr part ↦ ground (arith, part, h)
    | inl everything ↦ elim (Option-cases (num.uint256 (gas * 21_000))) [
      | inl over ↦ absurd (ground (arith, everything, over, h))
      | inr (cost, fits) ↦ minus-le balance cost n (rw (everything, fits, withdraw_amount) at h)
    ]
  ]

  send_eth-IsStep :
      (balance price n : ℕ) → n ≤ balance → IsStep balance (send_eth num answers w price n).1
  unfolding send_eth
  send_eth-IsStep balance price n h = elim (Bool-cases (answers.transfers w.to n)) [
    | inl sent ↦ rw (sent, send_eth) (omega arith, inr (n, h, refl, rw sent refl))
    | inr failed ↦ rw (failed, send_eth) (omega arith, inr (n, h, refl, rw failed refl))
  ]

  advance-IsStep :
      (dai balance price transferred gas : ℕ)
      → IsStep balance (advance num answers w dai balance price transferred gas).1
  unfolding advance
  advance-IsStep dai balance price transferred gas = elim (Bool-cases (leb w.amount dai)) [
    | inl arrived ↦ rw (arrived, advance) (omega arith, inl (refl, refl))
    | inr not_yet ↦ elim (Bool-cases (leb transferred balance)) [
      | inr waits ↦ rw (not_yet, waits, advance) (omega arith, inl (refl, refl))
      | inl swapped ↦ elim (Option-cases (withdraw_amount num answers w balance transferred gas)) [
        | inl crash ↦ rw (not_yet, swapped, crash, advance) (omega arith, inl (refl, refl))
        | inr (n, sends) ↦
            rw (not_yet, swapped, sends, advance)
              (send_eth-IsStep balance price n (
                withdraw_amount-le balance transferred gas n (leb→le transferred balance swapped)
                  sends))
      ]
    ]
  ]

  -- A tick for a withdrawal that has not timed out gives at most one order to move money. Either
  -- nothing is sent and the state is left alone, or an amount of at most the balance is sent to the
  -- address of the withdrawal, and the only change of the state is to `Ready` for this withdrawal, made
  -- exactly if the transfer succeeds.
  pub withdraw_step-IsStep :
      (balance : ℕ)
      → answers.eth_balance ≡ some balance
      → IsStep balance (withdraw_step num answers w).1
  unfolding withdraw_step
  withdraw_step-IsStep balance funded = elim (Option-cases answers.dai_balance) [
    | inl e ↦ rw (e, withdraw_step) (omega arith, inl (refl, refl))
    | inr (dai, e₁) ↦ elim (Option-cases (answers.dai_to_eth_price (eth_to_wei 1))) [
      | inl e ↦ rw (e₁, funded, e, withdraw_step) (omega arith, inl (refl, refl))
      | inr (price, e₂) ↦ elim (Option-cases (answers.dai_to_eth_price dai_wei_cent)) [
        | inl e ↦ rw (e₁, funded, e₂, e, withdraw_step) (omega arith, inl (refl, refl))
        | inr (cent, e₃) ↦ elim (Option-cases answers.eth_gas_price) [
          | inl e ↦ rw (e₁, funded, e₂, e₃, e, withdraw_step) (omega arith, inl (refl, refl))
          | inr (gas, e₄) ↦ elim (Option-cases (eth_equal num w.amount cent)) [
            | inl e ↦ rw (e₁, funded, e₂, e₃, e₄, e, withdraw_step) (omega arith, inl (refl, refl))
            | inr (transferred, e₅) ↦
                rw (e₁, funded, e₂, e₃, e₄, e₅, withdraw_step)
                  (advance-IsStep dai balance price transferred gas)
          ]
        ]
      ]
    ]
  ]
