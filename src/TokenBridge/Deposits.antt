-- ===== src/TokenBridge/Deposits.antt =====
-- rita/src/rita_common/token_bridge/mod.rs: how much ether a deposit exchanges, and how it ends.
use native.Mathlib.Nat.{mul-le-mul_left}
use althea_rs.Prelude.{
  ℕ, ◌+◌, ◌*◌, ◌≡◌, ◌≤◌, refl, ap, ◌∙◌, ◌⊎◌, Bool, true, false, Bool-cases, Option-cases, inl, inr,
  some, List, [], ◌∷◌, ◌++◌, arith, leb, leb→le, ◌-◌, ltb,
}
use althea_rs.Prelude.Outcome.{Outcome, ok, err, panic}
use althea_rs.Num256.{Num256, FitsUint256, FitsUint256-le}
use althea_rs.TokenBridge.Bridge.{
  minus, eth_to_wei, State, ready_after, depositing, TokenBridge, Answers, Effect, state_change,
  detailed_state_change, dai_to_xdai_bridge, xdai_to_dai_bridge, eth_to_dai_swap, dai_to_eth_swap,
  eth_transfer,
}
use althea_rs.TokenBridge.Futures.{
  Done, and_then, finally, done_if, rescue_dai, deposit_eth, bridge_bought, exchange, deposit,
}

-- The changes of the state, and the ether that is exchanged, among what a future does.
abbrev pub states_of : List Effect → List State
states_of [] = []
states_of (state_change s ∷ effects) = s ∷ states_of effects
states_of (detailed_state_change d ∷ effects) = states_of effects
states_of (dai_to_xdai_bridge n ∷ effects) = states_of effects
states_of (xdai_to_dai_bridge n ∷ effects) = states_of effects
states_of (eth_to_dai_swap n ∷ effects) = states_of effects
states_of (dai_to_eth_swap n ∷ effects) = states_of effects
states_of (eth_transfer to n ∷ effects) = states_of effects

abbrev pub exchanged : List Effect → ℕ
exchanged [] = 0
exchanged (eth_to_dai_swap n ∷ effects) = n + exchanged effects
exchanged (state_change s ∷ effects) = exchanged effects
exchanged (detailed_state_change d ∷ effects) = exchanged effects
exchanged (dai_to_xdai_bridge n ∷ effects) = exchanged effects
exchanged (xdai_to_dai_bridge n ∷ effects) = exchanged effects
exchanged (dai_to_eth_swap n ∷ effects) = exchanged effects
exchanged (eth_transfer to n ∷ effects) = exchanged effects

states_of-append : (xs ys : List Effect) → states_of (xs ++ ys) ≡ states_of xs ++ states_of ys
states_of-append [] ys = refl
states_of-append (state_change s ∷ xs) ys = ap (λ ss. s ∷ ss) (states_of-append xs ys)
states_of-append (detailed_state_change d ∷ xs) ys = states_of-append xs ys
states_of-append (dai_to_xdai_bridge n ∷ xs) ys = states_of-append xs ys
states_of-append (xdai_to_dai_bridge n ∷ xs) ys = states_of-append xs ys
states_of-append (eth_to_dai_swap n ∷ xs) ys = states_of-append xs ys
states_of-append (dai_to_eth_swap n ∷ xs) ys = states_of-append xs ys
states_of-append (eth_transfer to n ∷ xs) ys = states_of-append xs ys

exchanged-append : (xs ys : List Effect) → exchanged (xs ++ ys) ≡ exchanged xs + exchanged ys
exchanged-append [] ys = omega arith
exchanged-append (state_change s ∷ xs) ys = exchanged-append xs ys
exchanged-append (detailed_state_change d ∷ xs) ys = exchanged-append xs ys
exchanged-append (dai_to_xdai_bridge n ∷ xs) ys = exchanged-append xs ys
exchanged-append (xdai_to_dai_bridge n ∷ xs) ys = exchanged-append xs ys
exchanged-append (eth_to_dai_swap n ∷ xs) ys = omega (arith, exchanged-append xs ys)
exchanged-append (dai_to_eth_swap n ∷ xs) ys = exchanged-append xs ys
exchanged-append (eth_transfer to n ∷ xs) ys = exchanged-append xs ys

abbrev pub panics : Outcome (Unit {0}) (Unit {0}) → Bool
panics (ok u) = false
panics (err e) = false
panics panic = true

panics-done_if : (b : Bool) → panics (done_if b) ≡ false
panics-done_if true = refl
panics-done_if false = refl

-- A part of a deposit: it does not panic, changes no state, and exchanges nothing or what is above
-- the reserve.
abbrev IsPart : ℕ → ℕ → Done → Type 0
IsPart balance reserve (r, effects) =
    (panics r ≡ false)
    × (states_of effects ≡ [])
    × ((exchanged effects ≡ 0) ⊎ (exchanged effects + reserve ≡ balance))

le→leb : (a b : ℕ) → a ≤ b → leb a b ≡ true
le→leb a b h = ground arith

module _ (num : Num256) (answers : Answers) where
  minus-exact : (a b : ℕ) → b ≤ a → FitsUint256 a → minus num a b ≡ some (a - b)
  unfolding minus
  minus-exact a b h fits =
      rw (le→leb b a h, minus)
        (num.uint256_fits (a - b) (FitsUint256-le (a - b) a (omega arith) fits))

  -- The same of what exchanges nothing.
  abbrev IsQuiet : Done → Type 0
  IsQuiet (r, effects) = (panics r ≡ false) × (states_of effects ≡ []) × (exchanged effects ≡ 0)

  bridge_bought-IsQuiet : (amount : ℕ) → IsQuiet (bridge_bought num answers amount)
  unfolding bridge_bought
  bridge_bought-IsQuiet amount = elim (Option-cases (answers.dai_bought amount)) [
    | inl fails ↦ rw (fails, bridge_bought) (refl, refl, refl)
    | inr (dai, bought) ↦
        rw (bought, bridge_bought) (panics-done_if (answers.bridges_dai dai), refl, refl)
  ]

  exchange-IsPart :
      (price balance reserve minimum : ℕ)
      → reserve ≤ minimum
      → FitsUint256 balance
      → IsPart balance reserve (exchange num answers price balance reserve minimum)
  unfolding exchange
  exchange-IsPart price balance reserve minimum h fits = elim (Bool-cases (leb minimum balance)) [
    | inr little ↦ rw (little, exchange) (refl, refl, inl refl)
    | inl enough ↦
        let least = leb→le minimum balance enough in
        let above = minus-exact balance reserve (omega arith) fits in
        let bought = bridge_bought-IsQuiet (balance - reserve) in
        rw (enough, above, exchange) (bought.0, bought.1, inr (omega (arith, least, bought.2)))
  ]

  deposit_eth-IsPart :
      (price balance : ℕ) (bridge : TokenBridge)
      → answers.dai_to_eth_price (eth_to_wei 1) ≡ some price
      → answers.eth_balance ≡ some balance
      → bridge.reserve_amount ≤ bridge.minimum_to_exchange
      → FitsUint256 balance
      → FitsUint256 (price * bridge.minimum_to_exchange)
      → IsPart balance (price * bridge.reserve_amount) (deposit_eth num answers bridge)
  unfolding deposit_eth
  deposit_eth-IsPart price balance bridge priced funded h fits products =
      let reserve = price * bridge.reserve_amount in
      let minimum = price * bridge.minimum_to_exchange in
      let below : reserve ≤ minimum = mul-le-mul_left price h in
      rw
        (
          priced,
          funded,
          num.uint256_fits reserve (FitsUint256-le reserve minimum below products),
          num.uint256_fits minimum products,
          deposit_eth,
        )
        (exchange-IsPart price balance reserve minimum below fits)

  rescue_dai-IsQuiet : (minimum : ℕ) → IsQuiet (rescue_dai answers minimum)
  unfolding rescue_dai
  rescue_dai-IsQuiet minimum = elim (Option-cases answers.dai_balance) [
    | inl fails ↦ rw (fails, rescue_dai) (refl, refl, refl)
    | inr (dai, held) ↦ elim (Bool-cases (ltb (eth_to_wei minimum) dai)) [
      | inl much ↦
          rw (held, much, rescue_dai) (panics-done_if (answers.bridges_dai dai), refl, refl)
      | inr little ↦ rw (held, little, rescue_dai) (refl, refl, refl)
    ]
  ]

  same_amount :
      (a b reserve balance : ℕ)
      → a ≡ b
      → ((b ≡ 0) ⊎ (b + reserve ≡ balance))
      → (a ≡ 0) ⊎ (a + reserve ≡ balance)
  same_amount a b reserve balance same part = rw same part

  and_then-IsPart :
      (balance reserve : ℕ) (first later : Done)
      → IsQuiet first
      → IsPart balance reserve later
      → IsPart balance reserve (and_then first later)
  and_then-IsPart balance reserve (ok u, xs) (r, ys) (_, states, none_yet) part = (
    part.0,
    states_of-append xs ys ∙ rw (states, part.1) refl,
    same_amount (exchanged (xs ++ ys)) (exchanged ys) reserve balance
        (omega (arith, exchanged-append xs ys, none_yet)) part.2,
  )
  and_then-IsPart balance reserve (err e, xs) later quiet part = (refl, quiet.1, inl quiet.2)
  and_then-IsPart balance reserve (panic, xs) later quiet part = absurd (ground (arith, quiet.0))

  finally-IsPart :
      (balance reserve : ℕ) (d : Done)
      → IsPart balance reserve d
      → let (r, effects) = finally (state_change (ready_after depositing)) d in
        (r ≡ ok tt)
        × (states_of effects ≡ ready_after depositing ∷ [])
        × ((exchanged effects ≡ 0) ⊎ (exchanged effects + reserve ≡ balance))
  finally-IsPart balance reserve (ok u, xs) part = (
    refl,
    states_of-append xs (state_change (ready_after depositing) ∷ []) ∙ rw part.1 refl,
    same_amount (exchanged (xs ++ (state_change (ready_after depositing) ∷ []))) (exchanged xs)
        reserve balance
        (omega (arith, exchanged-append xs (state_change (ready_after depositing) ∷ []))) part.2,
  )
  finally-IsPart balance reserve (err e, xs) part = (
    refl,
    states_of-append xs (state_change (ready_after depositing) ∷ []) ∙ rw part.1 refl,
    same_amount (exchanged (xs ++ (state_change (ready_after depositing) ∷ []))) (exchanged xs)
        reserve balance
        (omega (arith, exchanged-append xs (state_change (ready_after depositing) ∷ []))) part.2,
  )
  finally-IsPart balance reserve (panic, xs) part = absurd (ground (arith, part.0))

  -- A deposit does not panic and ends with the change to `Ready` for `Depositing`, its only change of
  -- the state, and it exchanges either no ether or exactly what the balance has above the reserve. The
  -- conditions are that the price and the balance are known, that the reserve is not above the minimum
  -- that is exchanged, and that the balance and the minimum in wei are values of `Uint256`.
  pub deposit-IsDone :
      (price balance : ℕ) (bridge : TokenBridge)
      → answers.dai_to_eth_price (eth_to_wei 1) ≡ some price
      → answers.eth_balance ≡ some balance
      → bridge.reserve_amount ≤ bridge.minimum_to_exchange
      → FitsUint256 balance
      → FitsUint256 (price * bridge.minimum_to_exchange)
      → let (r, effects) = deposit num answers bridge in
        (r ≡ ok tt)
        × (states_of effects ≡ ready_after depositing ∷ [])
        × ((exchanged effects ≡ 0) ⊎ (exchanged effects + price * bridge.reserve_amount ≡ balance))
  unfolding deposit
  deposit-IsDone price balance bridge priced funded h fits products =
      finally-IsPart balance (price * bridge.reserve_amount)
        (and_then (rescue_dai answers bridge.minimum_stranded_dai_transfer)
          (deposit_eth num answers bridge))
        (and_then-IsPart balance (price * bridge.reserve_amount)
          (rescue_dai answers bridge.minimum_stranded_dai_transfer) (deposit_eth num answers bridge)
          (rescue_dai-IsQuiet bridge.minimum_stranded_dai_transfer)
          (deposit_eth-IsPart price balance bridge priced funded h fits products))
