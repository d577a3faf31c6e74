-- ===== src/TokenBridge/Futures.antt =====
-- rita/src/rita_common/token_bridge/mod.rs: the futures that the handlers spawn. The result of a future
-- comes with what it has done until then.
use althea_rs.Prelude.{
  ℕ, ◌*◌, Bool, true, false, Option, none, some, List, [], ◌∷◌, ◌++◌, ltb, leb, if◌then◌else◌,
}
use althea_rs.Prelude.Outcome.{Outcome, ok, err, panic}
use althea_rs.Num256.{Num256}
use althea_rs.Time.{Instant}
use althea_rs.TokenBridge.Bridge.{
  dai_wei_cent, eth_to_wei, eth_equal, minus, Withdrawal, ready_after, depositing, withdrawing,
  eth_to_dai, dai_to_eth, no_op, dai_to_xdai, xdai_to_dai, eth_to_dest, TokenBridge, Answers,
  Effect, state_change, detailed_state_change, dai_to_xdai_bridge, xdai_to_dai_bridge,
  eth_to_dai_swap, dai_to_eth_swap, eth_transfer,
}

abbrev pub Done : Type 0
Done = Outcome (Unit {0}) (Unit {0}) × List Effect

abbrev pub done_if : Bool → Outcome (Unit {0}) (Unit {0})
done_if true = ok tt
done_if false = err tt

abbrev pub after : List Effect → Done → Done
after effects (r, later) = (r, effects ++ later)

-- `Future::and_then`, and a `then` that logs an error and sends a message.
abbrev pub and_then : Done → Done → Done
and_then (ok u, effects) next = after effects next
and_then (err e, effects) next = (err e, effects)
and_then (panic, effects) next = (panic, effects)

abbrev pub finally : Effect → Done → Done
finally last (ok u, effects) = (ok tt, effects ++ (last ∷ []))
finally last (err e, effects) = (ok tt, effects ++ (last ∷ []))
finally last (panic, effects) = (panic, effects)

-- `rescue_dai`
unfoldable pub rescue_dai : Answers → ℕ → Done
rescue_dai answers minimum = elim answers.dai_balance [
  | none ↦ (err tt, [])
  | some dai_balance ↦
      if ltb (eth_to_wei minimum) dai_balance
      then (
        done_if (answers.bridges_dai dai_balance),
        detailed_state_change (dai_to_xdai dai_balance) ∷ dai_to_xdai_bridge dai_balance ∷ [],
      )
      else (ok tt, [])
]

module _ (num : Num256) (answers : Answers) where
  -- From the swap into DAI on.
  unfoldable pub bridge_bought : ℕ → Done
  bridge_bought swap_amount = elim (answers.dai_bought swap_amount) [
    | none ↦ (err tt, [])
    | some dai_bought ↦ (
      done_if (answers.bridges_dai dai_bought),
      detailed_state_change (dai_to_xdai dai_bought) ∷ dai_to_xdai_bridge dai_bought ∷ [],
    )
  ]

  -- The exchange of what is above the reserve, where there is enough to exchange.
  unfoldable pub exchange : ℕ → ℕ → ℕ → ℕ → Done
  unfolding bridge_bought
  exchange wei_per_dollar eth_balance reserve minimum =
      if leb minimum eth_balance
      then (elim (minus num eth_balance reserve) [
        | none ↦ (panic, [])
        | some swap_amount ↦
            after
              (detailed_state_change (eth_to_dai swap_amount wei_per_dollar)
                ∷ eth_to_dai_swap swap_amount
                ∷ [])
              (bridge_bought swap_amount)
      ])
      else (ok tt, detailed_state_change (no_op eth_balance wei_per_dollar) ∷ [])

  unfoldable pub deposit_eth : TokenBridge → Done
  unfolding exchange
  deposit_eth bridge = elim (answers.dai_to_eth_price (eth_to_wei 1)) [
    | none ↦ (err tt, [])
    | some wei_per_dollar ↦ elim answers.eth_balance [
      | none ↦ (err tt, [])
      | some eth_balance ↦ elim (num.uint256 (wei_per_dollar * bridge.reserve_amount)) [
        | none ↦ (panic, [])
        | some reserve ↦ elim (num.uint256 (wei_per_dollar * bridge.minimum_to_exchange)) [
          | none ↦ (panic, [])
          | some minimum ↦ exchange wei_per_dollar eth_balance reserve minimum
        ]
      ]
    ]
  ]

  -- The future of a tick in `Ready`, which ends with `Ready` again unless it panics.
  unfoldable pub deposit : TokenBridge → Done
  unfolding rescue_dai deposit_eth
  deposit bridge =
      finally (state_change (ready_after depositing))
        (and_then (rescue_dai answers bridge.minimum_stranded_dai_transfer) (deposit_eth bridge))

  -- What is sent in the end of a withdrawal.
  unfoldable pub withdraw_amount : Withdrawal → ℕ → ℕ → ℕ → Option ℕ
  withdraw_amount w eth_balance transferred_eth eth_gas_price =
      if w.withdraw_all
      then (elim (num.uint256 (eth_gas_price * 21_000)) [
        | none ↦ none
        | some tx_cost ↦ minus num eth_balance tx_cost
      ])
      else some transferred_eth

  unfoldable pub send_eth : Withdrawal → ℕ → ℕ → Done
  send_eth w wei_per_dollar amount =
      let effects =
        detailed_state_change (eth_to_dest amount wei_per_dollar w.to)
        ∷ eth_transfer w.to amount
        ∷ [] in
      if answers.transfers w.to amount
      then (ok tt, effects ++ (state_change (ready_after (withdrawing w)) ∷ []))
      else (err tt, effects)

  -- The three cases of a withdrawal that has not timed out.
  unfoldable pub advance : Withdrawal → ℕ → ℕ → ℕ → ℕ → ℕ → Done
  unfolding withdraw_amount send_eth
  advance w dai_balance eth_balance wei_per_dollar transferred_eth eth_gas_price =
      if leb w.amount dai_balance
      then (
        done_if (answers.swaps_dai w.amount),
        detailed_state_change (dai_to_eth w.amount wei_per_dollar) ∷ dai_to_eth_swap w.amount ∷ [],
      )
      else (if leb transferred_eth eth_balance
          then (elim (withdraw_amount w eth_balance transferred_eth eth_gas_price) [
            | none ↦ (panic, [])
            | some amount ↦ send_eth w wei_per_dollar amount
          ])
          else (ok tt, detailed_state_change (xdai_to_dai w.amount) ∷ []))

  -- The future of a tick in `Withdrawing`.
  unfoldable pub withdraw_step : Withdrawal → Done
  unfolding advance
  withdraw_step w = elim answers.dai_balance [
    | none ↦ (err tt, [])
    | some dai_balance ↦ elim answers.eth_balance [
      | none ↦ (err tt, [])
      | some eth_balance ↦ elim (answers.dai_to_eth_price (eth_to_wei 1)) [
        | none ↦ (err tt, [])
        | some wei_per_dollar ↦ elim (answers.dai_to_eth_price dai_wei_cent) [
          | none ↦ (err tt, [])
          | some wei_per_cent ↦ elim answers.eth_gas_price [
            | none ↦ (err tt, [])
            | some eth_gas_price ↦ elim (eth_equal num w.amount wei_per_cent) [
              | none ↦ (panic, [])
              | some transferred_eth ↦
                  advance w dai_balance eth_balance wei_per_dollar transferred_eth eth_gas_price
            ]
          ]
        ]
      ]
    ]
  ]

  -- The future of `Handler<Withdraw>`, at whose end it is `now`.
  unfoldable pub start_withdraw : Instant → ℕ → ℕ → Bool → Done
  start_withdraw now to amount withdraw_all =
      if answers.bridges_xdai amount
      then (
        ok tt,
        xdai_to_dai_bridge amount
            ∷ detailed_state_change (xdai_to_dai amount)
            ∷ state_change (
                withdrawing (record {
                  amount = amount;
                  to = to;
                  timestamp = now;
                  withdraw_all = withdraw_all;
                }))
            ∷ [],
      )
      else (ok tt, xdai_to_dai_bridge amount ∷ [])

  -- The future of `eth_bridge`.
  unfoldable pub rescue_xdai : Done
  rescue_xdai = elim answers.dai_balance [
    | none ↦ (err tt, [])
    | some dai_balance ↦ elim answers.eth_balance [
      | none ↦ (err tt, [])
      | some eth_balance ↦ elim (answers.dai_to_eth_price (eth_to_wei 1)) [
        | none ↦ (err tt, [])
        | some wei_per_dollar ↦ elim answers.xdai_balance [
          | none ↦ (err tt, [])
          | some xdai_balance ↦
              if ltb (60_000_000_000 * 21_000) xdai_balance
              then (elim (minus num xdai_balance (60_000_000_000 * 21_000)) [
                | none ↦ (panic, [])
                | some amount ↦ (
                  ok tt,
                  xdai_to_dai_bridge amount ∷ detailed_state_change (xdai_to_dai amount) ∷ [],
                )
              ])
              else (if ltb 0 dai_balance
                  then (
                    done_if (answers.swaps_dai dai_balance),
                    detailed_state_change (dai_to_eth dai_balance wei_per_dollar)
                        ∷ dai_to_eth_swap dai_balance
                        ∷ [],
                  )
                  else (ok tt, detailed_state_change (no_op eth_balance wei_per_dollar) ∷ []))
        ]
      ]
    ]
  ]
