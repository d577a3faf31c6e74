-- ===== src/TokenBridge/Tests.antt =====
-- Runs of the bridge, and instances of its theorems.
use althea_rs.Prelude.{
  ◌≡◌, ◌⊎◌, ◌+◌, ◌*◌, refl, true, false, some, List, [], ◌∷◌, ◌==◌, arith, if◌then◌else◌,
}
use althea_rs.AltheaTypes.{xdai}
use althea_rs.Prelude.Outcome.{ok}
use althea_rs.Num256.Sample.{sample, FitsUint256-small}
use althea_rs.TokenBridge.Bridge.{
  eth_to_wei, eth_equal, is_timed_out, Withdrawal, ready_after, depositing, withdrawing,
  TokenBridge, default_bridge, Answers, Effect, eth_to_dest, xdai_to_dai, eth_transfer,
  detailed_state_change, xdai_to_dai_bridge, state_change,
}
use althea_rs.TokenBridge.Futures.{
  deposit, withdraw_amount, send_eth, advance, withdraw_step, start_withdraw,
}
use althea_rs.TokenBridge.Handlers.{
  BridgeSettings, deposit_task, withdraw_task, start_task, tick, withdraw, changed, detailed,
  xdai_bridge, handle_tick, handle_withdraw, handle_state_change, handle_detailed, handle, run_task,
}
use althea_rs.TokenBridge.Mailbox.{World, Reach, started, next, ticked, asked, handled, finished}
use althea_rs.TokenBridge.Trace.{Reach-sends_only}
use althea_rs.TokenBridge.Wanted.{sends_only}
use althea_rs.TokenBridge.Deposits.{states_of, exchanged, deposit-IsDone}
use althea_rs.TokenBridge.Withdraws.{IsStep, withdraw_step-IsStep}

abbrev settings : BridgeSettings
settings = record { bridge_enabled = true; system_chain = xdai; withdraw_chain = xdai }

-- A cent of DAI costs 4 wei of ether here.
abbrev answers : Answers
answers = record {
  dai_balance = some 0;
  eth_balance = some 1_000;
  xdai_balance = some 0;
  eth_gas_price = some 0;
  dai_to_eth_price = λ dai. if dai == 10_000_000_000_000_000 then some 4 else some 400;
  dai_bought = λ eth. some eth;
  swaps_dai = λ dai. true;
  bridges_dai = λ dai. true;
  bridges_xdai = λ dai. true;
  transfers = λ to eth. true;
}

-- Ten cents to the address 77.
abbrev ten_cents : Withdrawal
ten_cents = record {
  amount = 100_000_000_000_000_000;
  to = 77;
  timestamp = 5;
  withdraw_all = false;
}

abbrev withdrawing_bridge : TokenBridge
withdrawing_bridge = record {
  state = withdrawing ten_cents;
  reserve_amount = 1;
  minimum_to_exchange = 2;
  minimum_stranded_dai_transfer = 1;
  detailed_state = xdai_to_dai 100_000_000_000_000_000;
}

-- Two ticks that come before the first change of the state start two deposits.
two_deposits :
    ((handle settings 0 tick default_bridge).2 ≡ deposit_task default_bridge ∷ [])
    × ((handle settings 0 tick (handle settings 0 tick default_bridge).0).2
        ≡ deposit_task default_bridge ∷ [])
unfolding handle handle_tick xdai_bridge default_bridge
two_deposits = (refl, refl)

-- A deposit that starts while the change to `Withdrawing` waits takes the state from the withdrawal.
lost_withdrawal :
    (handle settings 0
      (changed depositing)
      (handle settings 0 (changed (withdrawing ten_cents)) default_bridge).0).0.state
    ≡ depositing
unfolding handle handle_state_change default_bridge
lost_withdrawal = refl

-- Each tick sends the ether anew until a transfer has come back.
sent_twice :
    ((handle settings 10 tick withdrawing_bridge).2 ≡ withdraw_task ten_cents ∷ [])
    × ((run_task sample answers 20 (withdraw_task ten_cents)).1
        ≡ detailed_state_change (eth_to_dest 40 400 77)
          ∷ eth_transfer 77 40
          ∷ state_change (ready_after (withdrawing ten_cents))
          ∷ [])
unfolding handle handle_tick xdai_bridge is_timed_out run_task withdraw_step advance withdraw_amount
    send_eth eth_to_wei eth_equal sample
sent_twice = (refl, refl)

abbrev so_far : List Effect
so_far =
    xdai_to_dai_bridge 100_000_000_000_000_000
    ∷ detailed_state_change (xdai_to_dai 100_000_000_000_000_000)
    ∷ state_change (withdrawing ten_cents)
    ∷ []

-- A withdrawal is asked for and carried out.
abbrev ended : World
ended = record {
  bridge = withdrawing_bridge;
  mailbox = detailed (eth_to_dest 40 400 77) ∷ changed (ready_after (withdrawing ten_cents)) ∷ [];
  tasks = [];
  log =
      xdai_to_dai_bridge 100_000_000_000_000_000
      ∷ detailed_state_change (xdai_to_dai 100_000_000_000_000_000)
      ∷ state_change (withdrawing ten_cents)
      ∷ detailed_state_change (eth_to_dest 40 400 77)
      ∷ eth_transfer 77 40
      ∷ state_change (ready_after (withdrawing ten_cents))
      ∷ [];
}

Reach-sends_only_example : sends_only (λ to. to == 77) ended.log ≡ true
unfolding handle handle_tick handle_withdraw handle_state_change handle_detailed xdai_bridge
    is_timed_out run_task start_withdraw withdraw_step advance withdraw_amount send_eth eth_to_wei
    eth_equal sample default_bridge
Reach-sends_only_example =
    let w₁ : Reach sample (λ to. to == 77)
        (record {
          bridge = default_bridge;
          mailbox = [];
          tasks = start_task 77 100_000_000_000_000_000 false ∷ [];
          log = [];
        }) =
      next
        (next started (
          asked 77 100_000_000_000_000_000 false
            (record { bridge = default_bridge; mailbox = []; tasks = []; log = [] }) refl))
        (handled settings 1 default_bridge (withdraw 77 100_000_000_000_000_000 false) [] [] []) in
    let w₂ = next w₁ (
      finished answers 5 default_bridge [] (start_task 77 100_000_000_000_000_000 false) [] []
        []) in
    let w₃ = next w₂ (
      handled settings 6 default_bridge (detailed (xdai_to_dai 100_000_000_000_000_000))
        (changed (withdrawing ten_cents) ∷ []) []
        (xdai_to_dai_bridge 100_000_000_000_000_000
          ∷ detailed_state_change (xdai_to_dai 100_000_000_000_000_000)
          ∷ state_change (withdrawing ten_cents)
          ∷ [])) in
    let seen = record default_bridge { detailed_state = xdai_to_dai 100_000_000_000_000_000 } in
    let log = so_far in
    let w₄ = next w₃ (handled settings 6 seen (changed (withdrawing ten_cents)) [] [] log) in
    let w₅ =
      next w₄
        (ticked (record { bridge = withdrawing_bridge; mailbox = []; tasks = []; log = log })) in
    let w₆ = next w₅ (handled settings 7 withdrawing_bridge tick [] [] log) in
    let w₇ =
      next w₆ (finished answers 8 withdrawing_bridge [] (withdraw_task ten_cents) [] [] log) in
    Reach-sends_only (λ to. to == 77) w₇

deposit-IsDone_example :
    let (r, effects) = deposit sample answers default_bridge in
    (r ≡ ok tt)
    × (states_of effects ≡ ready_after depositing ∷ [])
    × ((exchanged effects ≡ 0) ⊎ (exchanged effects + 400 * default_bridge.reserve_amount ≡ 1_000))
unfolding eth_to_wei default_bridge
deposit-IsDone_example =
    deposit-IsDone sample answers 400 1_000 default_bridge refl refl (omega arith)
      (FitsUint256-small 1_000 (omega arith)) (FitsUint256-small 800 (omega arith))

withdraw_step-IsStep_example :
    IsStep sample answers ten_cents 1_000 (withdraw_step sample answers ten_cents).1
withdraw_step-IsStep_example = withdraw_step-IsStep sample answers ten_cents 1_000 refl
