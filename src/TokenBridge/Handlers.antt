-- ===== src/TokenBridge/Handlers.antt =====
-- rita/src/rita_common/token_bridge/mod.rs: the message handlers, and the bridge with its mailbox and
-- its futures.
use althea_rs.Prelude.{ℕ, Bool, List, [], ◌∷◌, if◌then◌else◌}
use althea_rs.AltheaTypes.{SystemChain, ethereum, rinkeby, xdai}
use althea_rs.Prelude.Outcome.{Outcome, ok, err, panic}
use althea_rs.Num256.{Num256}
use althea_rs.Time.{Instant}
use althea_rs.TokenBridge.Bridge.{
  is_timed_out, eth_to_wei, Withdrawal, State, state_eq, ready, ready_after, depositing,
  withdrawing, no_op, DetailedBridgeState, TokenBridge, Answers, Effect, state_change,
  detailed_state_change, dai_to_xdai_bridge, xdai_to_dai_bridge, eth_to_dai_swap, dai_to_eth_swap,
  eth_transfer,
}
use althea_rs.TokenBridge.Futures.{Done, deposit, withdraw_step, start_withdraw, rescue_xdai}

pub record BridgeSettings : Type 0 where
  pub bridge_enabled : Bool
  pub system_chain : SystemChain
  pub withdraw_chain : SystemChain

-- A future that a handler spawns, with what it has moved into it.
pub data Task : Type 0 where
  deposit_task : TokenBridge → Task
  withdraw_task : Withdrawal → Task
  start_task : ℕ → ℕ → Bool → Task
  rescue_task : Task

-- The messages to the bridge that change it.
pub data Message : Type 0 where
  tick : Message
  withdraw : ℕ → ℕ → Bool → Message
  changed : State → Message
  detailed : DetailedBridgeState → Message

-- `xdai_bridge`: the messages sent and the future.
unfoldable pub xdai_bridge : Instant → TokenBridge → State → List Message × List Task
xdai_bridge now bridge ready = (changed depositing ∷ [], deposit_task bridge ∷ [])
xdai_bridge now bridge (ready_after former) = (changed depositing ∷ [], deposit_task bridge ∷ [])
xdai_bridge now bridge depositing = ([], [])
xdai_bridge now bridge (withdrawing w) =
    if is_timed_out now w.timestamp
    then (detailed (no_op 0 0) ∷ changed (ready_after (withdrawing w)) ∷ [], [])
    else ([], withdraw_task w ∷ [])

-- `Handler<Tick>`
unfoldable pub handle_tick : BridgeSettings → Instant → TokenBridge → List Message × List Task
unfolding xdai_bridge
handle_tick settings now bridge =
    if settings.bridge_enabled
    then (elim settings.system_chain [
      | xdai ↦ xdai_bridge now bridge bridge.state
      | ethereum ↦ ([], rescue_task ∷ [])
      | rinkeby ↦ ([], [])
    ])
    else ([], [])

-- `Handler<Withdraw>`: an error or the future.
unfoldable pub handle_withdraw :
    BridgeSettings → ℕ → ℕ → Bool → TokenBridge → Outcome (Unit {0}) (List Task)
handle_withdraw settings to amount withdraw_all bridge = elim settings.system_chain [
  | xdai ↦ elim bridge.state [
    | withdrawing w ↦ err tt
    | _ ↦ ok (start_task to amount withdraw_all ∷ [])
  ]
  | _ ↦ err tt
]

-- `Handler<StateChange>`
unfoldable pub handle_state_change : State → TokenBridge → TokenBridge
handle_state_change (ready_after f) bridge =
    if state_eq bridge.state f then record bridge { state = ready_after f } else bridge
handle_state_change ready bridge = record bridge { state = ready }
handle_state_change depositing bridge = record bridge { state = depositing }
handle_state_change (withdrawing w) bridge = record bridge { state = withdrawing w }

-- `Handler<DetailedStateChange>`
unfoldable pub handle_detailed : DetailedBridgeState → TokenBridge → TokenBridge
handle_detailed new_state bridge = record bridge { detailed_state = new_state }

-- What a message leads to: the bridge, what it sends to itself, and what it spawns.
unfoldable pub handle :
    BridgeSettings → Instant → Message → TokenBridge → TokenBridge × List Message × List Task
unfolding handle_tick handle_withdraw handle_state_change handle_detailed
handle settings now tick bridge =
    let (sent, tasks) = handle_tick settings now bridge in (bridge, sent, tasks)
handle settings now (withdraw to amount withdraw_all) bridge =
    elim (handle_withdraw settings to amount withdraw_all bridge) [
      | ok tasks ↦ (bridge, [], tasks)
      | err e ↦ (bridge, [], [])
      | panic ↦ (bridge, [], [])
    ]
handle settings now (changed new_state) bridge = (handle_state_change new_state bridge, [], [])
handle settings now (detailed new_state) bridge = (handle_detailed new_state bridge, [], [])

-- A future run to its end, or to its panic.
unfoldable pub run_task : Num256 → Answers → Instant → Task → Done
unfolding deposit withdraw_step start_withdraw rescue_xdai
run_task num answers now (deposit_task bridge) = deposit num answers bridge
run_task num answers now (withdraw_task w) = withdraw_step num answers w
run_task num answers now (start_task to amount withdraw_all) =
    start_withdraw num answers now to amount withdraw_all
run_task num answers now rescue_task = rescue_xdai num answers

-- The messages among what a future does.
abbrev pub messages_of : List Effect → List Message
messages_of [] = []
messages_of (state_change s ∷ effects) = changed s ∷ messages_of effects
messages_of (detailed_state_change d ∷ effects) = detailed d ∷ messages_of effects
messages_of (dai_to_xdai_bridge n ∷ effects) = messages_of effects
messages_of (xdai_to_dai_bridge n ∷ effects) = messages_of effects
messages_of (eth_to_dai_swap n ∷ effects) = messages_of effects
messages_of (dai_to_eth_swap n ∷ effects) = messages_of effects
messages_of (eth_transfer to n ∷ effects) = messages_of effects

-- `Handler<GetBridgeStatus>` and `Handler<GetBridge>`
pub record BridgeStatus : Type 0 where
  pub reserve_amount : ℕ
  pub minimum_deposit : ℕ
  pub withdraw_chain : SystemChain
  pub state : DetailedBridgeState

abbrev get_bridge_status : BridgeSettings → TokenBridge → BridgeStatus
get_bridge_status settings bridge = record {
  reserve_amount = bridge.reserve_amount;
  minimum_deposit = bridge.minimum_to_exchange;
  withdraw_chain = settings.withdraw_chain;
  state = bridge.detailed_state;
}

unfoldable pub reserve_in_wei : TokenBridge → ℕ
reserve_in_wei bridge = eth_to_wei bridge.reserve_amount
