-- ===== src/TokenBridge/Wanted.antt =====
-- rita/src/rita_common/token_bridge/mod.rs: the addresses that the futures name, against those that
-- are wanted.
use althea_rs.Prelude.{ℕ, ◌≡◌, refl, Bool, true, List, [], ◌∷◌, ◌++◌, ◌&&◌, arith, ◌∙◌}
use althea_rs.Prelude.Outcome.{ok, err, panic}
use althea_rs.Num256.{Num256}
use althea_rs.Time.{Instant}
use althea_rs.TokenBridge.Bridge.{
  Withdrawal, State, ready, ready_after, depositing, withdrawing, TokenBridge, Answers, Effect,
  state_change, detailed_state_change, dai_to_xdai_bridge, xdai_to_dai_bridge, eth_to_dai_swap,
  dai_to_eth_swap, eth_transfer,
}
use althea_rs.TokenBridge.Futures.{
  Done, and_then, finally, rescue_dai, deposit_eth, exchange, bridge_bought, deposit, withdraw_step,
  advance, send_eth, start_withdraw, rescue_xdai,
}
use althea_rs.TokenBridge.Handlers.{
  Task, deposit_task, withdraw_task, start_task, rescue_task, Message, tick, withdraw, changed,
  detailed, run_task, messages_of,
}

-- No transfer to an address that is not wanted.
abbrev pub sends_only : (ℕ → Bool) → List Effect → Bool
sends_only wanted [] = true
sends_only wanted (eth_transfer to n ∷ effects) = wanted to && sends_only wanted effects
sends_only wanted (state_change s ∷ effects) = sends_only wanted effects
sends_only wanted (detailed_state_change d ∷ effects) = sends_only wanted effects
sends_only wanted (dai_to_xdai_bridge n ∷ effects) = sends_only wanted effects
sends_only wanted (xdai_to_dai_bridge n ∷ effects) = sends_only wanted effects
sends_only wanted (eth_to_dai_swap n ∷ effects) = sends_only wanted effects
sends_only wanted (dai_to_eth_swap n ∷ effects) = sends_only wanted effects

module _ (wanted : ℕ → Bool) where
  -- What is wanted of a state, a message, an effect and a future.
  abbrev pub from_state : State → Bool
  from_state ready = true
  from_state (ready_after f) = true
  from_state depositing = true
  from_state (withdrawing w) = wanted w.to

  abbrev pub from_message : Message → Bool
  from_message tick = true
  from_message (withdraw to amount withdraw_all) = wanted to
  from_message (changed s) = from_state s
  from_message (detailed d) = true

  abbrev pub from_effect : Effect → Bool
  from_effect (state_change s) = from_state s
  from_effect (eth_transfer to n) = wanted to
  from_effect (detailed_state_change d) = true
  from_effect (dai_to_xdai_bridge n) = true
  from_effect (xdai_to_dai_bridge n) = true
  from_effect (eth_to_dai_swap n) = true
  from_effect (dai_to_eth_swap n) = true

  abbrev pub from_task : Task → Bool
  from_task (deposit_task bridge) = true
  from_task (withdraw_task w) = wanted w.to
  from_task (start_task to amount withdraw_all) = wanted to
  from_task rescue_task = true

abbrev pub all : {A : Type 0} → (A → Bool) → List A → Bool
all p [] = true
all p (x ∷ xs) = p x && all p xs

pub all-append :
    {A : Type 0} (p : A → Bool) (xs ys : List A) → all p (xs ++ ys) ≡ (all p xs && all p ys)
all-append p [] ys = refl
all-append p (x ∷ xs) ys = ground (arith, all-append p xs ys)

module _ (wanted : ℕ → Bool) where
  pub all-messages_of :
      (effects : List Effect)
      → all (from_effect wanted) effects ≡ true
      → all (from_message wanted) (messages_of effects) ≡ true
  all-messages_of [] h = refl
  all-messages_of (state_change s ∷ effects) h = ground (arith, all-messages_of effects)
  all-messages_of (detailed_state_change d ∷ effects) h = ground (arith, all-messages_of effects)
  all-messages_of (dai_to_xdai_bridge n ∷ effects) h = all-messages_of effects h
  all-messages_of (xdai_to_dai_bridge n ∷ effects) h = all-messages_of effects h
  all-messages_of (eth_to_dai_swap n ∷ effects) h = all-messages_of effects h
  all-messages_of (dai_to_eth_swap n ∷ effects) h = all-messages_of effects h
  all-messages_of (eth_transfer to n ∷ effects) h = ground (arith, all-messages_of effects)

  pub all-sends_only :
      (effects : List Effect)
      → all (from_effect wanted) effects ≡ true
      → sends_only wanted effects ≡ true
  all-sends_only [] h = refl
  all-sends_only (state_change s ∷ effects) h = ground (arith, all-sends_only effects)
  all-sends_only (detailed_state_change d ∷ effects) h = all-sends_only effects h
  all-sends_only (dai_to_xdai_bridge n ∷ effects) h = all-sends_only effects h
  all-sends_only (xdai_to_dai_bridge n ∷ effects) h = all-sends_only effects h
  all-sends_only (eth_to_dai_swap n ∷ effects) h = all-sends_only effects h
  all-sends_only (dai_to_eth_swap n ∷ effects) h = all-sends_only effects h
  all-sends_only (eth_transfer to n ∷ effects) h = ground (arith, all-sends_only effects)

  module _ (num : Num256) (answers : Answers) where
    rescue_dai-effects :
        (minimum : ℕ) → all (from_effect wanted) (rescue_dai answers minimum).1 ≡ true
    unfolding rescue_dai
    rescue_dai-effects minimum = ground arith

    exchange-effects :
        (price balance reserve minimum : ℕ)
        → all (from_effect wanted) (exchange num answers price balance reserve minimum).1 ≡ true
    unfolding exchange bridge_bought
    exchange-effects price balance reserve minimum = ground arith

    deposit_eth-effects :
        (bridge : TokenBridge) → all (from_effect wanted) (deposit_eth num answers bridge).1 ≡ true
    unfolding deposit_eth
    deposit_eth-effects bridge = grind (arith, exchange-effects)

    withdraw_step-effects :
        (w : Withdrawal)
        → wanted w.to ≡ true
        → all (from_effect wanted) (withdraw_step num answers w).1 ≡ true
    unfolding withdraw_step advance send_eth
    withdraw_step-effects w h = ground arith

    and_then-effects :
        (first later : Done)
        → all (from_effect wanted) first.1 ≡ true
        → all (from_effect wanted) later.1 ≡ true
        → all (from_effect wanted) (and_then first later).1 ≡ true
    and_then-effects (ok u, xs) (r, ys) h g = all-append (from_effect wanted) xs ys ∙ rw (h, g) refl
    and_then-effects (err e, xs) later h g = h
    and_then-effects (panic, xs) later h g = h

    finally-effects :
        (s : State) (d : Done)
        → from_state wanted s ≡ true
        → all (from_effect wanted) d.1 ≡ true
        → all (from_effect wanted) (finally (state_change s) d).1 ≡ true
    finally-effects s (ok u, xs) h g =
        all-append (from_effect wanted) xs (state_change s ∷ []) ∙ rw (h, g) refl
    finally-effects s (err e, xs) h g =
        all-append (from_effect wanted) xs (state_change s ∷ []) ∙ rw (h, g) refl
    finally-effects s (panic, xs) h g = g

    pub run_task-effects :
        (now : Instant) (t : Task)
        → from_task wanted t ≡ true
        → all (from_effect wanted) (run_task num answers now t).1 ≡ true
    unfolding run_task deposit start_withdraw rescue_xdai
    run_task-effects now (deposit_task bridge) h =
        finally-effects (ready_after depositing)
          (and_then (rescue_dai answers bridge.minimum_stranded_dai_transfer)
            (deposit_eth num answers bridge))
          refl
          (and_then-effects (rescue_dai answers bridge.minimum_stranded_dai_transfer)
            (deposit_eth num answers bridge)
            (rescue_dai-effects bridge.minimum_stranded_dai_transfer) (deposit_eth-effects bridge))
    run_task-effects now (withdraw_task w) h = withdraw_step-effects w h
    run_task-effects now (start_task to amount withdraw_all) h = ground arith
    run_task-effects now rescue_task h = ground arith
