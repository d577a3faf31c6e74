-- ===== src/TokenBridge/Trace.antt =====
-- rita/src/rita_common/token_bridge/mod.rs: where the bridge can send money.
use althea_rs.Prelude.{ℕ, ◌≡◌, refl, Bool, true, List, [], ◌∷◌, ◌&&◌, arith, ◌∙◌}
use althea_rs.Num256.{Num256}
use althea_rs.Time.{Instant}
use althea_rs.TokenBridge.Bridge.{
  State, ready, ready_after, depositing, withdrawing, TokenBridge, default_bridge,
}
use althea_rs.TokenBridge.Futures.{after}
use althea_rs.TokenBridge.Handlers.{
  BridgeSettings, Task, Message, tick, withdraw, changed, detailed, handle, handle_tick,
  handle_withdraw, handle_state_change, handle_detailed, xdai_bridge, run_task, messages_of,
}
use althea_rs.TokenBridge.Mailbox.{
  World, Step, ticked, asked, handled, finished, Reach, started, next,
}
use althea_rs.TokenBridge.Wanted.{
  sends_only, from_state, from_message, from_effect, from_task, all, all-append, all-messages_of,
  all-sends_only, run_task-effects,
}

module _ (wanted : ℕ → Bool) where
  -- A message that names wanted addresses only leads to such a state, messages and futures.
  abbrev IsWanted : TokenBridge × List Message × List Task → Type 0
  IsWanted (bridge, messages, tasks) =
      (from_state wanted bridge.state ≡ true)
      × (all (from_message wanted) messages ≡ true)
      × (all (from_task wanted) tasks ≡ true)

  xdai_bridge-wanted :
      (now : Instant) (bridge : TokenBridge) (s : State)
      → from_state wanted s ≡ true
      → (all (from_message wanted) (xdai_bridge now bridge s).0 ≡ true)
        × (all (from_task wanted) (xdai_bridge now bridge s).1 ≡ true)
  unfolding xdai_bridge
  xdai_bridge-wanted now bridge ready h = (refl, refl)
  xdai_bridge-wanted now bridge (ready_after f) h = (refl, refl)
  xdai_bridge-wanted now bridge depositing h = (refl, refl)
  xdai_bridge-wanted now bridge (withdrawing w) h = ground arith

  handle-IsWanted :
      (settings : BridgeSettings) (now : Instant) (msg : Message) (bridge : TokenBridge)
      → from_state wanted bridge.state ≡ true
      → from_message wanted msg ≡ true
      → IsWanted (handle settings now msg bridge)
  unfolding handle handle_tick handle_withdraw handle_state_change handle_detailed
  handle-IsWanted settings now tick bridge h g =
      let ticking = xdai_bridge-wanted now bridge bridge.state h in
      ground (arith, h, ticking.0, ticking.1)
  handle-IsWanted settings now (withdraw to amount withdraw_all) bridge h g = ground (arith, h, g)
  handle-IsWanted settings now (changed ready) bridge h g = (refl, refl, refl)
  handle-IsWanted settings now (changed (ready_after f)) bridge h g = ground (arith, h)
  handle-IsWanted settings now (changed depositing) bridge h g = (refl, refl, refl)
  handle-IsWanted settings now (changed (withdrawing w)) bridge h g = (g, refl, refl)
  handle-IsWanted settings now (detailed d) bridge h g = (h, refl, refl)

  -- The same of a whole world.
  abbrev IsSafe : World → Type 0
  IsSafe w =
      (from_state wanted w.bridge.state ≡ true)
      × (all (from_message wanted) w.mailbox ≡ true)
      × (all (from_task wanted) w.tasks ≡ true)
      × (all (from_effect wanted) w.log ≡ true)

  Step-IsSafe : {num : Num256} {v w : World} → Step num wanted v w → IsSafe v → IsSafe w
  Step-IsSafe (ticked w) (s, m, t, l) =
      (s, all-append (from_message wanted) w.mailbox (tick ∷ []) ∙ rw m refl, t, l)
  Step-IsSafe (asked to amount withdraw_all w h) (s, m, t, l) = (
    s,
    all-append (from_message wanted) w.mailbox (withdraw to amount withdraw_all ∷ [])
        ∙ rw (m, h) refl,
    t,
    l,
  )
  Step-IsSafe (handled settings now bridge msg rest tasks log) (s, m, t, l) =
      let first : from_message wanted msg ≡ true = ground (arith, m) in
      let others : all (from_message wanted) rest ≡ true = ground (arith, m) in
      let led = handle-IsWanted settings now msg bridge s first in
      (
        led.0,
        all-append (from_message wanted) rest (handle settings now msg bridge).1
            ∙ rw (others, led.1) refl,
        all-append (from_task wanted) tasks (handle settings now msg bridge).2 ∙ rw (t, led.2) refl,
        l,
      )
  Step-IsSafe {num = num} (finished answers now bridge mailbox task before after log) (s, m, t, l) =
      let split = all-append (from_task wanted) before (task ∷ after) in
      let this : from_task wanted task ≡ true = ground (arith, t, split) in
      let kept : (all (from_task wanted) before && all (from_task wanted) after) ≡ true =
        ground (arith, t, split) in
      let effects = (run_task num answers now task).1 in
      let done = run_task-effects wanted num answers now task this in
      (
        s,
        all-append (from_message wanted) mailbox (messages_of effects)
            ∙ rw (m, all-messages_of wanted effects done) refl,
        all-append (from_task wanted) before after ∙ kept,
        all-append (from_effect wanted) log effects ∙ rw (l, done) refl,
      )

  Reach-IsSafe : {num : Num256} {w : World} → Reach num wanted w → IsSafe w
  unfolding default_bridge
  Reach-IsSafe started = (refl, refl, refl, refl)
  Reach-IsSafe (next r step) = Step-IsSafe step (Reach-IsSafe r)

  -- If every withdrawal that arrives is to a wanted address, then the bridge never sends ether to any
  -- other address, in whatever order messages arrive and are handled and futures end, and whatever the
  -- settings, the full nodes and the exchange answer.
  pub Reach-sends_only :
      {num : Num256} {w : World} → Reach num wanted w → sends_only wanted w.log ≡ true
  Reach-sends_only {w = w} r = all-sends_only wanted w.log (Reach-IsSafe r).3
