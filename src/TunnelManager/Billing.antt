-- ===== src/TunnelManager/Billing.antt =====
-- rita/src/rita_common/tunnel_manager/mod.rs and debt_keeper/mod.rs: the tunnels after the manager has
-- handled what a round of `DebtKeeper` sends it.
use althea_rs.Prelude.{
  ℕ, ◌≡◌, refl, ap, ◌∙◌, sym, true, false, Bool-cases, inl, inr, Option, none, some, List, [], ◌∷◌,
  ◌++◌, arith, map,
}
use althea_rs.Prelude.Maps.{get, get-eq, KeysDistinct}
use althea_rs.Prelude.Outcome.{ok}
use althea_rs.AltheaTypes.{Identity, identity_key}
use althea_rs.Settings.{PaymentSettings}
use althea_rs.TunnelManager.Tunnel.{
  Tunnel, PaymentState, TunnelChange, payment_overdue, paid_on_time, overdue, paid,
}
use althea_rs.TunnelManager.Manager.{Tunnels, Call, tunnels_of}
use althea_rs.TunnelManager.Payment.{
  Shaper, Shaping, change_tunnel, change_tunnels, tunnel_state_changes,
}
use althea_rs.DebtKeeper.Peer.{NodeDebtData, DebtAction, suspend_tunnel, open_tunnel, make_payment}
use althea_rs.DebtKeeper.Keeper.{DebtData, tunnel_change}
use althea_rs.DebtKeeper.Rounds.{answer, changes_due}
use althea_rs.TunnelManager.Effects.{after_change, after_changes, tunnel_state_changes-IsChanged}

-- A tunnel after the answer of `DebtKeeper` to its peer: overdue, or paid, where an overdue one
-- loses its limit, or left alone while a payment is made.
abbrev pub billed : DebtAction → Tunnel → Tunnel
billed suspend_tunnel t = record t { payment_state = overdue }
billed open_tunnel t = elim t.payment_state [
  | paid ↦ t
  | overdue ↦ record t { payment_state = paid; speed_limit = none }
]
billed (make_payment to amount) t = t

change_tunnel-suspend :
    (s : PaymentState) (t : Tunnel)
    → t.payment_state ≡ s
    → (change_tunnel payment_overdue t).2 ≡ billed suspend_tunnel t
unfolding change_tunnel
change_tunnel-suspend paid t h = rw (h, change_tunnel) refl
change_tunnel-suspend overdue t h =
    rw (h, change_tunnel) (ap (λ s. record t { payment_state = s }) h)

change_tunnel-open :
    (s : PaymentState) (t : Tunnel)
    → t.payment_state ≡ s
    → (change_tunnel paid_on_time t).2 ≡ billed open_tunnel t
unfolding change_tunnel
change_tunnel-open paid t h = ground arith
change_tunnel-open overdue t h = ground arith

change_tunnels-suspend :
    (ts : List Tunnel) → (change_tunnels payment_overdue ts).2 ≡ map (billed suspend_tunnel) ts
unfolding change_tunnels change_tunnel
change_tunnels-suspend [] = refl
change_tunnels-suspend (t ∷ ts) =
    rw (change_tunnel-suspend t.payment_state t refl, change_tunnels-suspend ts) refl

change_tunnels-open :
    (ts : List Tunnel) → (change_tunnels paid_on_time ts).2 ≡ map (billed open_tunnel) ts
unfolding change_tunnels change_tunnel
change_tunnels-open [] = refl
change_tunnels-open (t ∷ ts) =
    rw (change_tunnel-open t.payment_state t refl, change_tunnels-open ts) refl

-- An answer as a change of the tunnels, and what none of the debts names.
abbrev pub billed_as : PaymentSettings → Identity → Option NodeDebtData → List Tunnel → List Tunnel
billed_as settings i none ts = ts
billed_as settings i (some d) ts = map (billed (answer settings i d)) ts

map-id : (ts : List Tunnel) → map (λ t. t) ts ≡ ts
map-id [] = refl
map-id (t ∷ ts) = ap (λ us. t ∷ us) (map-id ts)

after_changes-append :
    (i : Identity) (xs ys : List TunnelChange) (ts : List Tunnel)
    → after_changes i (xs ++ ys) ts ≡ after_changes i ys (after_changes i xs ts)
after_changes-append i [] ys ts = refl
after_changes-append i (x ∷ xs) ys ts = after_changes-append i xs ys (after_change i x ts)

tunnel_change-same :
    (i j : Identity) (a : DebtAction) (ts : List Tunnel)
    → identity_key.eq j i ≡ true
    → after_changes i (tunnel_change j a) ts ≡ map (billed a) ts
unfolding tunnel_change
tunnel_change-same i j suspend_tunnel ts same = rw same (change_tunnels-suspend ts)
tunnel_change-same i j open_tunnel ts same = rw same (change_tunnels-open ts)
tunnel_change-same i j (make_payment to amount) ts same = sym (map-id ts)

tunnel_change-other :
    (i j : Identity) (a : DebtAction) (ts : List Tunnel)
    → identity_key.eq j i ≡ false
    → after_changes i (tunnel_change j a) ts ≡ ts
unfolding tunnel_change
tunnel_change-other i j suspend_tunnel ts other = rw other refl
tunnel_change-other i j open_tunnel ts other = rw other refl
tunnel_change-other i j (make_payment to amount) ts other = refl

-- The identity in an answer names the peer that is paid, and no more.
billed-answer :
    (settings : PaymentSettings) (i j : Identity) (d : NodeDebtData) (ts : List Tunnel)
    → map (billed (answer settings j d)) ts ≡ map (billed (answer settings i d)) ts
unfolding answer
billed-answer settings i j d [] = refl
billed-answer settings i j d (t ∷ ts) = ground (arith, billed-answer settings i j d ts)

after_changes-due :
    (settings : PaymentSettings) (i : Identity) (debts : DebtData) (ts : List Tunnel)
    → KeysDistinct debts
    → after_changes i (changes_due settings debts) ts ≡ billed_as settings i (get i debts) ts
unfolding changes_due get
after_changes-due settings i [] ts distinct = refl
after_changes-due settings i ((j, d) ∷ debts) ts distinct =
    let a = answer settings j d in
    let parts = after_changes-append i (tunnel_change j a) (changes_due settings debts) ts in
    elim (Bool-cases (identity_key.eq j i)) [
      | inl same ↦
          parts
          ∙ after_changes-due settings i debts (after_changes i (tunnel_change j a) ts) distinct.1
          ∙ (rw (rw (get-eq j i debts same) at distinct.0, same)
              (tunnel_change-same i j a ts same ∙ billed-answer settings i j d ts))
      | inr other ↦
          parts
          ∙ after_changes-due settings i debts (after_changes i (tunnel_change j a) ts) distinct.1
          ∙ (rw other
              (ap (billed_as settings i (get i debts)) (tunnel_change-other i j a ts other)))
    ]

-- When the manager has handled the changes that a round of `DebtKeeper` sends for debts of distinct
-- identities, the tunnels of an identity are as the answer to its debt says: overdue if the peer is
-- to be suspended, paid and without a limit from the time they were overdue if it is not, untouched
-- if it is to be paid; and those of an identity without a debt are untouched.
pub tunnel_state_changes-due :
    (shaper : Shaper) (free_tier : ℕ) (settings : PaymentSettings) (i : Identity) (debts : DebtData)
    (m : Tunnels) (made : List Call) (shaped : List Shaping) (n : Tunnels)
    → KeysDistinct debts
    → tunnel_state_changes shaper free_tier (changes_due settings debts) m ≡ ok (made, shaped, n)
    → tunnels_of i n ≡ billed_as settings i (get i debts) (tunnels_of i m)
tunnel_state_changes-due shaper free_tier settings i debts m made shaped n distinct done =
    rw done at (tunnel_state_changes-IsChanged shaper free_tier i (changes_due settings debts) m)
    ∙ after_changes-due settings i debts (tunnels_of i m) distinct
