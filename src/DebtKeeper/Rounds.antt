-- ===== src/DebtKeeper/Rounds.antt =====
-- rita/src/rita_common/debt_keeper/mod.rs: a whole round of `SendUpdate` over all the peers.
use mathlib.Core.List.{append-nil, append_assoc}
use althea_rs.Prelude.{
  ◌≡◌, refl, sym, ap, ◌∙◌, Bool, false, Option, none, some, List, [], ◌∷◌, ◌++◌, ◌==◌, map, All,
  if◌then◌else◌, arith,
}
use althea_rs.Prelude.Int.{pos_part, ltb_ℤ, ◌<ℤ◌}
use althea_rs.Prelude.Maps.{get, insert, get-insert_ne, get-insert_self, KeysDistinct}
use althea_rs.Prelude.Outcome.{ok, err}
use althea_rs.Num256.{Num256}
use althea_rs.AltheaTypes.{Identity, PaymentTx, identity_key, identity_eq_refl, identity_eq_cong}
use althea_rs.Settings.{PaymentSettings}
use althea_rs.Time.{Instant}
use althea_rs.DebtKeeper.Peer.{
  DebtAction, suspend_tunnel, open_tunnel, make_payment, no_mesh_ip, NodeDebtData,
}
use althea_rs.DebtKeeper.Update.{send_update}
use althea_rs.DebtKeeper.Flight.{InFlight}
use althea_rs.DebtKeeper.Decision.{
  IsValid, IsInRange, limited, send_update-Decides, send_update-starts,
}
use althea_rs.TunnelManager.Tunnel.{TunnelChange}
use althea_rs.DebtKeeper.Keeper.{
  DebtData, DebtKeeper, tunnel_change, on_peer, debt_data_or_new, update_peers, handle_send_update,
  save_if_needed,
}

-- What a round answers to one peer.
unfoldable pub answer : PaymentSettings → Identity → NodeDebtData → DebtAction
answer settings ident d =
    if ltb_ℤ d.debt settings.close_threshold
    then (if d.incoming_payments == 0 then suspend_tunnel else open_tunnel)
    else (if ltb_ℤ settings.pay_threshold d.debt
        then (if d.payment_in_flight
            then open_tunnel
            else make_payment ident (pos_part (limited settings d.debt)))
        else open_tunnel)

abbrev payment_of : Identity → DebtAction → List PaymentTx
payment_of our_id (make_payment to amount) =
    record { to = to; from = our_id; amount = amount; txid = none } ∷ []
payment_of our_id suspend_tunnel = []
payment_of our_id open_tunnel = []

-- The payments and the tunnel changes of a round, peer by peer.
pub payments_due : PaymentSettings → Identity → DebtData → List PaymentTx
payments_due settings our_id [] = []
payments_due settings our_id ((i, d) ∷ m) =
    payment_of our_id (answer settings i d) ++ payments_due settings our_id m

unfoldable pub changes_due : PaymentSettings → DebtData → List TunnelChange
changes_due settings [] = []
changes_due settings ((i, d) ∷ m) = tunnel_change i (answer settings i d) ++ changes_due settings m

-- Every entry of the first map is found in the second.
abbrev AllFound : DebtData → DebtData → Type 0
AllFound [] k = Unit
AllFound ((i, d) ∷ m) k = (get i k ≡ some d) × AllFound m k

AllFound-insert :
    (i : Identity) (d : NodeDebtData) (m k : DebtData)
    → get i m ≡ none
    → AllFound m k
    → AllFound m (insert i d k)
unfolding get
AllFound-insert i d [] k h f = tt
AllFound-insert i d ((j, e) ∷ m) k h f = ground (
  arith,
  AllFound-insert i d m k,
  get-insert_ne i j d k,
  identity_eq_refl i,
  identity_eq_cong i j i,
)

AllFound-cons :
    (i : Identity) (d : NodeDebtData) (m k : DebtData)
    → get i m ≡ none
    → AllFound m k
    → AllFound m ((i, d) ∷ k)
unfolding get
AllFound-cons i d [] k h f = tt
AllFound-cons i d ((j, e) ∷ m) k h f =
    ground (arith, AllFound-cons i d m k, identity_eq_refl i, identity_eq_cong i j i)

AllFound-self : (m : DebtData) → KeysDistinct m → AllFound m m
unfolding get
AllFound-self [] h = tt
AllFound-self ((i, d) ∷ m) h =
    (ground (arith, identity_eq_refl i), AllFound-cons i d m m h.0 (AllFound-self m h.1))

module _ (num : Num256) (settings : PaymentSettings) (now : Instant) (our_id : Identity) where
  send_update-answer :
      (ident : Identity) (d : NodeDebtData)
      → IsValid settings
      → settings.fudge_factor ≡ 0
      → IsInRange settings d
      → (send_update num settings now ident d).0 ≡ ok (answer settings ident d)
  unfolding answer
  send_update-answer ident d v nofudge r =
      let decided = send_update-Decides num settings now ident d v r nofudge in
      ground (arith, decided.suspends, decided.forgives, decided.pays, decided.waits, decided.rests)

  -- One round of the loop, by what the update of the peer answers.
  update_peers-cons :
      (i : Identity) (rest : List Identity) (changes : List TunnelChange) (k : DebtKeeper)
      (a : DebtAction)
      → let (r, k') = on_peer i (send_update num settings now i) k in
        let after =
          update_peers num settings now (some our_id) rest (changes ++ tunnel_change i a) k' in
        let all = update_peers num settings now (some our_id) (i ∷ rest) changes k in
        r ≡ ok a → (all.0 ≡ after.0) × (all.1 ≡ payment_of our_id a ++ after.1)
  unfolding update_peers tunnel_change
  update_peers-cons i rest changes k suspend_tunnel e = rw (e, update_peers) (refl, refl)
  update_peers-cons i rest changes k open_tunnel e = rw (e, update_peers) (refl, refl)
  update_peers-cons i rest changes k (make_payment to amount) e =
      rw (append-nil, e, update_peers) (refl, refl)

  update_peers-due :
      (m : DebtData) (changes : List TunnelChange) (k : DebtKeeper)
      → IsValid settings
      → settings.fudge_factor ≡ 0
      → All (λ e. IsInRange settings e.1) m
      → KeysDistinct m
      → AllFound m k.debt_data
      → let (r, sent, last) =
          update_peers num settings now (some our_id) (map (λ e. e.0) m) changes k in
        (r ≡ ok (changes ++ changes_due settings m)) × (sent ≡ payments_due settings our_id m)
  unfolding changes_due payments_due on_peer debt_data_or_new
  update_peers-due [] changes k v nofudge r h f =
      unfold update_peers in (ap ok (sym (append-nil changes)), refl)
  update_peers-due ((i, d) ∷ m) changes k v nofudge r h f =
      let a = answer settings i d in
      let (o, k') = on_peer i (send_update num settings now i) k in
      let answered : o ≡ ok a = ground (arith, f.0, send_update-answer i d v nofudge r.0) in
      let step = update_peers-cons i (map (λ e. e.0) m) changes k a answered in
      let found =
        AllFound-insert i (send_update num settings now i (debt_data_or_new i k.debt_data)).1 m
          k.debt_data h.0 f.1 in
      let rest = update_peers-due m (changes ++ tunnel_change i a) k' v nofudge r.1 h.1 found in
      (
        step.0 ∙ rest.0 ∙ ap ok (append_assoc changes (tunnel_change i a) (changes_due settings m)),
        step.1 ∙ ap (λ s. payment_of our_id a ++ s) rest.1,
      )

  -- With the thresholds that the keeper asserts, no fudge factor, representable sums and our
  -- identity at hand, a round succeeds whether or not saving does: it sends exactly the payments
  -- and the tunnel changes that the answers to the peers stand for, one answer for each peer.
  pub handle_send_update-due :
      (saves : Bool) (k : DebtKeeper)
      → IsValid settings
      → settings.fudge_factor ≡ 0
      → All (λ e. IsInRange settings e.1) k.debt_data
      → KeysDistinct k.debt_data
      → let (r, sent, last) = handle_send_update num settings now (some our_id) saves k in
        (r ≡ ok tt)
        × (sent.payments ≡ payments_due settings our_id k.debt_data)
        × (sent.tunnels ≡ some (changes_due settings k.debt_data))
  unfolding handle_send_update save_if_needed
  handle_send_update-due saves k v nofudge r h =
      let k' = save_if_needed now saves k in
      let same : k'.debt_data ≡ k.debt_data = ground arith in
      ground (
        arith,
        same,
        update_peers-due k.debt_data [] k' v nofudge r h (rw same (AllFound-self k.debt_data h)),
      )

module _ (num : Num256) (settings : PaymentSettings) (now : Instant) where
  -- Where our identity is not known, a peer that is first in the round and due a payment is marked
  -- as having one in flight, from now, though the round fails and sends no payment and no tunnel
  -- change: nothing pays it before the flight times out.
  pub handle_send_update-no_identity :
      (i : Identity) (d : NodeDebtData) (m : DebtData) (saves : Bool) (last_save : Option Instant)
      → IsValid settings
      → settings.fudge_factor ≡ 0
      → IsInRange settings d
      → settings.pay_threshold <ℤ d.debt
      → d.payment_in_flight ≡ false
      → let k : DebtKeeper = record { last_save = last_save; debt_data = (i, d) ∷ m } in
        let (r', sent, last) = handle_send_update num settings now none saves k in
        (r' ≡ err no_mesh_ip)
        × (sent.payments ≡ [])
        × (sent.tunnels ≡ none)
        × ((e : NodeDebtData) × (get i last.debt_data ≡ some e) × InFlight now e)
  unfolding handle_send_update save_if_needed update_peers on_peer debt_data_or_new get
  handle_send_update-no_identity i d m saves last_save v nofudge r due idle =
      let e = (send_update num settings now i d).1 in
      let decided = send_update-Decides num settings now i d v r nofudge in
      let started = send_update-starts num settings now i d v r nofudge due idle in
      let stored = get-insert_self i e ((i, d) ∷ m) in
      let self = identity_eq_refl i in
      (
        ground (arith, self, decided.pays),
        ground (arith, self, decided.pays),
        ground (arith, self, decided.pays),
        (e, ground (arith, self, stored, decided.pays), started),
      )
