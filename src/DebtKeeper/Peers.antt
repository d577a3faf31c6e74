-- ===== src/DebtKeeper/Peers.antt =====
-- rita/src/rita_common/debt_keeper/mod.rs: the entries of different peers do not disturb each other.
use althea_rs.Prelude.{◌≡◌, true, some, List, [], ◌∷◌, if◌then◌else◌, arith, Bool-cases, inl, inr}
use althea_rs.Prelude.Int.{ℤ, pos, ◌+ℤ◌, int_laws}
use althea_rs.Prelude.Maps.{get, get-insert, get-eq, insert-KeysDistinct, KeysDistinct}
use althea_rs.Prelude.Outcome.{ok}
use althea_rs.Num256.{Num256, int256-cases}
use althea_rs.AltheaTypes.{Identity, identity_eq, identity_key}
use althea_rs.DebtKeeper.Peer.{Method, traffic_update}
use althea_rs.DebtKeeper.Keeper.{DebtKeeper, Traffic, debt_data_or_new, on_peer, traffic_updates}

-- After a method has run on a peer, identities equal to it find the new data, made from the old
-- entry or from a new one, and all others find what they found before; no peer gets two entries.
pub get-on_peer :
    {A : Type 0} (i j : Identity) (method : Method A) (k : DebtKeeper)
    → KeysDistinct k.debt_data
    → let k' = (on_peer i method k).1 in
      (get j k'.debt_data ≡ (
        if identity_eq i j
        then some (method (debt_data_or_new i k.debt_data)).1
        else get j k.debt_data))
      × KeysDistinct k'.debt_data
unfolding on_peer
get-on_peer i j method k h =
    let d = (method (debt_data_or_new i k.debt_data)).1 in
    (get-insert i j d k.debt_data, insert-KeysDistinct i d k.debt_data h)

-- What the traffic of one round adds to the debt with one peer.
unfoldable pub traffic_of : Identity → List Traffic → ℤ
traffic_of j [] = pos 0
traffic_of j (t ∷ ts) =
    if identity_eq t.from j then t.amount +ℤ traffic_of j ts else traffic_of j ts

pub debt_of : Identity → DebtKeeper → ℤ
debt_of j k = (debt_data_or_new j k.debt_data).debt

module _ (num : Num256) where
  debt_of-on_peer :
      (j : Identity) (t : Traffic) (k : DebtKeeper)
      → (on_peer t.from (traffic_update num t.amount) k).0 ≡ ok tt
      → debt_of j (on_peer t.from (traffic_update num t.amount) k).1
        ≡ (if identity_eq t.from j then debt_of t.from k +ℤ t.amount else debt_of j k)
  unfolding on_peer debt_of traffic_update debt_data_or_new
  debt_of-on_peer j t k h =
      let d = debt_data_or_new t.from k.debt_data in
      ground (
        arith,
        get-insert t.from j (traffic_update num t.amount d).1 k.debt_data,
        int256-cases num (d.debt +ℤ t.amount),
      )

  debt_of-eq :
      (i j : Identity) (k : DebtKeeper) → identity_eq i j ≡ true → debt_of i k ≡ debt_of j k
  unfolding debt_of debt_data_or_new
  debt_of-eq i j k h = rw (get-eq i j k.debt_data h, debt_of, debt_data_or_new)

  traffic_updates-cons :
      (t : Traffic) (ts : List Traffic) (k : DebtKeeper)
      → (traffic_updates num (t ∷ ts) k).0 ≡ ok tt
      → let (r, k') = on_peer t.from (traffic_update num t.amount) k in
        (r ≡ ok tt) × (traffic_updates num (t ∷ ts) k ≡ traffic_updates num ts k')
  unfolding traffic_updates
  traffic_updates-cons t ts k h = ground arith

  -- A traffic update that does not panic adds to the debt with every identity the sum of the
  -- amounts that the message lists under it, however often it is listed and in whatever order.
  pub debt_of-traffic_updates :
      (j : Identity) (ts : List Traffic) (k : DebtKeeper)
      → (traffic_updates num ts k).0 ≡ ok tt
      → debt_of j (traffic_updates num ts k).1 ≡ debt_of j k +ℤ traffic_of j ts
  unfolding traffic_of
  debt_of-traffic_updates j [] k h = unfold traffic_updates in omega int_laws
  debt_of-traffic_updates j (t ∷ ts) k h =
      let (first, same) = traffic_updates-cons t ts k h in
      let k' = (on_peer t.from (traffic_update num t.amount) k).1 in
      let rest = debt_of-traffic_updates j ts k' (rw same at h) in
      rw same (
        rw rest (
          rw (debt_of-on_peer j t k first) (elim (Bool-cases (identity_eq t.from j)) [
            | inl mine ↦ rw (mine, debt_of-eq t.from j k mine) (omega int_laws)
            | inr other ↦ rw other (omega int_laws)
          ])))
