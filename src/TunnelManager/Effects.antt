-- ===== src/TunnelManager/Effects.antt =====
-- rita/src/rita_common/tunnel_manager/mod.rs: the tunnels to one identity after `TunnelStateChange`.
use althea_rs.Prelude.{
  ℕ, ◌≡◌, refl, ap, ◌∙◌, sym, true, Bool-cases, Option-cases, inl, inr, none, some, List, [], ◌∷◌,
  if◌then◌else◌,
}
use althea_rs.Prelude.Maps.{get, insert, get-insert, get-eq}
use althea_rs.Prelude.Outcome.{Outcome, ok, err, panic, Outcome-cases}
use althea_rs.AltheaTypes.{Identity, identity_key}
use althea_rs.TunnelManager.Tunnel.{Tunnel, TunnelChange}
use althea_rs.TunnelManager.Manager.{Tunnels, Call, tunnels_of}
use althea_rs.TunnelManager.Payment.{
  Shaper, Shaping, change_tunnels, tunnel_state_change, tunnel_state_changes,
  tunnel_bw_limit_update,
}

-- The tunnels of one identity after one change, and after all.
abbrev pub after_change : Identity → TunnelChange → List Tunnel → List Tunnel
after_change i msg ts =
    if identity_key.eq msg.identity i then (change_tunnels msg.action ts).2 else ts

abbrev pub after_changes : Identity → List TunnelChange → List Tunnel → List Tunnel
after_changes i [] ts = ts
after_changes i (msg ∷ msgs) ts = after_changes i msgs (after_change i msg ts)

abbrev pub IsChanged :
    Identity → List Tunnel → Outcome (Unit {0}) (List Call × List Shaping × Tunnels) → Type 0
IsChanged i ts (ok (made, shaped, n)) = tunnels_of i n ≡ ts
IsChanged i ts (err e) = Unit
IsChanged i ts panic = Unit

tunnels_of-insert_at :
    (i j : Identity) (us : List Tunnel) (m : Tunnels)
    → tunnels_of i (insert j us m) ≡ (if identity_key.eq j i then us else tunnels_of i m)
tunnels_of-insert_at i j us m = elim (Bool-cases (identity_key.eq j i)) [
  | inl same ↦ rw (get-insert j i us m, same, tunnels_of) refl
  | inr other ↦ rw (get-insert j i us m, other, tunnels_of) refl
]

found_at :
    (i j : Identity) (ts : List Tunnel) (m : Tunnels)
    → identity_key.eq j i ≡ true
    → get j m ≡ some ts
    → tunnels_of i m ≡ ts
found_at i j ts m same there = rw (rw (get-eq j i m same) at there, tunnels_of) refl

after_change-found :
    (i : Identity) (msg : TunnelChange) (ts : List Tunnel) (m : Tunnels)
    → get msg.identity m ≡ some ts
    → tunnels_of i (insert msg.identity (change_tunnels msg.action ts).2 m)
      ≡ after_change i msg (tunnels_of i m)
after_change-found i msg ts m there = elim (Bool-cases (identity_key.eq msg.identity i)) [
  | inl same ↦
      tunnels_of-insert_at i msg.identity (change_tunnels msg.action ts).2 m
      ∙ rw same (
          sym
            (ap (λ us. (change_tunnels msg.action us).2) (found_at i msg.identity ts m same there)))
  | inr other ↦
      tunnels_of-insert_at i msg.identity (change_tunnels msg.action ts).2 m ∙ rw other refl
]

after_change-missing :
    (i : Identity) (msg : TunnelChange) (m : Tunnels)
    → get msg.identity m ≡ none
    → tunnels_of i m ≡ after_change i msg (tunnels_of i m)
unfolding change_tunnels
after_change-missing i msg m missing = elim (Bool-cases (identity_key.eq msg.identity i)) [
  | inl same ↦
      rw (same, rw (get-eq msg.identity i m same) at missing, tunnels_of, change_tunnels) refl
  | inr other ↦ rw other refl
]

tunnel_state_change-IsChanged :
    (shaper : Shaper) (free_tier : ℕ) (i : Identity) (msg : TunnelChange) (m : Tunnels)
    → IsChanged i (after_change i msg (tunnels_of i m)) (tunnel_state_change shaper free_tier msg m)
unfolding tunnel_state_change
tunnel_state_change-IsChanged shaper free_tier i msg m = elim (Option-cases (get msg.identity m)) [
  | inl missing ↦ rw (missing, tunnel_state_change) (after_change-missing i msg m missing)
  | inr (ts, there) ↦
      let changed = change_tunnels msg.action ts in
      let m' = insert msg.identity changed.2 m in
      let here = after_change-found i msg ts m there in
      elim (Bool-cases changed.1) [
        | inr same ↦ rw (there, same, tunnel_state_change) here
        | inl other ↦ elim (Outcome-cases (tunnel_bw_limit_update shaper free_tier m')) [
          | inl crash ↦ rw (there, other, crash, tunnel_state_change) tt
          | inr (inl (e, fails)) ↦ rw (there, other, fails, tunnel_state_change) here
          | inr (inr (r, sets)) ↦ rw (there, other, sets, tunnel_state_change) here
        ]
      ]
]

pub tunnel_state_changes-IsChanged :
    (shaper : Shaper) (free_tier : ℕ) (i : Identity) (msgs : List TunnelChange) (m : Tunnels)
    → IsChanged i
        (after_changes i msgs (tunnels_of i m))
        (tunnel_state_changes shaper free_tier msgs m)
unfolding tunnel_state_changes
tunnel_state_changes-IsChanged shaper free_tier i [] m = refl
tunnel_state_changes-IsChanged shaper free_tier i (msg ∷ msgs) m =
    let first = tunnel_state_change-IsChanged shaper free_tier i msg m in
    elim (Outcome-cases (tunnel_state_change shaper free_tier msg m)) [
      | inl crash ↦ rw (crash, tunnel_state_changes) tt
      | inr (inl (e, fails)) ↦ rw (fails, tunnel_state_changes) tt
      | inr (inr ((made, shaped, n), one_done)) ↦
          let later = tunnel_state_changes-IsChanged shaper free_tier i msgs n in
          elim (Outcome-cases (tunnel_state_changes shaper free_tier msgs n)) [
            | inl crash ↦ rw (one_done, crash, tunnel_state_changes) tt
            | inr (inl (e, fails)) ↦ rw (one_done, fails, tunnel_state_changes) tt
            | inr (inr ((made', shaped', last), all_done)) ↦
                rw (one_done, all_done, tunnel_state_changes)
                  (rw all_done at later ∙ ap (after_changes i msgs) (rw one_done at first))
          ]
    ]
