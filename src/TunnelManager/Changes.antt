-- ===== src/TunnelManager/Changes.antt =====
-- rita/src/rita_common/tunnel_manager/mod.rs: what `DebtKeeper` and `NetworkMonitor` say of a tunnel
-- changes neither the ports nor the identities.
use althea_rs.Prelude.{
  ℕ, ◌≡◌, refl, true, Bool-cases, Option-cases, inl, inr, none, some, List, [], ◌∙◌, ◌∷◌, ◌++◌,
  arith, All, ap,
}
use Prim.Native.String.{String}
use althea_rs.Prelude.Maps.{get, insert, KeysDistinct, insert-KeysDistinct}
use althea_rs.Prelude.Outcome.{Outcome, ok, err, panic, Outcome-cases}
use althea_rs.AltheaTypes.{Identity, identity_key}
use althea_rs.TunnelManager.Tunnel.{
  Tunnel, TunnelAction, TunnelChange, payment_overdue, paid_on_time, membership_confirmed,
  membership_expired,
}
use althea_rs.TunnelManager.Manager.{Tunnels, Call, tunnels_of}
use althea_rs.TunnelManager.Payment.{
  tunnel_bw_limit_update, Shaper, Shaping, Bandwidth, change_tunnel, change_tunnels,
  tunnel_state_change, tunnel_state_changes, got_bloat, bloat_all, bloat_list, unlimited,
  unlimited_list,
}
use althea_rs.TunnelManager.Ports.{lent, lent_in, lent_in-insert}
use althea_rs.TunnelManager.Messages.{is_billing}

-- Two maps with the same ports, of which the second has distinct identities if the first has.
abbrev pub IsKept : Tunnels → Tunnels → Type 0
IsKept m n = ((q : ℕ) → lent_in q n ≡ lent_in q m) × (KeysDistinct m → KeysDistinct n)

change_tunnel-kept :
    (a : TunnelAction) (t : Tunnel)
    → is_billing a ≡ true
    → ((change_tunnel a t).2.listen_port ≡ t.listen_port) × ((change_tunnel a t).0 ≡ [])
unfolding change_tunnel
change_tunnel-kept membership_confirmed t h = absurd (ground arith)
change_tunnel-kept membership_expired t h = absurd (ground arith)
change_tunnel-kept payment_overdue t h = ground arith
change_tunnel-kept paid_on_time t h = ground arith

change_tunnels-kept :
    (q : ℕ) (a : TunnelAction) (ts : List Tunnel)
    → is_billing a ≡ true
    → (lent q (change_tunnels a ts).2 ≡ lent q ts) × ((change_tunnels a ts).0 ≡ [])
unfolding change_tunnels
change_tunnels-kept q a [] h = (refl, refl)
change_tunnels-kept q a (t ∷ ts) h =
    let first = change_tunnel-kept a t h in
    let later = change_tunnels-kept q a ts h in
    (rw first.0 (omega (arith, later.0)), rw (first.1, later.1) refl)

tunnels_of-some :
    (key : Identity) (ts : List Tunnel) (m : Tunnels) → get key m ≡ some ts → tunnels_of key m ≡ ts
tunnels_of-some key ts m there = rw (there, tunnels_of) refl

insert-IsKept :
    (key : Identity) (ts us : List Tunnel) (m : Tunnels)
    → get key m ≡ some ts
    → ((q : ℕ) → lent q us ≡ lent q ts)
    → IsKept m (insert key us m)
insert-IsKept key ts us m there same = (
  λ q.
      omega
        (arith, same q, lent_in-insert q key us m, ap (lent q) (tunnels_of-some key ts m there)),
  insert-KeysDistinct key us m,
)

-- The same of what a handler leaves, which makes no call.
abbrev pub IsQuiet : Tunnels → Outcome (Unit {0}) (List Call × List Shaping × Tunnels) → Type 0
IsQuiet m (ok (made, shaped, n)) = (made ≡ []) × IsKept m n
IsQuiet m (err e) = Unit
IsQuiet m panic = Unit

IsKept-refl : (m : Tunnels) → IsKept m m
IsKept-refl m = (λ q. refl, λ distinct. distinct)

tunnel_state_change-IsQuiet :
    (shaper : Shaper) (free_tier : ℕ) (msg : TunnelChange) (m : Tunnels)
    → is_billing msg.action ≡ true
    → IsQuiet m (tunnel_state_change shaper free_tier msg m)
unfolding tunnel_state_change
tunnel_state_change-IsQuiet shaper free_tier msg m billing =
    elim (Option-cases (get msg.identity m)) [
      | inl missing ↦ rw (missing, tunnel_state_change) (refl, IsKept-refl m)
      | inr (ts, there) ↦
          let changed = change_tunnels msg.action ts in
          let m' = insert msg.identity changed.2 m in
          let quiet = (change_tunnels-kept 0 msg.action ts billing).1 in
          let kept =
            insert-IsKept msg.identity ts changed.2 m there
              (λ q. (change_tunnels-kept q msg.action ts billing).0) in
          elim (Bool-cases changed.1) [
            | inr same ↦ rw (there, same, tunnel_state_change) (quiet, kept)
            | inl other ↦ elim (Outcome-cases (tunnel_bw_limit_update shaper free_tier m')) [
              | inl crash ↦ rw (there, other, crash, tunnel_state_change) tt
              | inr (inl (e, fails)) ↦ rw (there, other, fails, tunnel_state_change) (quiet, kept)
              | inr (inr (r, sets)) ↦ rw (there, other, sets, tunnel_state_change) (quiet, kept)
            ]
          ]
    ]

IsQuiet-join :
    (m : Tunnels) (made : List Call) (shaped : List Shaping) (n : Tunnels) (made' : List Call)
    (shaped' : List Shaping) (last : Tunnels)
    → IsQuiet m (ok (made, shaped, n))
    → IsQuiet n (ok (made', shaped', last))
    → IsQuiet m (ok (made ++ made', shaped ++ shaped', last))
IsQuiet-join m made shaped n made' shaped' last first later =
    let kept : IsKept m last = (λ q. later.1.0 q ∙ first.1.0 q, λ d. later.1.1 (first.1.1 d)) in
    (rw (first.0, later.0) refl, kept)

pub tunnel_state_changes-IsQuiet :
    (shaper : Shaper) (free_tier : ℕ) (msgs : List TunnelChange) (m : Tunnels)
    → All (λ c. is_billing c.action ≡ true) msgs
    → IsQuiet m (tunnel_state_changes shaper free_tier msgs m)
unfolding tunnel_state_changes
tunnel_state_changes-IsQuiet shaper free_tier [] m billing = (refl, IsKept-refl m)
tunnel_state_changes-IsQuiet shaper free_tier (msg ∷ msgs) m billing =
    let first = tunnel_state_change-IsQuiet shaper free_tier msg m billing.0 in
    elim (Outcome-cases (tunnel_state_change shaper free_tier msg m)) [
      | inl crash ↦ rw (crash, tunnel_state_changes) tt
      | inr (inl (e, fails)) ↦ rw (fails, tunnel_state_changes) tt
      | inr (inr ((made, shaped, n), one_done)) ↦
          let later = tunnel_state_changes-IsQuiet shaper free_tier msgs n billing.1 in
          elim (Outcome-cases (tunnel_state_changes shaper free_tier msgs n)) [
            | inl crash ↦ rw (one_done, crash, tunnel_state_changes) tt
            | inr (inl (e, fails)) ↦ rw (one_done, fails, tunnel_state_changes) tt
            | inr (inr ((made', shaped', last), all_done)) ↦
                rw (one_done, all_done, tunnel_state_changes)
                  (IsQuiet-join m made shaped n made' shaped' last (rw one_done at first)
                    (rw all_done at later))
          ]
    ]

module _ (b : Bandwidth) (iface : String) where
  bloat_list-lent : (q : ℕ) (ts : List Tunnel) → lent q (bloat_list b iface ts).2 ≡ lent q ts
  unfolding bloat_list
  bloat_list-lent q [] = refl
  bloat_list-lent q (t ∷ ts) = ground (arith, bloat_list-lent q ts)

  bloat_all-lent : (q : ℕ) (m : Tunnels) → lent_in q (bloat_all b iface m).1 ≡ lent_in q m
  unfolding bloat_all
  bloat_all-lent q [] = refl
  bloat_all-lent q ((key, ts) ∷ m) = ground (arith, bloat_list-lent q ts, bloat_all-lent q m)

  get-bloat_all :
      (key : Identity) (m : Tunnels) → get key m ≡ none → get key (bloat_all b iface m).1 ≡ none
  unfolding bloat_all get
  get-bloat_all key [] h = refl
  get-bloat_all key ((i, ts) ∷ m) h = ground (arith, get-bloat_all key m)

  bloat_all-KeysDistinct : (m : Tunnels) → KeysDistinct m → KeysDistinct (bloat_all b iface m).1
  unfolding bloat_all
  bloat_all-KeysDistinct [] h = tt
  bloat_all-KeysDistinct ((key, ts) ∷ m) h = elim (Bool-cases (bloat_list b iface ts).0) [
    | inl found ↦ rw (found, bloat_all) h
    | inr not_found ↦
        rw (not_found, bloat_all) (get-bloat_all key m h.0, bloat_all-KeysDistinct m h.1)
  ]

unlimited_list-lent : (q : ℕ) (ts : List Tunnel) → lent q (unlimited_list ts).1 ≡ lent q ts
unlimited_list-lent q [] = refl
unlimited_list-lent q (t ∷ ts) = ground (arith, unlimited_list-lent q ts)

unlimited-lent : (q : ℕ) (m : Tunnels) → lent_in q (unlimited m).1 ≡ lent_in q m
unlimited-lent q [] = refl
unlimited-lent q ((key, ts) ∷ m) = omega (arith, unlimited_list-lent q ts, unlimited-lent q m)

get-unlimited : (key : Identity) (m : Tunnels) → get key m ≡ none → get key (unlimited m).1 ≡ none
unfolding get
get-unlimited key [] h = refl
get-unlimited key ((i, ts) ∷ m) h = ground (arith, get-unlimited key m)

unlimited-KeysDistinct : (m : Tunnels) → KeysDistinct m → KeysDistinct (unlimited m).1
unlimited-KeysDistinct [] h = tt
unlimited-KeysDistinct ((key, ts) ∷ m) h = (get-unlimited key m h.0, unlimited-KeysDistinct m h.1)

pub got_bloat-IsKept :
    (b : Bandwidth) (iface : String) (m : Tunnels) → IsKept m (got_bloat b iface m).1
unfolding got_bloat
got_bloat-IsKept b iface m = elim (Bool-cases b.bandwidth_limit_enabled) [
  | inl on ↦ rw (on, got_bloat) (λ q. bloat_all-lent b iface q m, bloat_all-KeysDistinct b iface m)
  | inr off ↦ rw (off, got_bloat) (λ q. unlimited-lent q m, unlimited-KeysDistinct m)
]
