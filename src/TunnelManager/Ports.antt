-- ===== src/TunnelManager/Ports.antt =====
-- rita/src/rita_common/tunnel_manager/mod.rs: no port is handed out twice.
use text.Mathlib.TextPositions.{eq_refl}
use althea_rs.Prelude.{
  ℕ, zero, suc, ◌+◌, ◌≤◌, ◌≡◌, refl, true, Bool-cases, Option-cases, inl, inr, Option, none, some,
  List, [], ◌∷◌, ◌++◌, length, map, ◌==◌, any, get_elem?, one, count, count-append, arith,
}
use althea_rs.Prelude.Maps.{get, insert, remove}
use althea_rs.Prelude.Outcome.{Outcome, ok, err, panic}
use althea_rs.AltheaTypes.{
  Identity, LocalIdentity, identity_key, local_identity_eq_refl, txid_eq_refl,
}
use althea_rs.Time.{Instant}
use althea_rs.TunnelManager.Tunnel.{
  Tunnel, tunnel_eq, get_tunnel_by_ifidx, del_tunnel, payment_state_eq, registration_state_eq,
  PaymentState, RegistrationState, paid, overdue, not_registered, registered,
}
use althea_rs.TunnelManager.Manager.{
  Tunnels, TunnelManager, Error, Peer, System, remove_at, push, try_port, get_port, bump,
  tunnels_of, drop_tunnel,
}

-- How often a port is that of one of the tunnels.
abbrev pub lent : ℕ → List Tunnel → ℕ
lent q [] = 0
lent q (tunnel ∷ tunnels) = one tunnel.listen_port q + lent q tunnels

abbrev pub lent_in : ℕ → Tunnels → ℕ
lent_in q [] = 0
lent_in q ((identity, tunnels) ∷ m) = lent q tunnels + lent_in q m

-- How often a port is in the hands of the manager: free, or that of a tunnel.
abbrev pub owned : ℕ → TunnelManager → ℕ
owned q m = count q m.free_ports + lent_in q m.tunnels

pub lent-append : (q : ℕ) (ts us : List Tunnel) → lent q (ts ++ us) ≡ lent q ts + lent q us
lent-append q [] us = omega arith
lent-append q (t ∷ ts) us = omega (arith, lent-append q ts us)

pub lent_in-insert :
    (q : ℕ) (key : Identity) (ts : List Tunnel) (m : Tunnels)
    → lent_in q (insert key ts m) + lent q (tunnels_of key m) ≡ lent_in q m + lent q ts
unfolding insert get
lent_in-insert q key ts [] = omega arith
lent_in-insert q key ts ((j, us) ∷ m) = ground (arith, lent_in-insert q key ts m)

lent_in-remove :
    (q : ℕ) (key : Identity) (m : Tunnels)
    → lent_in q (remove key m) + lent q (tunnels_of key m) ≡ lent_in q m
unfolding remove get
lent_in-remove q key [] = omega arith
lent_in-remove q key ((j, us) ∷ m) = ground (arith, lent_in-remove q key m)

pub lent-bump :
    (q : ℕ) (now : Instant) (peer : Peer) (id : LocalIdentity) (ts : List Tunnel)
    → lent q (map (bump now peer id) ts) ≡ lent q ts
lent-bump q now peer id [] = refl
lent-bump q now peer id (t ∷ ts) = ground (arith, lent-bump q now peer id ts)

lent-del_tunnel : (q : ℕ) (t : Tunnel) (ts : List Tunnel) → lent q (del_tunnel t ts) ≤ lent q ts
unfolding del_tunnel
lent-del_tunnel q t [] = omega arith
lent-del_tunnel q t (u ∷ ts) = ground (arith, lent-del_tunnel q t ts)

payment_state_eq_refl : (s : PaymentState) → payment_state_eq s s ≡ true
payment_state_eq_refl paid = refl
payment_state_eq_refl overdue = refl

registration_state_eq_refl : (s : RegistrationState) → registration_state_eq s s ≡ true
registration_state_eq_refl not_registered = refl
registration_state_eq_refl registered = refl

tunnel_eq_refl : (t : Tunnel) → tunnel_eq t t ≡ true
unfolding tunnel_eq
tunnel_eq_refl t = ground (
  arith,
  eq_refl t.iface_name,
  local_identity_eq_refl t.neigh_id,
  txid_eq_refl t.speed_limit,
  txid_eq_refl t.light_client_details,
  payment_state_eq_refl t.payment_state,
  registration_state_eq_refl t.registration_state,
)

pub lent-del_tunnel_found :
    (q ifidx : ℕ) (t : Tunnel) (ts : List Tunnel)
    → get_tunnel_by_ifidx ifidx ts ≡ some t
    → lent q (del_tunnel t ts) + one t.listen_port q ≤ lent q ts
unfolding del_tunnel get_tunnel_by_ifidx
lent-del_tunnel_found q ifidx t [] h = absurd (ground arith)
lent-del_tunnel_found q ifidx t (u ∷ ts) h =
    ground (arith, tunnel_eq_refl t, lent-del_tunnel q t ts, lent-del_tunnel_found q ifidx t ts)

dropped :
    (q : ℕ) (key : Identity) (left : List Tunnel) (m : Tunnels)
    → lent_in q (elim left as (λ x. Tunnels) [ [] ↦ remove key m | t ∷ ts ↦ insert key (t ∷ ts) m ])
        + lent q (tunnels_of key m)
      ≡ lent_in q m + lent q left
dropped q key [] m = omega (arith, lent_in-remove q key m)
dropped q key (t ∷ ts) m = lent_in-insert q key (t ∷ ts) m

pub lent_in-drop_tunnel :
    (q : ℕ) (key : Identity) (t : Tunnel) (ts : List Tunnel) (m : Tunnels)
    → lent_in q (drop_tunnel key t ts m) + lent q (tunnels_of key m)
      ≡ lent_in q m + lent q (del_tunnel t ts)
unfolding drop_tunnel
lent_in-drop_tunnel q key t ts m = dropped q key (del_tunnel t ts) m

count-remove_at :
    (q i p : ℕ) (xs : List ℕ)
    → get_elem? xs i ≡ some p
    → count q xs ≡ count q (remove_at i xs) + one p q
count-remove_at q i p [] h = absurd (ground arith)
count-remove_at q zero p (x ∷ xs) h = ground arith
count-remove_at q (suc i) p (x ∷ xs) h = omega (arith, count-remove_at q i p xs h)

-- The port that a search has found, counted.
abbrev pub found : ℕ → Outcome Error (Option ℕ) → ℕ
found q (ok (some p)) = one p q
found q (ok none) = 0
found q (err e) = 0
found q panic = 0

-- What an attempt finds and leaves is of the manager's ports, where this holds of what follows it.
try_port-owned :
    (q level : ℕ) (system : System) (m : TunnelManager)
    (on_used : ℕ → TunnelManager → Outcome Error (Option ℕ) × TunnelManager)
    → ((p : ℕ) (rest : TunnelManager)
        → found q (on_used p rest).0 + owned q (on_used p rest).1 ≤ owned q (push p rest))
    → found q (try_port system level m on_used).0 + owned q (try_port system level m on_used).1
      ≤ owned q m
unfolding try_port
try_port-owned q level system m on_used later =
    let val = system.gen_range level (length m.free_ports) in
    elim (Option-cases (get_elem? m.free_ports val)) [
      | inl none_left ↦ rw (none_left, try_port) (omega arith)
      | inr (port, drawn) ↦ elim (Option-cases (system.used_ports level)) [
        | inl unread ↦
            rw (drawn, unread, try_port)
              (omega (arith, count-remove_at q val port m.free_ports drawn))
        | inr (used_ports, read) ↦ elim (Bool-cases (any (λ p. p == port) used_ports)) [
          | inl used ↦
              rw (drawn, read, used, try_port)
                (omega (
                  arith,
                  later port (record m { free_ports = remove_at val m.free_ports }),
                  count-remove_at q val port m.free_ports drawn,
                  count-append q (remove_at val m.free_ports) (port ∷ []),
                ))
          | inr free ↦
              rw (drawn, read, free, try_port)
                (omega (arith, count-remove_at q val port m.free_ports drawn))
        ]
      ]
    ]

pub get_port-owned :
    (q more level : ℕ) (system : System) (m : TunnelManager)
    → found q (get_port more system level m).0 + owned q (get_port more system level m).1
      ≤ owned q m
unfolding get_port
get_port-owned q zero level system m =
    try_port-owned q level system m (λ port rest. (panic, rest))
      (λ port rest. omega (arith, count-append q rest.free_ports (port ∷ [])))
get_port-owned q (suc more) level system m =
    try_port-owned q level system m (λ port rest. get_port more system (level + 1) (push port rest))
      (λ port rest. get_port-owned q more (level + 1) system (push port rest))
