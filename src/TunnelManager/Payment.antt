-- ===== src/TunnelManager/Payment.antt =====
-- rita/src/rita_common/tunnel_manager/mod.rs: what `DebtKeeper` decides of a tunnel, and the limits of
-- the bandwidth that follow from it.
use Prim.Native.String.{String}
use text.Mathlib.Text.{◌==◌ as str_eq}
use althea_rs.Prelude.{
  ℕ, ◌+◌, ◌/◌, Bool, true, false, Option, none, some, List, [], ◌∷◌, ◌++◌, ltb, ◌||◌, if◌then◌else◌,
}
use althea_rs.Prelude.Maps.{get, insert}
use althea_rs.Prelude.Outcome.{Outcome, ok, err, panic}
use althea_rs.AltheaTypes.{identity_key}
use althea_rs.TunnelManager.Tunnel.{
  TunnelAction, membership_confirmed, membership_expired, payment_overdue, paid_on_time,
  TunnelChange, not_registered, registered, paid, overdue, Tunnel,
}
use althea_rs.TunnelManager.Manager.{Tunnels, Call, monitor, unmonitor}

-- What the kernel interface answers about an interface: whether it has a limit, or an error, and
-- whether a limit can be set.
pub record Shaper : Type 0 where
  pub has_limit : String → Option Bool
  pub sets : String → Bool

-- A limit on an overdue tunnel, or the limit of a paid one lifted.
pub data Shaping : Type 0 where
  set_classless_limit : String → ℕ → Shaping
  set_codel_shaping : String → Option ℕ → Shaping

abbrev none_or : {A : Type 0} → Option ℕ → List A → List A
none_or none xs = xs
none_or (some light_client) xs = []

-- The `match` of `tunnel_state_change` on one tunnel: the calls, whether the limits need a change,
-- and the tunnel after it.
unfoldable pub change_tunnel : TunnelAction → Tunnel → List Call × Bool × Tunnel
change_tunnel membership_confirmed tunnel = elim tunnel.registration_state [
  | not_registered ↦ (
    none_or tunnel.light_client_details (monitor tunnel 0 ∷ []),
    false,
    record tunnel { registration_state = registered },
  )
  | registered ↦ ([], false, tunnel)
]
change_tunnel membership_expired tunnel = elim tunnel.registration_state [
  | registered ↦ (
    none_or tunnel.light_client_details (unmonitor tunnel 0 ∷ []),
    false,
    record tunnel { registration_state = not_registered },
  )
  | not_registered ↦ ([], false, tunnel)
]
change_tunnel paid_on_time tunnel = elim tunnel.payment_state [
  | paid ↦ ([], false, tunnel)
  | overdue ↦ ([], true, record tunnel { payment_state = paid; speed_limit = none })
]
change_tunnel payment_overdue tunnel = elim tunnel.payment_state [
  | paid ↦ ([], true, record tunnel { payment_state = overdue })
  | overdue ↦ ([], false, tunnel)
]

unfoldable pub change_tunnels : TunnelAction → List Tunnel → List Call × Bool × List Tunnel
unfolding change_tunnel
change_tunnels action [] = ([], false, [])
change_tunnels action (tunnel ∷ tunnels) =
    let (calls, change, tunnel') = change_tunnel action tunnel in
    let (calls', change', tunnels') = change_tunnels action tunnels in
    (calls ++ calls', change || change', tunnel' ∷ tunnels')

-- The number of interfaces with a limit.
abbrev pub overdue_in : List Tunnel → ℕ
overdue_in [] = 0
overdue_in (tunnel ∷ tunnels) =
    (elim tunnel.payment_state [ overdue ↦ 1 | paid ↦ 0 ]) + overdue_in tunnels

abbrev pub limited_interfaces : Tunnels → ℕ
limited_interfaces [] = 0
limited_interfaces ((identity, tunnels) ∷ m) = overdue_in tunnels + limited_interfaces m

-- The loop of `tunnel_bw_limit_update` over the tunnels to one neighbour: what it sets, and whether it goes on.
unfoldable pub shape_list : Shaper → ℕ → List Tunnel → List Shaping × Bool
shape_list shaper bw_per_iface [] = ([], true)
shape_list shaper bw_per_iface (tunnel ∷ tunnels) =
    let iface_name = tunnel.iface_name in
    let (later, goes_on) = shape_list shaper bw_per_iface tunnels in
    elim (shaper.has_limit iface_name) [
      | none ↦ ([], false)
      | some has_limit ↦ elim tunnel.payment_state [
        | overdue ↦
            if shaper.sets iface_name
            then (set_classless_limit iface_name bw_per_iface ∷ later, goes_on)
            else ([], false)
        | paid ↦
            if has_limit
            then (if shaper.sets iface_name
                then (set_codel_shaping iface_name none ∷ later, goes_on)
                else ([], false))
            else (later, goes_on)
      ]
    ]

unfoldable pub shape_all : Shaper → ℕ → Tunnels → List Shaping × Bool
unfolding shape_list
shape_all shaper bw_per_iface [] = ([], true)
shape_all shaper bw_per_iface ((identity, tunnels) ∷ m) =
    let (first, goes_on) = shape_list shaper bw_per_iface tunnels in
    let (later, done) = shape_all shaper bw_per_iface m in
    if goes_on then (first ++ later, done) else (first, false)

-- `tunnel_bw_limit_update`, with the free tier of the settings; the flag says that it succeeds. A
-- number of interfaces beyond a `u16` panics.
unfoldable pub tunnel_bw_limit_update :
    Shaper → ℕ → Tunnels → Outcome (Unit {0}) (List Shaping × Bool)
unfolding shape_all
tunnel_bw_limit_update shaper free_tier_throughput m =
    let limited = limited_interfaces m in
    if ltb 65535 limited
    then panic
    else (let bw_per_iface =
          if ltb 0 limited then free_tier_throughput / limited else free_tier_throughput in
        ok (shape_all shaper bw_per_iface m))

-- `tunnel_state_change`, whose error is only that of the limits, which is logged.
unfoldable pub tunnel_state_change :
    Shaper → ℕ → TunnelChange → Tunnels → Outcome (Unit {0}) (List Call × List Shaping × Tunnels)
unfolding change_tunnels tunnel_bw_limit_update
tunnel_state_change shaper free_tier_throughput msg m = elim (get msg.identity m) [
  | none ↦ ok ([], [], m)
  | some tunnels ↦
      let (calls, need_change, tunnels') = change_tunnels msg.action tunnels in
      let m' = insert msg.identity tunnels' m in
      if need_change
      then (elim (tunnel_bw_limit_update shaper free_tier_throughput m') [
        | ok (shaped, done) ↦ ok (calls, shaped, m')
        | err e ↦ ok (calls, [], m')
        | panic ↦ panic
      ])
      else ok (calls, [], m')
]

-- `Handler<TunnelStateChange>`
unfoldable pub tunnel_state_changes :
    Shaper
    → ℕ
    → List TunnelChange
    → Tunnels
    → Outcome (Unit {0}) (List Call × List Shaping × Tunnels)
unfolding tunnel_state_change
tunnel_state_changes shaper free_tier_throughput [] m = ok ([], [], m)
tunnel_state_changes shaper free_tier_throughput (msg ∷ msgs) m =
    elim (tunnel_state_change shaper free_tier_throughput msg m) [
      | panic ↦ panic
      | err e ↦ err e
      | ok (calls, shaped, m') ↦ elim (tunnel_state_changes shaper free_tier_throughput msgs m') [
        | panic ↦ panic
        | err e ↦ err e
        | ok (calls', shaped', last) ↦ ok (calls ++ calls', shaped ++ shaped', last)
      ]
    ]

-- The bandwidth settings that `GotBloat` reads, and four fifths of a limit as `f32` rounds them.
pub record Bandwidth : Type 0 where
  pub minimum_bandwidth_limit : ℕ
  pub starting_bandwidth_limit : ℕ
  pub bandwidth_limit_enabled : Bool
  pub four_fifths : ℕ → ℕ

-- The limit that a bloated tunnel gets, where it gets a new one.
unfoldable pub new_limit : Bandwidth → Option ℕ → Option ℕ
new_limit bandwidth none = some bandwidth.starting_bandwidth_limit
new_limit bandwidth (some val) =
    let new_val = bandwidth.four_fifths val in
    if ltb new_val bandwidth.minimum_bandwidth_limit then none else some new_val

-- The loops of `Handler<GotBloat>`; the first tunnel of the interface ends them.
unfoldable pub bloat_list : Bandwidth → String → List Tunnel → Bool × List Shaping × List Tunnel
unfolding new_limit
bloat_list bandwidth iface [] = (false, [], [])
bloat_list bandwidth iface (tunnel ∷ tunnels) =
    let (found, shaped, tunnels') = bloat_list bandwidth iface tunnels in
    if str_eq tunnel.iface_name iface
    then (elim (new_limit bandwidth tunnel.speed_limit) [
      | none ↦ (true, [], tunnel ∷ tunnels)
      | some limit ↦ (
        true,
        set_codel_shaping iface (some limit) ∷ [],
        record tunnel { speed_limit = some limit } ∷ tunnels,
      )
    ])
    else (found, shaped, tunnel ∷ tunnels')

unfoldable pub bloat_all : Bandwidth → String → Tunnels → List Shaping × Tunnels
unfolding bloat_list
bloat_all bandwidth iface [] = ([], [])
bloat_all bandwidth iface ((identity, tunnels) ∷ m) =
    let (found, shaped, tunnels') = bloat_list bandwidth iface tunnels in
    let (later, m') = bloat_all bandwidth iface m in
    if found then (shaped, (identity, tunnels') ∷ m) else (later, (identity, tunnels') ∷ m')

abbrev pub unlimited_list : List Tunnel → List Shaping × List Tunnel
unlimited_list [] = ([], [])
unlimited_list (tunnel ∷ tunnels) =
    let (shaped, tunnels') = unlimited_list tunnels in
    elim tunnel.speed_limit [
      | none ↦ (shaped, tunnel ∷ tunnels')
      | some limit ↦ (
        set_codel_shaping tunnel.iface_name none ∷ shaped,
        record tunnel { speed_limit = none } ∷ tunnels',
      )
    ]

abbrev pub unlimited : Tunnels → List Shaping × Tunnels
unlimited [] = ([], [])
unlimited ((identity, tunnels) ∷ m) =
    let (shaped, tunnels') = unlimited_list tunnels in
    let (later, m') = unlimited m in (shaped ++ later, (identity, tunnels') ∷ m')

-- `Handler<GotBloat>`
unfoldable pub got_bloat : Bandwidth → String → Tunnels → List Shaping × Tunnels
unfolding bloat_all
got_bloat bandwidth iface m =
    if bandwidth.bandwidth_limit_enabled then bloat_all bandwidth iface m else unlimited m
