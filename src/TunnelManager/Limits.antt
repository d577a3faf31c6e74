-- ===== src/TunnelManager/Limits.antt =====
-- rita/src/rita_common/tunnel_manager/mod.rs: how the limits of the free tier are set.
use native.Mathlib.Nat.{div-mul-le_self}
use althea_rs.Prelude.{ℕ, ◌+◌, ◌*◌, ◌/◌, ◌≤◌, ◌≡◌, Bool, List, [], ◌∷◌, ◌++◌, arith}
use althea_rs.Prelude.Outcome.{Outcome, ok, err, panic}
use althea_rs.TunnelManager.Tunnel.{Tunnel}
use althea_rs.TunnelManager.Manager.{Tunnels}
use althea_rs.TunnelManager.Payment.{
  Shaper, Shaping, set_classless_limit, set_codel_shaping, overdue_in, limited_interfaces,
  shape_list, shape_all, tunnel_bw_limit_update,
}

-- The bandwidth that the overdue tunnels are limited to, together.
abbrev pub limited_to : List Shaping → ℕ
limited_to [] = 0
limited_to (set_classless_limit iface bw ∷ shaped) = bw + limited_to shaped
limited_to (set_codel_shaping iface bw ∷ shaped) = limited_to shaped

limited_to-append : (xs ys : List Shaping) → limited_to (xs ++ ys) ≡ limited_to xs + limited_to ys
limited_to-append [] ys = omega arith
limited_to-append (set_classless_limit iface bw ∷ xs) ys = omega (arith, limited_to-append xs ys)
limited_to-append (set_codel_shaping iface bw ∷ xs) ys = limited_to-append xs ys

module _ (shaper : Shaper) (bw : ℕ) where
  shape_list-limited_to :
      (ts : List Tunnel) → limited_to (shape_list shaper bw ts).0 ≤ overdue_in ts * bw
  unfolding shape_list
  shape_list-limited_to [] = omega arith
  shape_list-limited_to (t ∷ ts) = grind (arith, shape_list-limited_to ts)

  shape_all-limited_to :
      (m : Tunnels) → limited_to (shape_all shaper bw m).0 ≤ limited_interfaces m * bw
  unfolding shape_all
  shape_all-limited_to [] = omega arith
  shape_all-limited_to ((key, ts) ∷ m) = grind (
    arith,
    shape_list-limited_to ts,
    shape_all-limited_to m,
    limited_to-append (shape_list shaper bw ts).0 (shape_all shaper bw m).0,
  )

-- What an update limits the overdue tunnels to, where it does not panic.
abbrev limited_by : Outcome (Unit {0}) (List Shaping × Bool) → ℕ
limited_by (ok (shaped, done)) = limited_to shaped
limited_by (err e) = 0
limited_by panic = 0

limited_by_free_tier :
    (shaper : Shaper) (free_tier : ℕ) (m : Tunnels)
    → limited_by (tunnel_bw_limit_update shaper free_tier m) ≤ free_tier
unfolding tunnel_bw_limit_update
limited_by_free_tier shaper free_tier m = grind (
  arith,
  shape_all-limited_to shaper (free_tier / limited_interfaces m) m,
  shape_all-limited_to shaper free_tier m,
  div-mul-le_self free_tier (limited_interfaces m),
)

-- The limits that an update sets on the overdue tunnels sum up to at most the bandwidth of the free
-- tier, also when the kernel interface fails in the middle.
pub tunnel_bw_limit_update-limited_to :
    (shaper : Shaper) (free_tier : ℕ) (m : Tunnels) (shaped : List Shaping) (done : Bool)
    → tunnel_bw_limit_update shaper free_tier m ≡ ok (shaped, done)
    → limited_to shaped ≤ free_tier
tunnel_bw_limit_update-limited_to shaper free_tier m shaped done sets =
    rw sets at (limited_by_free_tier shaper free_tier m)
