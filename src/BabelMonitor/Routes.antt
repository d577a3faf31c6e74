-- ===== src/BabelMonitor/Routes.antt =====
-- babel_monitor/src/lib.rs: the searches in a table of routes.
use althea_rs.Prelude.{
  Bool, true, false, Option, none, some, List, [], ◌∷◌, ◌==◌, ◌&&◌, if◌then◌else◌,
}
use althea_rs.Float32.{Float32}
use althea_rs.BabelMonitor.Records.{IpAddr, v6, ip_eq, IpNetwork, net4, net6, Route}

-- The address of an IPv6 prefix is the given one.
abbrev pub is_net6_of : IpNetwork → IpAddr → Bool
is_net6_of (net4 ip length) address = false
is_net6_of (net6 ip length) address = ip_eq (v6 ip) address

abbrev pub is_host : IpNetwork → Bool
is_host (net4 ip length) = false
is_host (net6 ip length) = length == 128

module _ {float : Float32} where
  -- The inner loop of `get_route_via_neigh`.
  unfoldable pub route_via : IpAddr → IpAddr → List (Route float) → Option (Route float)
  route_via dest_mesh_ip neigh_local_ip [] = none
  route_via dest_mesh_ip neigh_local_ip (route ∷ routes) =
      if is_net6_of route.prefix dest_mesh_ip && ip_eq route.neigh_ip neigh_local_ip
      then some route
      else route_via dest_mesh_ip neigh_local_ip routes

  -- The outer loop over the rest of the table.
  unfoldable pub via_neigh :
      IpAddr → IpAddr → List (Route float) → List (Route float) → Option (Route float)
  unfolding route_via
  via_neigh neigh_mesh_ip dest_mesh_ip table [] = none
  via_neigh neigh_mesh_ip dest_mesh_ip table (neigh_route ∷ routes) =
      let rest = via_neigh neigh_mesh_ip dest_mesh_ip table routes in
      if is_net6_of neigh_route.prefix neigh_mesh_ip
      then (elim (route_via dest_mesh_ip neigh_route.neigh_ip table) [
        | none ↦ rest
        | some route ↦ some route
      ])
      else rest

  -- `none` is the error `NoNeighbor`.
  unfoldable pub get_route_via_neigh : IpAddr → IpAddr → List (Route float) → Option (Route float)
  unfolding via_neigh
  get_route_via_neigh neigh_mesh_ip dest_mesh_ip routes =
      via_neigh neigh_mesh_ip dest_mesh_ip routes routes

  unfoldable pub do_we_have_route : IpAddr → List (Route float) → Bool
  do_we_have_route mesh_ip [] = false
  do_we_have_route mesh_ip (route ∷ routes) =
      if is_net6_of route.prefix mesh_ip && route.installed
      then true
      else do_we_have_route mesh_ip routes

  -- `none` is the error that there is no installed route.
  unfoldable pub get_installed_route : IpAddr → List (Route float) → Option (Route float)
  get_installed_route mesh_ip [] = none
  get_installed_route mesh_ip (route ∷ routes) =
      if is_host route.prefix && route.installed && is_net6_of route.prefix mesh_ip
      then some route
      else get_installed_route mesh_ip routes
