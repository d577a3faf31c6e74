-- ===== src/BabelMonitor/Searches.antt =====
-- babel_monitor/src/lib.rs: what the searches in a table of routes find, and that they miss nothing.
use mathlib.Core.Path.{subst}
use althea_rs.Prelude.{
  sym, ◌≡◌, refl, ◌⊎◌, inl, inr, Bool, true, false, Option, none, some, List, [], ◌∷◌, ◌&&◌, All,
  arith, Bool-cases,
}
use althea_rs.Float32.{Float32}
use althea_rs.BabelMonitor.Records.{IpAddr, ip_eq, Route}
use althea_rs.BabelMonitor.Routes.{
  is_net6_of, is_host, route_via, via_neigh, get_route_via_neigh, get_installed_route,
}

parts_of_and : (a b c : Bool) → (a && b && c) ≡ true → (a ≡ true) × (b ≡ true) × (c ≡ true)
parts_of_and a b c h = ground arith

module _ {float : Float32} where
  -- A member of a list.
  pub data Among (r : Route float) : List (Route float) → Type 0 where
    here : {routes : List (Route float)} → Among r (r ∷ routes)
    there :
        {route : Route float} {routes : List (Route float)}
        → Among r routes
        → Among r (route ∷ routes)

  -- An installed route to the host of an address.
  abbrev pub LeadsTo : IpAddr → Route float → Type 0
  LeadsTo mesh_ip r =
      (is_host r.prefix ≡ true) × (r.installed ≡ true) × (is_net6_of r.prefix mesh_ip ≡ true)

  -- A route to the destination through a neighbour: some route to the neighbour's own address has the
  -- same next hop.
  abbrev pub GoesVia : IpAddr → IpAddr → Route float → Route float → Type 0
  GoesVia neigh_mesh_ip dest_mesh_ip own r =
      (is_net6_of own.prefix neigh_mesh_ip ≡ true)
      × (is_net6_of r.prefix dest_mesh_ip ≡ true)
      × (ip_eq r.neigh_ip own.neigh_ip ≡ true)

  -- A search answers with a member that has a property, or none has it.
  abbrev pub Finds : (Route float → Type 0) → List (Route float) → Option (Route float) → Type 0
  Finds P routes answer =
      ((r : Route float) × (answer ≡ some r) × Among r routes × P r)
      ⊎ ((answer ≡ none) × All (λ r. ¬ (P r)) routes)

  -- The search for the installed route to an address finds one that is in the table, an installed
  -- route to the host of that address, or else there is no such route in the table.
  pub get_installed_route-Finds :
      (mesh_ip : IpAddr) (routes : List (Route float))
      → Finds (LeadsTo mesh_ip) routes (get_installed_route mesh_ip routes)
  unfolding get_installed_route
  get_installed_route-Finds mesh_ip [] = inr (refl, tt)
  get_installed_route-Finds mesh_ip (route ∷ routes) =
      let test = is_host route.prefix && route.installed && is_net6_of route.prefix mesh_ip in
      elim (Bool-cases test) [
        | inl fits ↦ inl (route, rw (fits, get_installed_route), here, parts_of_and _ _ _ fits)
        | inr misses ↦ elim (get_installed_route-Finds mesh_ip routes) [
          | inl (r, found, among, leads) ↦
              inl (r, rw (misses, get_installed_route) found, there among, leads)
          | inr (nothing, never) ↦
              inr (rw (misses, get_installed_route) nothing, ((λ leads. ground arith), never))
        ]
      ]

  route_via-Finds :
      (neigh_mesh_ip dest_mesh_ip : IpAddr) (own : Route float) (routes : List (Route float))
      → is_net6_of own.prefix neigh_mesh_ip ≡ true
      → Finds
          (GoesVia neigh_mesh_ip dest_mesh_ip own)
          routes
          (route_via dest_mesh_ip own.neigh_ip routes)
  unfolding route_via
  route_via-Finds neigh_mesh_ip dest_mesh_ip own [] mine = inr (refl, tt)
  route_via-Finds neigh_mesh_ip dest_mesh_ip own (route ∷ routes) mine =
      let test = is_net6_of route.prefix dest_mesh_ip && ip_eq route.neigh_ip own.neigh_ip in
      elim (Bool-cases test) [
        | inl fits ↦ inl (route, rw (fits, route_via), here, ground arith)
        | inr misses ↦ elim (route_via-Finds neigh_mesh_ip dest_mesh_ip own routes mine) [
          | inl (r, found, among, goes) ↦ inl (r, rw (misses, route_via) found, there among, goes)
          | inr (nothing, never) ↦
              inr (rw (misses, route_via) nothing, ((λ goes. ground arith), never))
        ]
      ]

  not_own :
      (neigh_mesh_ip dest_mesh_ip : IpAddr) (own : Route float) (routes : List (Route float))
      → is_net6_of own.prefix neigh_mesh_ip ≡ false
      → All (λ r. ¬ (GoesVia neigh_mesh_ip dest_mesh_ip own r)) routes
  not_own neigh_mesh_ip dest_mesh_ip own [] other = tt
  not_own neigh_mesh_ip dest_mesh_ip own (route ∷ routes) other =
      ((λ goes. ground arith), not_own neigh_mesh_ip dest_mesh_ip own routes other)

  -- A search for two routes: one to the neighbour, and one with its next hop.
  abbrev pub FindsVia :
      IpAddr → IpAddr → List (Route float) → List (Route float) → Option (Route float) → Type 0
  FindsVia neigh_mesh_ip dest_mesh_ip table routes answer =
      ((own r : Route float) × (answer ≡ some r)
        × Among own routes
        × Among r table
        × GoesVia neigh_mesh_ip dest_mesh_ip own r)
      ⊎ ((answer ≡ none)
          × All (λ own. All (λ r. ¬ (GoesVia neigh_mesh_ip dest_mesh_ip own r)) table) routes)

  via_neigh-later :
      (neigh_mesh_ip dest_mesh_ip : IpAddr) (own : Route float) (table routes : List (Route float))
      → All (λ r. ¬ (GoesVia neigh_mesh_ip dest_mesh_ip own r)) table
      → (answer : Option (Route float)) → FindsVia neigh_mesh_ip dest_mesh_ip table routes answer
      → FindsVia neigh_mesh_ip dest_mesh_ip table (own ∷ routes) answer
  via_neigh-later neigh_mesh_ip dest_mesh_ip own table routes none_here answer
        (inl (o, r, e, a, b, g)) =
      inl (o, r, e, there a, b, g)
  via_neigh-later neigh_mesh_ip dest_mesh_ip own table routes none_here answer (inr (e, never)) =
      inr (e, (none_here, never))

  via_neigh-Finds :
      (neigh_mesh_ip dest_mesh_ip : IpAddr) (table routes : List (Route float))
      → FindsVia neigh_mesh_ip dest_mesh_ip table routes
          (via_neigh neigh_mesh_ip dest_mesh_ip table routes)
  unfolding via_neigh
  via_neigh-Finds neigh_mesh_ip dest_mesh_ip table [] = inr (refl, tt)
  via_neigh-Finds neigh_mesh_ip dest_mesh_ip table (own ∷ routes) =
      let later = via_neigh-Finds neigh_mesh_ip dest_mesh_ip table routes in
      elim (Bool-cases (is_net6_of own.prefix neigh_mesh_ip)) [
        | inl mine ↦ elim (route_via-Finds neigh_mesh_ip dest_mesh_ip own table mine) [
          | inl (r, found, among, goes) ↦
              inl (own, r, rw (mine, found, via_neigh), here, among, goes)
          | inr (nothing, never) ↦
              passed (rw (mine, nothing, via_neigh))
                (via_neigh-later neigh_mesh_ip dest_mesh_ip own table routes never _ later)
        ]
        | inr other ↦ passed (rw (other, via_neigh)) (
            via_neigh-later neigh_mesh_ip dest_mesh_ip own table routes
              (not_own neigh_mesh_ip dest_mesh_ip own table other) _ later)
      ]
    where
      passed :
          via_neigh neigh_mesh_ip dest_mesh_ip table (own ∷ routes)
            ≡ via_neigh neigh_mesh_ip dest_mesh_ip table routes
          → FindsVia neigh_mesh_ip dest_mesh_ip table
              (own ∷ routes)
              (via_neigh neigh_mesh_ip dest_mesh_ip table routes)
          → FindsVia neigh_mesh_ip dest_mesh_ip table
              (own ∷ routes)
              (via_neigh neigh_mesh_ip dest_mesh_ip table (own ∷ routes))
      passed e = subst (FindsVia neigh_mesh_ip dest_mesh_ip table (own ∷ routes)) (sym e)

  -- The search for a route through a neighbour finds one that is in the table, has the destination
  -- for its prefix and shares its next hop with a route of the table to the neighbour's own address;
  -- or else there are no two such routes in the table.
  pub get_route_via_neigh-Finds :
      (neigh_mesh_ip dest_mesh_ip : IpAddr) (routes : List (Route float))
      → FindsVia neigh_mesh_ip dest_mesh_ip routes routes
          (get_route_via_neigh neigh_mesh_ip dest_mesh_ip routes)
  unfolding get_route_via_neigh
  get_route_via_neigh-Finds neigh_mesh_ip dest_mesh_ip routes =
      via_neigh-Finds neigh_mesh_ip dest_mesh_ip routes routes
