-- ===== src/LightClientManager/Garbage.antt =====
-- rita/src/rita_client/light_client_manager/mod.rs: which addresses `return_addresses` gives back.
use althea_rs.Prelude.{
  ◌≡◌, refl, Bool-cases, inl, inr, true, false, Option, List, [], ◌∷◌, arith, if◌then◌else◌,
}
use althea_rs.Prelude.Maps.{HashMap, remove}
use althea_rs.AltheaTypes.{LocalIdentity, local_identity_key, local_identity_eq_refl}
use althea_rs.IpIncrement.{Octets}
use althea_rs.LightClientManager.{in_use, addresses_to_remove, remove_all, return_addresses}

-- The entries from the first on whose address a tunnel uses.
unfoldable pub from_first_used :
    List (Option Octets) → HashMap LocalIdentity Octets → HashMap LocalIdentity Octets
from_first_used tunnels [] = []
from_first_used tunnels ((id, ip) ∷ m) =
    if in_use tunnels ip then (id, ip) ∷ m else from_first_used tunnels m

to_remove-found :
    (tunnels : List (Option Octets)) (m : HashMap LocalIdentity Octets)
    → addresses_to_remove tunnels true m ≡ []
unfolding addresses_to_remove
to_remove-found tunnels [] = refl
to_remove-found tunnels ((id, ip) ∷ m) = ground (arith, to_remove-found tunnels m)

return_addresses-used :
    (tunnels : List (Option Octets)) (id : LocalIdentity) (ip : Octets)
    (m : HashMap LocalIdentity Octets)
    → in_use tunnels ip ≡ true
    → return_addresses tunnels ((id, ip) ∷ m) ≡ (id, ip) ∷ m
unfolding return_addresses addresses_to_remove remove_all
return_addresses-used tunnels id ip m h = rw h (rw (to_remove-found tunnels m) refl)

return_addresses-unused :
    (tunnels : List (Option Octets)) (id : LocalIdentity) (ip : Octets)
    (m : HashMap LocalIdentity Octets)
    → in_use tunnels ip ≡ false
    → return_addresses tunnels ((id, ip) ∷ m) ≡ return_addresses tunnels m
unfolding return_addresses addresses_to_remove remove_all remove
return_addresses-unused tunnels id ip m h = rw h (rw (local_identity_eq_refl id) refl)

-- What is left of the table are the entries from the first on, in the order of iteration, whose
-- address a tunnel uses: no address in use is given back, but none after it is either.
pub return_addresses-from_first_used :
    (tunnels : List (Option Octets)) (m : HashMap LocalIdentity Octets)
    → return_addresses tunnels m ≡ from_first_used tunnels m
unfolding from_first_used return_addresses
return_addresses-from_first_used tunnels [] = refl
return_addresses-from_first_used tunnels ((id, ip) ∷ m) = elim (Bool-cases (in_use tunnels ip)) [
  | inl used ↦ rw (return_addresses-used tunnels id ip m used) (rw used refl)
  | inr unused ↦
      rw (return_addresses-unused tunnels id ip m unused)
        (rw unused (return_addresses-from_first_used tunnels m))
]
