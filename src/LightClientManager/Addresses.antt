-- ===== src/LightClientManager/Addresses.antt =====
-- rita/src/rita_client/light_client_manager/mod.rs: no two light clients share an address.
use althea_rs.Prelude.{
  suc, ◌≡◌, refl, false, Option, none, some, List, [], ◌∷◌, ◌||◌, length, arith,
}
use althea_rs.Prelude.Maps.{HashMap, get, insert, get-insert_self, get-insert_ne}
use althea_rs.Prelude.Outcome.{Outcome, ok, err, panic}
use althea_rs.AltheaTypes.{LocalIdentity, local_identity_key, local_identity_eq}
use althea_rs.IpIncrement.{Octets, Error}
use althea_rs.IpIncrement.Value.{value}
use althea_rs.LightClientManager.{
  octets_eq, LightClientManager, addresses, is_assigned, first_unused, get_address,
}
use althea_rs.LightClientManager.Search.{at_least-length, EndsUnused, first_unused-EndsUnused}

-- No address is assigned twice.
abbrev pub AddressesDistinct : HashMap LocalIdentity Octets → Type 0
AddressesDistinct [] = Unit
AddressesDistinct ((id, ip) ∷ m) = is_assigned ip (addresses m) ≡ false × AddressesDistinct m

-- The answer to a request, and the table after it: an address that the table now has for the
-- requester, or an error with the table as it was.
abbrev pub Answers :
    LocalIdentity → LightClientManager → Option (Outcome Error Octets) → LightClientManager → Type 0
Answers id m none m' = ⊥
Answers id m (some (ok ip)) m' =
    get id m'.assigned_addresses ≡ some ip
    × ((j : LocalIdentity)
        → local_identity_eq id j ≡ false
        → get j m'.assigned_addresses ≡ get j m.assigned_addresses)
    × AddressesDistinct m'.assigned_addresses
Answers id m (some (err e)) m' = m' ≡ m
Answers id m (some panic) m' = ⊥

octets_eq_sym : (a b : Octets) → octets_eq a b ≡ octets_eq b a
octets_eq_sym [] [] = refl
octets_eq_sym [] (y ∷ ys) = refl
octets_eq_sym (x ∷ xs) [] = refl
octets_eq_sym (x ∷ xs) (y ∷ ys) = ground (arith, octets_eq_sym xs ys)

is_assigned-insert :
    (ip new : Octets) (id : LocalIdentity) (m : HashMap LocalIdentity Octets)
    → get id m ≡ none
    → is_assigned ip (addresses (insert id new m))
      ≡ (is_assigned ip (addresses m) || octets_eq ip new)
unfolding get insert
is_assigned-insert ip new id [] h = ground arith
is_assigned-insert ip new id ((j, w) ∷ m) h = ground (arith, is_assigned-insert ip new id m)

get-absent :
    (id j : LocalIdentity) (w : Octets) (m : HashMap LocalIdentity Octets)
    → get id ((j, w) ∷ m) ≡ none
    → local_identity_eq j id ≡ false × get id m ≡ none
unfolding get
get-absent id j w m h = ground arith

not_assigned :
    (new ip : Octets) (ips : List Octets)
    → is_assigned new (ip ∷ ips) ≡ false
    → octets_eq new ip ≡ false × is_assigned new ips ≡ false
not_assigned new ip ips h = ground arith

insert-AddressesDistinct :
    (new : Octets) (id : LocalIdentity) (m : HashMap LocalIdentity Octets)
    → get id m ≡ none
    → is_assigned new (addresses m) ≡ false
    → AddressesDistinct m
    → AddressesDistinct (insert id new m)
unfolding get insert
insert-AddressesDistinct new id [] h hn hd = (refl, tt)
insert-AddressesDistinct new id ((j, w) ∷ m) h hn (hw, hd) =
    let (ne, absent) = get-absent id j w m h in
    let (nw, hm) = not_assigned new w (addresses m) hn in
    rw (ne, insert)
      (
        rw (is_assigned-insert w new id m absent) (rw hw (rw (octets_eq_sym w new) nw)),
        insert-AddressesDistinct new id m absent hm hd,
      )

-- The search that `get_address` makes.
abbrev search_of : LightClientManager → Option (Outcome Error Octets)
search_of m =
    let assigned_ips = addresses m.assigned_addresses in
    first_unused (suc (length assigned_ips)) assigned_ips m.prefix m.start_address

get_address-known :
    (id : LocalIdentity) (m : LightClientManager) (ip : Octets)
    → get id m.assigned_addresses ≡ some ip
    → get_address id m ≡ (some (ok ip), m)
unfolding get_address
get_address-known id m ip h = rw (h, get_address) refl

get_address-new :
    (id : LocalIdentity) (m : LightClientManager) (ip : Octets)
    → get id m.assigned_addresses ≡ none
    → search_of m ≡ some (ok ip)
    → get_address id m
      ≡ (some (ok ip), record m { assigned_addresses = insert id ip m.assigned_addresses })
unfolding get_address
get_address-new id m ip h e = rw (h, e, get_address) refl

get_address-fails :
    (id : LocalIdentity) (m : LightClientManager) (x : Error)
    → get id m.assigned_addresses ≡ none
    → search_of m ≡ some (err x)
    → get_address id m ≡ (some (err x), m)
unfolding get_address
get_address-fails id m x h e = rw (h, e, get_address) refl

search-Answers :
    (id : LocalIdentity) (m : LightClientManager) (out : Option (Outcome Error Octets))
    → get id m.assigned_addresses ≡ none
    → AddressesDistinct m.assigned_addresses
    → EndsUnused (addresses m.assigned_addresses) out
    → search_of m ≡ out
    → Answers id m (get_address id m).0 (get_address id m).1
search-Answers id m none h hd ends e = absurd ends
search-Answers id m (some (ok ip)) h hd ends e =
    let t = m.assigned_addresses in
    rw (get_address-new id m ip h e) (
      get-insert_self id ip t,
      (λ j ne. get-insert_ne id j ip t ne),
      insert-AddressesDistinct ip id t h ends hd,
    )
search-Answers id m (some (err x)) h hd ends e = rw (get_address-fails id m x h e) refl
search-Answers id m (some panic) h hd ends e = absurd ends

search-EndsUnused :
    (m : LightClientManager)
    → m.prefix ≡ 24
    → length m.start_address ≡ 4
    → EndsUnused (addresses m.assigned_addresses) (search_of m)
search-EndsUnused m hp hl =
    let ips = addresses m.assigned_addresses in
    let few = at_least-length (value m.start_address) ips in
    rw hp (first_unused-EndsUnused (suc (length ips)) ips m.start_address hl (omega arith))

answers :
    (id : LocalIdentity) (m : LightClientManager) (known : Option Octets)
    → m.prefix ≡ 24
    → length m.start_address ≡ 4
    → AddressesDistinct m.assigned_addresses
    → get id m.assigned_addresses ≡ known
    → Answers id m (get_address id m).0 (get_address id m).1
answers id m (some ip) hp hl hd e = rw (get_address-known id m ip e) (e, (λ j ne. refl), hd)
answers id m none hp hl hd e =
    search-Answers id m (search_of m) e hd (search-EndsUnused m hp hl) refl

-- With the netmask of the router, and a table that gives no address twice, the request of a light
-- client ends without a panic: with an address that the table from then on has for this client and
-- for no other, the other entries kept, or with an error and the table as it was.
pub get_address-Answers :
    (id : LocalIdentity) (m : LightClientManager)
    → m.prefix ≡ 24
    → length m.start_address ≡ 4
    → AddressesDistinct m.assigned_addresses
    → Answers id m (get_address id m).0 (get_address id m).1
get_address-Answers id m hp hl hd = answers id m (get id m.assigned_addresses) hp hl hd refl
