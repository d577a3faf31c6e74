-- ===== src/AltheaTypes.antt =====
-- althea_types/src/interop.rs: identities, payments and the kinds of chain. Addresses and keys are only
-- compared, so each is the number that its bytes spell.
use Prim.Native.String.{String}
use althea_rs.Prelude.{ℕ, ◌≡◌, Bool, true, false, Option, none, some, ◌&&◌, ◌==◌, arith}
use althea_rs.Prelude.Maps.{Key}

pub record Identity : Type 0 where
  pub mesh_ip : ℕ
  pub eth_address : ℕ
  pub wg_public_key : ℕ
  pub nickname : Option String

-- `impl PartialEq for Identity`: nicknames are ignored.
abbrev pub identity_eq : Identity → Identity → Bool
identity_eq a b =
    a.mesh_ip == b.mesh_ip && a.eth_address == b.eth_address && a.wg_public_key == b.wg_public_key

pub identity_eq_refl : (a : Identity) → identity_eq a a ≡ Bool.true
identity_eq_refl a = ground arith

pub identity_eq_cong :
    (a b c : Identity) → identity_eq a b ≡ Bool.true → identity_eq a c ≡ identity_eq b c
identity_eq_cong a b c h = ground arith

instance abbrev pub identity_key : Key Identity
identity_key = record { eq = identity_eq; eq_refl = identity_eq_refl; eq_cong = identity_eq_cong }

pub record PaymentTx : Type 0 where
  pub to : Identity
  pub from : Identity
  pub amount : ℕ
  pub txid : Option ℕ

abbrev pub txid_eq : Option ℕ → Option ℕ → Bool
txid_eq none none = true
txid_eq none (some b) = false
txid_eq (some a) none = false
txid_eq (some a) (some b) = a == b

-- The derived `PartialEq` of `PaymentTx`.
abbrev pub payment_eq : PaymentTx → PaymentTx → Bool
payment_eq a b =
    identity_eq a.to b.to
    && identity_eq a.from b.from
    && a.amount == b.amount
    && txid_eq a.txid b.txid

pub txid_eq_refl : (a : Option ℕ) → txid_eq a a ≡ true
txid_eq_refl a = ground arith

pub txid_eq-eq : (a b : Option ℕ) → txid_eq a b ≡ true → a ≡ b
txid_eq-eq a b h = ground arith

pub payment_eq_refl : (a : PaymentTx) → payment_eq a a ≡ true
payment_eq_refl a = ground (arith, txid_eq_refl a.txid)

pub payment_eq_cong : (a b c : PaymentTx) → payment_eq a b ≡ true → payment_eq a c ≡ payment_eq b c
payment_eq_cong a b c h = ground arith

-- A "hello" of a neighbour, with its port, and whether it has a tunnel to us.
pub record LocalIdentity : Type 0 where
  pub wg_port : ℕ
  pub have_tunnel : Option Bool
  pub global : Identity

abbrev pub flag_eq : Option Bool → Option Bool → Bool
flag_eq none none = true
flag_eq none (some b) = false
flag_eq (some a) none = false
flag_eq (some true) (some b) = b
flag_eq (some false) (some true) = false
flag_eq (some false) (some false) = true

-- The derived `PartialEq` of `LocalIdentity`.
abbrev pub local_identity_eq : LocalIdentity → LocalIdentity → Bool
local_identity_eq a b =
    a.wg_port == b.wg_port && flag_eq a.have_tunnel b.have_tunnel && identity_eq a.global b.global

flag_eq_refl : (a : Option Bool) → flag_eq a a ≡ true
flag_eq_refl a = ground arith

flag_eq_cong : (a b c : Option Bool) → flag_eq a b ≡ true → flag_eq a c ≡ flag_eq b c
flag_eq_cong a b c h = ground arith

pub local_identity_eq_refl : (a : LocalIdentity) → local_identity_eq a a ≡ true
local_identity_eq_refl a = ground (arith, flag_eq_refl a.have_tunnel, identity_eq_refl a.global)

pub local_identity_eq_cong :
    (a b c : LocalIdentity)
    → local_identity_eq a b ≡ true
    → local_identity_eq a c ≡ local_identity_eq b c
local_identity_eq_cong a b c h = ground (
  arith,
  flag_eq_cong a.have_tunnel b.have_tunnel c.have_tunnel,
  identity_eq_cong a.global b.global c.global,
)

instance abbrev pub local_identity_key : Key LocalIdentity
local_identity_key = record {
  eq = local_identity_eq;
  eq_refl = local_identity_eq_refl;
  eq_cong = local_identity_eq_cong;
}

pub data SystemChain : Type 0 where
  ethereum rinkeby xdai : SystemChain
