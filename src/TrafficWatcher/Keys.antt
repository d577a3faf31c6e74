-- ===== src/TrafficWatcher/Keys.antt =====
-- rita/src/rita_common/traffic_watcher/mod.rs: addresses, interface names, and pairs of both as keys.
use Prim.Native.String.{String}
use text.Mathlib.Text.{◌==◌ as str_eq}
use text.Mathlib.TextEquality.{eq_iff}
use text.Mathlib.TextPositions.{eq_refl}
use althea_rs.Prelude.{ℕ, ◌==◌, ◌≡◌, ap, Bool, true, ◌&&◌, arith}
use althea_rs.Prelude.Maps.{Key}

pub ip_eq_refl : (a : ℕ) → (a == a) ≡ true
ip_eq_refl a = ground arith

pub ip_eq_cong : (a b c : ℕ) → (a == b) ≡ true → (a == c) ≡ (b == c)
ip_eq_cong a b c h = ground arith

instance abbrev pub ip_key : Key ℕ
ip_key = record { eq = ◌==◌; eq_refl = ip_eq_refl; eq_cong = ip_eq_cong }

pub name_eq_cong : (a b c : String) → str_eq a b ≡ true → str_eq a c ≡ str_eq b c
name_eq_cong a b c h = ap (λ s. str_eq s c) ((eq_iff a b).0 h)

instance abbrev pub name_key : Key String
name_key = record { eq = str_eq; eq_refl = eq_refl; eq_cong = name_eq_cong }

abbrev pub counter_eq : ℕ × String → ℕ × String → Bool
counter_eq (ip, name) (ip', name') = ip == ip' && str_eq name name'

pub counter_eq_refl : (a : ℕ × String) → counter_eq a a ≡ true
counter_eq_refl (ip, name) = ground (arith, eq_refl name)

pub counter_eq_cong : (a b c : ℕ × String) → counter_eq a b ≡ true → counter_eq a c ≡ counter_eq b c
counter_eq_cong (ip, name) (ip', name') (ip'', name'') h =
    ground (arith, h, name_eq_cong name name' name'')

instance abbrev pub counter_key : Key (ℕ × String)
counter_key = record { eq = counter_eq; eq_refl = counter_eq_refl; eq_cong = counter_eq_cong }
