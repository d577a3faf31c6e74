-- ===== src/TunnelManager/Closing.antt =====
-- rita/src/rita_common/tunnel_manager/mod.rs: the attempts to close a tunnel, one after another.
use althea_rs.Prelude.{
  ℕ, zero, suc, ◌+◌, ◌≡◌, ◌≤◌, ap, ◌∙◌, refl, Bool, true, false, Bool-cases, inl, inr, Option-cases,
  lt→ltb, Option, none, some, List, [], ◌∷◌, ◌++◌, arith, if◌then◌else◌, any, ltb, ◌||◌,
}
use althea_rs.TunnelManager.Tunnel.{Tunnel}
use althea_rs.TunnelManager.Manager.{
  Call, hello, unmonitor, port_callback, monitor, del_interface, range,
}
use althea_rs.TunnelManager.Expiry.{close, unmonitored}

-- The calls that are left when each attempt to unmonitor is made, up to a number of them; the
-- attempt with a number may succeed.
abbrev pub follow : (ℕ → Bool) → ℕ → List Call → List Call
follow succeeds zero calls = calls
follow succeeds (suc more) [] = []
follow succeeds (suc more) (unmonitor tunnel n ∷ calls) =
    follow succeeds more (unmonitored (succeeds n) tunnel n ++ calls)
follow succeeds (suc more) (del_interface name ∷ calls) =
    del_interface name ∷ follow succeeds more calls
follow succeeds (suc more) (monitor tunnel n ∷ calls) =
    monitor tunnel n ∷ follow succeeds more calls
follow succeeds (suc more) (port_callback port ∷ calls) =
    port_callback port ∷ follow succeeds more calls
follow succeeds (suc more) (hello port ∷ calls) = hello port ∷ follow succeeds more calls

abbrev has_value : Option ℕ → Bool
has_value none = false
has_value (some a) = true

not_ltb : (a b : ℕ) → b ≤ a → ltb a b ≡ false
not_ltb a b h = ground arith

follow-nil : (succeeds : ℕ → Bool) (more : ℕ) → follow succeeds more [] ≡ []
follow-nil succeeds zero = refl
follow-nil succeeds (suc more) = refl

abbrev released : Tunnel → List Call
released t = del_interface t.iface_name ∷ port_callback t.listen_port ∷ []

follow-released :
    (succeeds : ℕ → Bool) (more : ℕ) (t : Tunnel) → follow succeeds more (released t) ≡ released t
follow-released succeeds zero t = refl
follow-released succeeds (suc zero) t = refl
follow-released succeeds (suc (suc more)) t = rw (follow-nil succeeds more) refl

follow-unmonitor :
    (succeeds : ℕ → Bool) (more n : ℕ) (t : Tunnel)
    → n + more ≡ 10
    → follow succeeds (suc more) (unmonitor t n ∷ [])
      ≡ (if any succeeds (range n (suc more)) then released t else [])
unfolding unmonitored
follow-unmonitor succeeds zero n t h = elim (Bool-cases (succeeds n)) [
  | inl done ↦ rw (done, unmonitored) refl
  | inr fails ↦ rw (fails, not_ltb n 10 (omega arith), unmonitored) refl
]
follow-unmonitor succeeds (suc more) n t h = elim (Bool-cases (succeeds n)) [
  | inl done ↦
      ap (λ b. follow succeeds (suc more) (unmonitored b t n ++ [])) done
      ∙ rw done (follow-released succeeds (suc more) t)
  | inr fails ↦
      ap (λ b. follow succeeds (suc more) (unmonitored b t n ++ [])) fails
      ∙ ap (λ b. follow succeeds (suc more) ((if b then unmonitor t (n + 1) ∷ [] else []) ++ []))
          (lt→ltb n 10 (omega arith))
      ∙ rw fails (follow-unmonitor succeeds more (n + 1) t (omega arith))
]

-- A tunnel that is closed gives up its interface and its port, once, at once for a light client,
-- and else exactly if one of the first eleven attempts to unmonitor it succeeds.
pub close-follow :
    (succeeds : ℕ → Bool) (t : Tunnel)
    → follow succeeds 11 (close t) ≡ (
        if has_value t.light_client_details || any succeeds (range 0 11)
        then del_interface t.iface_name ∷ port_callback t.listen_port ∷ []
        else [])
unfolding close
close-follow succeeds t = elim (Option-cases t.light_client_details) [
  | inl neighbor ↦ rw (neighbor, close) (follow-unmonitor succeeds 10 0 t refl)
  | inr (ip, client) ↦ rw (client, close) (follow-released succeeds 11 t)
]
