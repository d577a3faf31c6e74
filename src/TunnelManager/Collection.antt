-- ===== src/TunnelManager/Collection.antt =====
-- rita/src/rita_common/tunnel_manager/mod.rs: what `TriggerGC` keeps and closes.
use mathlib.Core.List.{append-nil, append_assoc}
use althea_rs.Prelude.{
  ◌≡◌, refl, sym, ap, ◌∙◌, Bool, false, not, Bool-cases, inl, inr, none, List, [], ◌∷◌, ◌++◌, arith,
  if◌then◌else◌,
}
use althea_rs.Prelude.Maps.{get, insert, KeysDistinct, get-append, insert-append}
use althea_rs.AltheaTypes.{Identity, identity_key}
use althea_rs.Time.{Instant, Duration}
use althea_rs.TunnelManager.Tunnel.{Tunnel}
use althea_rs.TunnelManager.Manager.{Tunnels, TunnelManager, tunnels_of}
use althea_rs.TunnelManager.Expiry.{
  push_tunnel, is_good, split_list, split, all_tunnels, close_all, Order, trigger_gc,
}

abbrev pub filter : (Tunnel → Bool) → List Tunnel → List Tunnel
filter p [] = []
filter p (t ∷ ts) = if p t then t ∷ filter p ts else filter p ts

-- The tunnels of a list put under an identity, where there are any.
abbrev file_under : Identity → List Tunnel → Tunnels → Tunnels
file_under key [] m = m
file_under key (t ∷ ts) m = (key, t ∷ ts) ∷ m

-- The tunnels that pass, under their identities; the identities that keep none are left out.
abbrev pub retain : (Tunnel → Bool) → Tunnels → Tunnels
retain p [] = []
retain p ((key, ts) ∷ m) = file_under key (filter p ts) (retain p m)

abbrev is_late : Instant → Duration → Tunnel → Bool
is_late now limit t = not (is_good now limit t)

-- The tunnels of a list appended to those of an identity.
abbrev extend : Identity → List Tunnel → Tunnels → Tunnels
extend key [] m = m
extend key (t ∷ ts) m = extend key ts (push_tunnel key t m)

split_list_lem :
    (now : Instant) (limit : Duration) (key : Identity) (ts : List Tunnel) (good late : Tunnels)
    → split_list now limit key ts (good, late) ≡ (
      extend key (filter (is_good now limit) ts) good,
      extend key (filter (is_late now limit) ts) late,
    )
unfolding split_list
split_list_lem now limit key [] good late = refl
split_list_lem now limit key (t ∷ ts) good late = elim (Bool-cases (is_good now limit t)) [
  | inl g ↦ rw (g, split_list_lem now limit key ts (push_tunnel key t good) late) refl
  | inr l ↦ rw (l, split_list_lem now limit key ts good (push_tunnel key t late)) refl
]

tunnels_of-last :
    (key : Identity) (us : List Tunnel) (m : Tunnels)
    → get key m ≡ none
    → tunnels_of key (m ++ ((key, us) ∷ [])) ≡ us
unfolding get
tunnels_of-last key us m h =
    rw (get-append key m ((key, us) ∷ []) h, identity_key.eq_refl key, tunnels_of) refl

push_tunnel-last :
    (key : Identity) (us : List Tunnel) (t : Tunnel) (m : Tunnels)
    → get key m ≡ none
    → push_tunnel key t (m ++ ((key, us) ∷ [])) ≡ m ++ ((key, us ++ (t ∷ [])) ∷ [])
unfolding push_tunnel insert
push_tunnel-last key us t m h =
    ap (λ vs. insert key (vs ++ (t ∷ [])) (m ++ ((key, us) ∷ []))) (tunnels_of-last key us m h)
    ∙ insert-append key (us ++ (t ∷ [])) m ((key, us) ∷ []) h
    ∙ rw (identity_key.eq_refl key, insert) refl

push_tunnel-fresh :
    (key : Identity) (t : Tunnel) (m : Tunnels)
    → get key m ≡ none
    → push_tunnel key t m ≡ m ++ ((key, t ∷ []) ∷ [])
unfolding push_tunnel insert
push_tunnel-fresh key t m h =
    rw (h, tunnels_of)
      (ap (insert key (t ∷ [])) (sym (append-nil m)) ∙ insert-append key (t ∷ []) m [] h)

-- Under an identity that is last in the map, or not in it.
extend-last :
    (key : Identity) (us ts : List Tunnel) (m : Tunnels)
    → get key m ≡ none
    → extend key ts (m ++ ((key, us) ∷ [])) ≡ m ++ ((key, us ++ ts) ∷ [])
extend-last key us [] m h = rw append-nil refl
extend-last key us (t ∷ ts) m h =
    rw (push_tunnel-last key us t m h)
      (extend-last key (us ++ (t ∷ [])) ts m h ∙ rw (append_assoc us (t ∷ []) ts) refl)

extend-fresh :
    (key : Identity) (ts : List Tunnel) (m : Tunnels)
    → get key m ≡ none
    → extend key ts m ≡ m ++ file_under key ts []
extend-fresh key [] m h = rw append-nil refl
extend-fresh key (t ∷ ts) m h = rw (push_tunnel-fresh key t m h) (extend-last key (t ∷ []) ts m h)

-- No identity of the first map is in the second.
abbrev Fresh : Tunnels → Tunnels → Type 0
Fresh [] n = Unit
Fresh ((key, ts) ∷ m) n = (get key n ≡ none) × Fresh m n

get-file_under :
    (i key : Identity) (ts : List Tunnel)
    → identity_key.eq key i ≡ false
    → get i (file_under key ts []) ≡ none
unfolding get
get-file_under i key [] h = refl
get-file_under i key (t ∷ ts) h = rw (h, get) refl

keys_differ :
    (i key : Identity) (us : List Tunnel) (m : Tunnels)
    → get key ((i, us) ∷ m) ≡ none
    → (identity_key.eq key i ≡ false) × (get key m ≡ none)
unfolding get
keys_differ i key us m h = elim (Bool-cases (identity_key.eq i key)) [
  | inl same ↦ absurd (ground (arith, h, same))
  | inr other ↦ (
    ground (arith, other, identity_key.eq_cong key i key, identity_key.eq_refl key),
    ground (arith, h, other),
  )
]

Fresh-extend :
    (key : Identity) (ts : List Tunnel) (m n : Tunnels)
    → get key m ≡ none
    → Fresh m n
    → Fresh m (n ++ file_under key ts [])
unfolding get
Fresh-extend key ts [] n h fresh = tt
Fresh-extend key ts ((i, us) ∷ m) n h fresh =
    let other = keys_differ i key us m h in
    (
      get-append i n (file_under key ts []) fresh.0 ∙ get-file_under i key ts other.0,
      Fresh-extend key ts m n other.1 fresh.1,
    )

append-file_under :
    (key : Identity) (ts : List Tunnel) (n m : Tunnels)
    → (n ++ file_under key ts []) ++ m ≡ n ++ file_under key ts m
append-file_under key [] n m = rw append-nil refl
append-file_under key (t ∷ ts) n m = append_assoc n ((key, t ∷ ts) ∷ []) m

split_lem :
    (now : Instant) (limit : Duration) (m good late : Tunnels)
    → KeysDistinct m
    → Fresh m good
    → Fresh m late
    → split now limit m (good, late)
      ≡ (good ++ retain (is_good now limit) m, late ++ retain (is_late now limit) m)
unfolding split
split_lem now limit [] good late distinct fresh_good fresh_late =
    rw (append-nil good, append-nil late) refl
split_lem now limit ((key, ts) ∷ m) good late distinct fresh_good fresh_late =
    let on_time = filter (is_good now limit) ts in
    let too_late = filter (is_late now limit) ts in
    rw
      (
        split_list_lem now limit key ts good late,
        extend-fresh key on_time good fresh_good.0,
        extend-fresh key too_late late fresh_late.0,
        split_lem now limit m (good ++ file_under key on_time [])
            (late ++ file_under key too_late []) distinct.1
            (Fresh-extend key on_time m good distinct.0 fresh_good.1)
            (Fresh-extend key too_late m late distinct.0 fresh_late.1),
        append-file_under key on_time good (retain (is_good now limit) m),
        append-file_under key too_late late (retain (is_late now limit) m),
      )
      refl

Fresh-nil : (m : Tunnels) → Fresh m []
unfolding get
Fresh-nil [] = tt
Fresh-nil ((key, ts) ∷ m) = (refl, Fresh-nil m)

pub trigger_gc_lem :
    (good_order late_order : Order) (now : Instant) (limit : Duration) (m : TunnelManager)
    → KeysDistinct m.tunnels
    → trigger_gc good_order late_order now limit m ≡ (
      close_all
          (all_tunnels (late_order.order (retain (λ t. not (is_good now limit t)) m.tunnels))),
      record m { tunnels = good_order.order (retain (is_good now limit) m.tunnels) },
    )
unfolding trigger_gc
trigger_gc_lem good_order late_order now limit m distinct =
    rw (split_lem now limit m.tunnels [] [] distinct (Fresh-nil m.tunnels) (Fresh-nil m.tunnels))
      refl
