-- ===== src/LightClientManager/Bills.antt =====
-- rita/src/rita_client/light_client_manager/mod.rs with rita_common/debt_keeper/mod.rs: what `Watch` adds
-- to the debt of a client.
use mathlib.Core.Path.{subst}
use althea_rs.Prelude.{
  ℕ, ◌+◌, ◌≡◌, refl, ap, sym, ◌∙◌, inl, inr, Bool-cases, Option-cases, none, some, List, [], ◌∷◌,
  if◌then◌else◌, arith,
}
use althea_rs.Prelude.Int.{ℤ, pos, ◌+ℤ◌, ◌-ℤ◌, int_laws}
use althea_rs.Prelude.Maps.{get, get-insert, get-eq, KeysDistinct, insert-KeysDistinct}
use althea_rs.Prelude.Outcome.{ok}
use althea_rs.Num256.{Num256}
use althea_rs.AltheaTypes.{Identity, identity_key}
use althea_rs.DebtKeeper.Keeper.{DebtKeeper, Traffic, traffic_updates}
use althea_rs.DebtKeeper.Peers.{traffic_of, debt_of, debt_of-traffic_updates}
use althea_rs.TrafficWatcher.Watch.{Debts, traffic_vec}
use althea_rs.TrafficWatcher.Debts.{value_of, traffic_of-traffic_vec}
use althea_rs.ExitWatcher.{Usages}
use althea_rs.LightClientManager.{LightClientManager}
use althea_rs.LightClientManager.Watching.{
  Watched, subtract_or_insert_and_subtract, charge, bill_tunnels, watch,
}

-- The charge for one tunnel, if there is one, and what is seen after it.
abbrev pub charged : ℕ → Watched → Usages → ℕ × Usages
charged our_price tunnel seen = elim (tunnel.light_client_details) [
  | none ↦ (0, seen)
  | some details ↦ elim (tunnel.counter) [
    | none ↦ (0, seen)
    | some counter ↦ elim (charge our_price counter seen) [ none ↦ (0, seen) | some c ↦ c ]
  ]
]

-- The sum of the charges for the tunnels of one client.
abbrev pub charges_of : Identity → ℕ → List Watched → Usages → ℕ
charges_of i our_price [] seen = 0
charges_of i our_price (tunnel ∷ tunnels) seen =
    let (amount, seen') = charged our_price tunnel seen in
    (if identity_key.eq tunnel.global i then amount else 0) + charges_of i our_price tunnels seen'

subtract-value :
    (i j : Identity) (debt : ℕ) (debts : Debts)
    → value_of (get i (subtract_or_insert_and_subtract j debt debts))
      ≡ value_of (get i debts) -ℤ pos (if identity_key.eq j i then debt else 0)
unfolding subtract_or_insert_and_subtract
subtract-value i j debt debts = elim (Option-cases (get j debts)) [
  | inl e ↦ elim (Bool-cases (identity_key.eq j i)) [
    | inl same ↦
        rw (e, get-insert j i (pos 0 -ℤ pos debt) debts, same, subtract_or_insert_and_subtract)
          (rw (sym (get-eq j i debts same) ∙ e) refl)
    | inr other ↦
        rw (e, get-insert j i (pos 0 -ℤ pos debt) debts, other, subtract_or_insert_and_subtract)
          (omega int_laws)
  ]
  | inr (v, e) ↦ elim (Bool-cases (identity_key.eq j i)) [
    | inl same ↦
        rw (e, get-insert j i (v -ℤ pos debt) debts, same, subtract_or_insert_and_subtract)
          (rw (sym (get-eq j i debts same) ∙ e) refl)
    | inr other ↦
        rw (e, get-insert j i (v -ℤ pos debt) debts, other, subtract_or_insert_and_subtract)
          (omega int_laws)
  ]
]

subtract-KeysDistinct :
    (j : Identity) (debt : ℕ) (debts : Debts)
    → KeysDistinct debts
    → KeysDistinct (subtract_or_insert_and_subtract j debt debts)
unfolding subtract_or_insert_and_subtract
subtract-KeysDistinct j debt debts h = elim (Option-cases (get j debts)) [
  | inl e ↦ rw (e, subtract_or_insert_and_subtract) (insert-KeysDistinct j _ debts h)
  | inr (v, e) ↦ rw (e, subtract_or_insert_and_subtract) (insert-KeysDistinct j _ debts h)
]

billed :
    (i : Identity) (our_price : ℕ) (tunnel : Watched) (tunnels : List Watched) (seen : Usages)
    (debt : ℕ) (seen' : Usages)
    → charged our_price tunnel seen ≡ (debt, seen')
    → charges_of i our_price (tunnel ∷ tunnels) seen
      ≡ (if identity_key.eq tunnel.global i then debt else 0) + charges_of i our_price tunnels seen'
billed i our_price tunnel tunnels seen debt seen' h = rw h refl

skipped :
    (i : Identity) (our_price : ℕ) (tunnel : Watched) (tunnels : List Watched) (seen : Usages)
    → charged our_price tunnel seen ≡ (0, seen)
    → charges_of i our_price (tunnel ∷ tunnels) seen ≡ charges_of i our_price tunnels seen
skipped i our_price tunnel tunnels seen h = rw h (ground arith)

less_both : (x y z : ℤ) (m n : ℕ) → x ≡ y -ℤ pos n → y ≡ z -ℤ pos m → x ≡ z -ℤ pos (m + n)
less_both x y z m n h k = h ∙ ap (λ w. w -ℤ pos n) k ∙ omega int_laws

refused : {A : Type 0} {x : A} → none ≡ some x → ⊥
refused h = ground arith

-- What the loop does to the debt of a client.
abbrev Bills : Identity → Debts → ℕ → Debts × Usages → Type 0
Bills i debts amount last =
    (value_of (get i last.0) ≡ value_of (get i debts) -ℤ pos amount) × KeysDistinct last.0

get-bill_tunnels :
    (i : Identity) (our_price : ℕ) (tunnels : List Watched) (debts : Debts) (seen : Usages)
    (last : Debts × Usages)
    → KeysDistinct debts
    → bill_tunnels our_price tunnels (debts, seen) ≡ some last
    → Bills i debts (charges_of i our_price tunnels seen) last
unfolding bill_tunnels
get-bill_tunnels i our_price [] debts seen last distinct done =
    subst (Bills i debts 0) (ap (λ o. elim o [ none ↦ (debts, seen) | some x ↦ x ]) done)
      (omega int_laws, distinct)
get-bill_tunnels i our_price (tunnel ∷ tunnels) debts seen last distinct done =
    elim (Option-cases tunnel.light_client_details) [
      | inl e ↦
          subst (λ n. Bills i debts n last)
            (sym (skipped i our_price tunnel tunnels seen (rw e refl)))
            (get-bill_tunnels i our_price tunnels debts seen last distinct
              (rw (e, bill_tunnels) at done))
      | inr (details, e) ↦ elim (Option-cases tunnel.counter) [
        | inl f ↦
            subst (λ n. Bills i debts n last)
              (sym (skipped i our_price tunnel tunnels seen (rw (e, f) refl)))
              (get-bill_tunnels i our_price tunnels debts seen last distinct
                (rw (e, f, bill_tunnels) at done))
        | inr (counter, f) ↦ elim (Option-cases (charge our_price counter seen)) [
          | inl g ↦ absurd (refused (rw (e, f, g, bill_tunnels) at done))
          | inr ((debt, seen'), g) ↦
              let rest =
                get-bill_tunnels i our_price tunnels
                  (subtract_or_insert_and_subtract tunnel.global debt debts) seen' last
                  (subtract-KeysDistinct tunnel.global debt debts distinct)
                  (rw (e, f, g, bill_tunnels) at done) in
              subst (λ n. Bills i debts n last)
                (sym
                  (billed i our_price tunnel tunnels seen debt seen' (rw (e, f, g, charged) refl)))
                (less_both _ _ _ _ _ rest.0 (subtract-value i tunnel.global debt debts), rest.1)
        ]
      ]
    ]

module _ (num : Num256) where
  -- When the debt keeper has handled what `Watch` sends, the debt of each client has shrunk by the sum
  -- of what `charge` finds for its tunnels. Neither actor panics.
  pub debt_of-watch :
      (i : Identity) (local_fee exit_dest_price : ℕ) (tunnels : List Watched)
      (m last : LightClientManager) (traffic : List Traffic) (k : DebtKeeper)
      → watch local_fee exit_dest_price tunnels m ≡ some (traffic, last)
      → (traffic_updates num traffic k).0 ≡ ok tt
      → debt_of i (traffic_updates num traffic k).1
        ≡ debt_of i k -ℤ pos (charges_of i (local_fee + exit_dest_price) tunnels m.last_seen_bytes)
  unfolding watch get
  debt_of-watch i local_fee exit_dest_price tunnels m last traffic k sent handled =
      elim (Option-cases
        (bill_tunnels (local_fee + exit_dest_price) tunnels ([], m.last_seen_bytes))) [
          | inl e ↦ absurd (refused (rw (e, watch) at sent))
          | inr ((debts, seen), e) ↦
              let bills =
                get-bill_tunnels i (local_fee + exit_dest_price) tunnels [] m.last_seen_bytes
                  (debts, seen) tt e in
              let same : traffic_vec debts ≡ traffic =
                ap (λ o. elim o [ none ↦ [] | some x ↦ x.0 ]) (rw (e, watch) at sent) in
              debt_of-traffic_updates num i traffic k handled
              ∙ ap (λ z. debt_of i k +ℤ z)
                  (ap (traffic_of i) (sym same) ∙ traffic_of-traffic_vec i debts bills.1 ∙ bills.0)
              ∙ omega int_laws
        ]
