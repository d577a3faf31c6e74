-- ===== src/TrafficWatcher/Debts.antt =====
-- rita/src/rita_common/traffic_watcher/mod.rs and debt_keeper/mod.rs: what a round of `watch` adds to
-- the debt of a neighbour.
use Prim.Native.String.{String}
use althea_rs.Prelude.{
  ℕ, ◌≡◌, refl, ap, ◌∙◌, sym, Bool-cases, Option-cases, inl, inr, Option, none, some, List, [], ◌∷◌,
}
use althea_rs.Prelude.Int.{ℤ, pos, ◌+ℤ◌, ◌-ℤ◌, int_laws}
use althea_rs.Prelude.Maps.{
  HashMap, get, insert, get-insert, get-eq, KeysDistinct, insert-KeysDistinct,
}
use althea_rs.Prelude.Outcome.{ok}
use althea_rs.Num256.{Num256}
use althea_rs.AltheaTypes.{Identity, identity_key}
use althea_rs.UsageTracker.{UpdateUsage}
use althea_rs.DebtKeeper.Keeper.{DebtKeeper, Traffic, traffic_updates}
use althea_rs.DebtKeeper.Peers.{traffic_of, debt_of, debt_of-traffic_updates}
use althea_rs.TrafficWatcher.Keys.{ip_key, name_key, counter_key}
use althea_rs.TrafficWatcher.Watch.{
  Counters, Debts, Inputs, helper_maps, get_babel_info, get_counters, setup_debts, debit, credit,
  bill_one, bill, traffic_vec, final_debts, watch,
}
use althea_rs.TrafficWatcher.Bills.{spent, earned, get-bill, changes, changes-spent, changes-earned}

abbrev IsZero : Option ℤ → Type 0
IsZero none = Unit
IsZero (some d) = d ≡ pos 0

setup_debts-IsZero :
    (i : Identity) (identities : HashMap ℕ Identity) (debts : Debts)
    → IsZero (get i debts)
    → IsZero (get i (setup_debts identities debts))
unfolding setup_debts
setup_debts-IsZero i [] debts h = h
setup_debts-IsZero i ((ip, ident) ∷ identities) debts h =
    setup_debts-IsZero i identities (insert ident (pos 0) debts) (
      rw (get-insert ident i (pos 0) debts) (elim (Bool-cases (identity_key.eq ident i)) [
        | inl same ↦ rw same refl
        | inr other ↦ rw other h
      ]))

setup_debts-KeysDistinct :
    (identities : HashMap ℕ Identity) (debts : Debts)
    → KeysDistinct debts
    → KeysDistinct (setup_debts identities debts)
unfolding setup_debts
setup_debts-KeysDistinct [] debts h = h
setup_debts-KeysDistinct ((ip, ident) ∷ identities) debts h =
    setup_debts-KeysDistinct identities (insert ident (pos 0) debts)
      (insert-KeysDistinct ident (pos 0) debts h)

module _ (destinations : HashMap ℕ ℕ) (if_to_id : HashMap String Identity)
    (change : ℕ → ℕ → ℤ → ℤ) where
  bill_one-KeysDistinct :
      (ip : ℕ) (interface : String) (bytes : ℕ) (debts : Debts)
      → KeysDistinct debts
      → KeysDistinct (bill_one destinations if_to_id change ip interface bytes debts)
  unfolding bill_one
  bill_one-KeysDistinct ip interface bytes debts h = elim (Option-cases (get ip destinations)) [
    | inl e ↦ rw (e, bill_one) h
    | inr (dest, e) ↦ elim (Option-cases (get interface if_to_id)) [
      | inl f ↦ rw (e, f, bill_one) h
      | inr (id, f) ↦ elim (Option-cases (get id debts)) [
        | inl g ↦ rw (e, f, g, bill_one) h
        | inr (d, g) ↦ rw (e, f, g, bill_one) (insert-KeysDistinct id (change dest bytes d) debts h)
      ]
    ]
  ]

  bill-KeysDistinct :
      (counters : Counters) (debts : Debts)
      → KeysDistinct debts
      → KeysDistinct (bill destinations if_to_id change counters debts)
  unfolding bill
  bill-KeysDistinct [] debts h = h
  bill-KeysDistinct (((ip, interface), bytes) ∷ counters) debts h =
      bill-KeysDistinct counters (bill_one destinations if_to_id change ip interface bytes debts)
        (bill_one-KeysDistinct ip interface bytes debts h)

-- The list of the traffic has each entry of the table once.
abbrev pub value_of : Option ℤ → ℤ
value_of none = pos 0
value_of (some d) = d

pub traffic_of-traffic_vec :
    (i : Identity) (debts : Debts)
    → KeysDistinct debts
    → traffic_of i (traffic_vec debts) ≡ value_of (get i debts)
unfolding traffic_of traffic_vec get
traffic_of-traffic_vec i [] h = refl
traffic_of-traffic_vec i ((j, amount) ∷ debts) h = elim (Bool-cases (identity_key.eq j i)) [
  | inl same ↦
      let rest : traffic_of i (traffic_vec debts) ≡ pos 0 =
        traffic_of-traffic_vec i debts h.1 ∙ ap value_of (sym (get-eq j i debts same) ∙ h.0) in
      rw same (rw rest (omega int_laws))
  | inr other ↦ rw other (traffic_of-traffic_vec i debts h.1)
]

module _ (inputs : Inputs) (destinations : HashMap ℕ ℕ) (input output : Counters)
    (i : Identity) where
  -- What the neighbour `i` is to pay for the traffic of the round.
  abbrev pub due : ℤ
  due =
      let if_to_id = (helper_maps inputs.neighbors ([], [])).1 in
      earned destinations if_to_id i inputs.local_fee output
      -ℤ pos (spent destinations if_to_id i input)

  get-final_debts :
      (d : ℤ)
      → get i (setup_debts (helper_maps inputs.neighbors ([], [])).0 []) ≡ some d
      → get i (final_debts inputs destinations input output) ≡ some due
  unfolding final_debts get
  get-final_debts d h =
      let (identities, if_to_id) = helper_maps inputs.neighbors ([], []) in
      let zero_at_first : d ≡ pos 0 = rw h at (setup_debts-IsZero i identities [] tt) in
      let after_input =
        get-bill destinations if_to_id i debit input (setup_debts identities []) d h in
      get-bill destinations if_to_id i (credit inputs.local_fee) output
        (bill destinations if_to_id debit input (setup_debts identities []))
        (changes destinations if_to_id i debit input d) after_input
      ∙ ap some (
          changes-earned destinations if_to_id i inputs.local_fee output
            (changes destinations if_to_id i debit input d)
          ∙ rw (changes-spent destinations if_to_id i input d, zero_at_first) (omega int_laws))

  final_debts-KeysDistinct : KeysDistinct (final_debts inputs destinations input output)
  unfolding final_debts
  final_debts-KeysDistinct =
      let (identities, if_to_id) = helper_maps inputs.neighbors ([], []) in
      bill-KeysDistinct destinations if_to_id (credit inputs.local_fee) output
        (bill destinations if_to_id debit input (setup_debts identities []))
        (bill-KeysDistinct destinations if_to_id debit input (setup_debts identities [])
          (setup_debts-KeysDistinct identities [] tt))

  traffic_of-final_debts :
      (d : ℤ)
      → get i (setup_debts (helper_maps inputs.neighbors ([], [])).0 []) ≡ some d
      → traffic_of i (traffic_vec (final_debts inputs destinations input output)) ≡ due
  traffic_of-final_debts d h =
      traffic_of-traffic_vec i (final_debts inputs destinations input output)
        final_debts-KeysDistinct
      ∙ ap value_of (get-final_debts d h)

  -- What a round sends for `i`, where it sends anything.
  abbrev IsBilled : Option (UpdateUsage × List Traffic) → Type 0
  IsBilled none = Unit
  IsBilled (some (usage, traffic)) = traffic_of i traffic ≡ due

  watch-IsBilled :
      (d : ℤ)
      → get_babel_info inputs.max_fee inputs.local_fee inputs.mesh_ip inputs.routes
        ≡ some destinations
      → get_counters inputs.input inputs.forward_input ≡ some input
      → get_counters inputs.output inputs.forward_output ≡ some output
      → get i (setup_debts (helper_maps inputs.neighbors ([], [])).0 []) ≡ some d
      → IsBilled (watch inputs)
  unfolding watch
  watch-IsBilled d babel read_in read_out h =
      rw (babel, read_in, read_out, watch) (traffic_of-final_debts d h)

  -- When the debt keeper has handled what `watch` sends, the debt of a neighbour that is in the table
  -- has grown by the price of the bytes sent to it, less the own fee, and shrunk by the price of the
  -- bytes that it sent, each counter by the price of its destination; the counters without a
  -- destination or an interface of that neighbour do not count.
  pub watch-debt_of :
      (num : Num256) (k : DebtKeeper) (usage : UpdateUsage) (traffic : List Traffic) (d : ℤ)
      → get_babel_info inputs.max_fee inputs.local_fee inputs.mesh_ip inputs.routes
        ≡ some destinations
      → get_counters inputs.input inputs.forward_input ≡ some input
      → get_counters inputs.output inputs.forward_output ≡ some output
      → get i (setup_debts (helper_maps inputs.neighbors ([], [])).0 []) ≡ some d
      → watch inputs ≡ some (usage, traffic)
      → (traffic_updates num traffic k).0 ≡ ok tt
      → debt_of i (traffic_updates num traffic k).1 ≡ debt_of i k +ℤ due
  watch-debt_of num k usage traffic d babel read_in read_out h sent handled =
      debt_of-traffic_updates num i traffic k handled
      ∙ ap (λ z. debt_of i k +ℤ z) (rw sent at (watch-IsBilled d babel read_in read_out h))
