-- ===== src/TrafficWatcher/Bills.antt =====
-- rita/src/rita_common/traffic_watcher/mod.rs: the loops of `watch` against a sum for each neighbour.
use Prim.Native.String.{String}
use althea_rs.Prelude.{
  ℕ, ◌+◌, ◌*◌, ◌≡◌, refl, ap, ◌∙◌, sym, Bool-cases, Option-cases, inl, inr, Option, none, some, [],
  ◌∷◌, arith, if◌then◌else◌,
}
use althea_rs.Prelude.Int.{ℤ, pos, ◌+ℤ◌, ◌-ℤ◌, int_laws}
use althea_rs.Prelude.Maps.{HashMap, get, get-insert, get-eq}
use althea_rs.AltheaTypes.{Identity, identity_key}
use althea_rs.TrafficWatcher.Keys.{ip_key, name_key, counter_key}
use althea_rs.TrafficWatcher.Watch.{Counters, Debts, scale, debit, credit, bill_one, bill}

-- What a counter changes, by the price of its destination where it is one of the peer.
abbrev pub change_at : (ℕ → ℕ → ℤ → ℤ) → Option ℕ → ℕ → ℤ → ℤ
change_at change none bytes debt = debt
change_at change (some dest) bytes debt = change dest bytes debt

abbrev pub spent_at : Option ℕ → ℕ → ℕ
spent_at none bytes = 0
spent_at (some dest) bytes = dest * bytes

abbrev pub earned_at : ℕ → Option ℕ → ℕ → ℤ
earned_at local_fee none bytes = pos 0
earned_at local_fee (some dest) bytes = scale (pos dest -ℤ pos local_fee) bytes

change_at-spent :
    (o : Option ℕ) (bytes rest : ℕ) (debt : ℤ)
    → change_at debit o bytes debt -ℤ pos rest ≡ debt -ℤ pos (spent_at o bytes + rest)
change_at-spent none bytes rest debt = ap (λ n. debt -ℤ pos n) (omega arith)
change_at-spent (some dest) bytes rest debt = omega int_laws

change_at-earned :
    (local_fee : ℕ) (o : Option ℕ) (bytes : ℕ) (rest debt : ℤ)
    → change_at (credit local_fee) o bytes debt +ℤ rest
      ≡ debt +ℤ (earned_at local_fee o bytes +ℤ rest)
change_at-earned local_fee none bytes rest debt = omega int_laws
change_at-earned local_fee (some dest) bytes rest debt = omega int_laws

module _ (destinations : HashMap ℕ ℕ) (if_to_id : HashMap String Identity) (i : Identity) where
  -- The price of the destination of a counter, where it has one and its interface is that of `i`.
  unfoldable pub billed_price : ℕ → String → Option ℕ
  billed_price ip interface = elim (get ip destinations) [
    | none ↦ none
    | some dest ↦ elim (get interface if_to_id) [
      | none ↦ none
      | some id ↦ if identity_key.eq id i then some dest else none
    ]
  ]

  -- What all the counters make of a debt of `i`.
  abbrev pub changes : (ℕ → ℕ → ℤ → ℤ) → Counters → ℤ → ℤ
  changes change [] debt = debt
  changes change (((ip, interface), bytes) ∷ counters) debt =
      changes change counters (change_at change (billed_price ip interface) bytes debt)

  -- The price of all input of `i`, and that of its output less the fee.
  abbrev pub spent : Counters → ℕ
  spent [] = 0
  spent (((ip, interface), bytes) ∷ counters) =
      spent_at (billed_price ip interface) bytes + spent counters

  abbrev pub earned : ℕ → Counters → ℤ
  earned local_fee [] = pos 0
  earned local_fee (((ip, interface), bytes) ∷ counters) =
      earned_at local_fee (billed_price ip interface) bytes +ℤ earned local_fee counters

  pub changes-spent :
      (counters : Counters) (debt : ℤ) → changes debit counters debt ≡ debt -ℤ pos (spent counters)
  changes-spent [] debt = omega int_laws
  changes-spent (((ip, interface), bytes) ∷ counters) debt =
      changes-spent counters (change_at debit (billed_price ip interface) bytes debt)
      ∙ change_at-spent (billed_price ip interface) bytes (spent counters) debt

  pub changes-earned :
      (local_fee : ℕ) (counters : Counters) (debt : ℤ)
      → changes (credit local_fee) counters debt ≡ debt +ℤ earned local_fee counters
  changes-earned local_fee [] debt = omega int_laws
  changes-earned local_fee (((ip, interface), bytes) ∷ counters) debt =
      changes-earned local_fee counters
        (change_at (credit local_fee) (billed_price ip interface) bytes debt)
      ∙ change_at-earned local_fee (billed_price ip interface) bytes (earned local_fee counters)
          debt

  -- An entry of the table is changed exactly by the counters of its peer.
  get-bill_one :
      (change : ℕ → ℕ → ℤ → ℤ) (ip : ℕ) (interface : String) (bytes : ℕ) (debts : Debts) (debt : ℤ)
      → get i debts ≡ some debt
      → get i (bill_one destinations if_to_id change ip interface bytes debts)
        ≡ some (change_at change (billed_price ip interface) bytes debt)
  unfolding bill_one billed_price
  get-bill_one change ip interface bytes debts debt h =
      let as_priced = λ (o : Option ℕ). some (change_at change o bytes debt) in
      elim (Option-cases (get ip destinations)) [
        | inl e ↦
            let price : billed_price ip interface ≡ none = rw (e, billed_price) refl in
            rw (e, bill_one) h ∙ sym (ap as_priced price)
        | inr (dest, e) ↦ elim (Option-cases (get interface if_to_id)) [
          | inl f ↦
              let price : billed_price ip interface ≡ none = rw (e, f, billed_price) refl in
              rw (e, f, bill_one) h ∙ sym (ap as_priced price)
          | inr (id, f) ↦ elim (Bool-cases (identity_key.eq id i)) [
            | inl same ↦
                let price : billed_price ip interface ≡ some dest =
                  rw (e, f, same, billed_price) refl in
                let there : get id debts ≡ some debt = get-eq id i debts same ∙ h in
                rw (e, f, there, bill_one)
                  (get-insert id i (change dest bytes debt) debts ∙ rw same refl)
                ∙ sym (ap as_priced price)
            | inr other ↦
                let price : billed_price ip interface ≡ none =
                  rw (e, f, other, billed_price) refl in
                elim (Option-cases (get id debts)) [
                  | inl g ↦ rw (e, f, g, bill_one) h ∙ sym (ap as_priced price)
                  | inr (d, g) ↦
                      rw (e, f, g, bill_one)
                        (get-insert id i (change dest bytes d) debts ∙ rw other h)
                      ∙ sym (ap as_priced price)
                ]
          ]
        ]
      ]

  pub get-bill :
      (change : ℕ → ℕ → ℤ → ℤ) (counters : Counters) (debts : Debts) (debt : ℤ)
      → get i debts ≡ some debt
      → get i (bill destinations if_to_id change counters debts)
        ≡ some (changes change counters debt)
  unfolding bill
  get-bill change [] debts debt h = h
  get-bill change (((ip, interface), bytes) ∷ counters) debts debt h =
      get-bill change counters (bill_one destinations if_to_id change ip interface bytes debts)
        (change_at change (billed_price ip interface) bytes debt)
        (get-bill_one change ip interface bytes debts debt h)
