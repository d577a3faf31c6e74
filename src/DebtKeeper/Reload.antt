-- ===== src/DebtKeeper/Reload.antt =====
-- rita/src/rita_common/debt_keeper/mod.rs: what a restart makes of the saved debts.
use althea_rs.Prelude.{
  ◌≡◌, refl, false, Option, none, some, List, [], ◌∷◌, ◌&&◌, ◌==◌, map, if◌then◌else◌, arith,
}
use althea_rs.Prelude.Int.{pos, leb_ℤ, max_ℤ}
use althea_rs.Prelude.Maps.{get, insert, get-insert, get-eq, KeysDistinct}
use althea_rs.AltheaTypes.{Identity, identity_key}
use althea_rs.DebtKeeper.Peer.{NodeDebtData}
use althea_rs.DebtKeeper.Keeper.{
  DebtData, DebtKeeper, debt_data_to_ser, deserialized, load_entries, load,
}

-- What a restart keeps of one entry: what they owe us is forgiven, what we owe and their credit
-- stay, no payment is in flight, and an entry with neither debt of ours nor credit is dropped.
pub reloaded : NodeDebtData → Option NodeDebtData
reloaded d =
    if leb_ℤ d.debt (pos 0) && d.incoming_payments == 0
    then none
    else (some record d {
      debt = max_ℤ d.debt (pos 0);
      payment_in_flight = false;
      payment_in_flight_start = none;
      last_successful_payment = none;
    })

abbrev then_reloaded : Option NodeDebtData → Option NodeDebtData → Option NodeDebtData
then_reloaded none before = before
then_reloaded (some d) before = elim (reloaded d) [ none ↦ before | some e ↦ some e ]

-- What is written to the file, and read back.
pub saved : DebtData → List (Identity × NodeDebtData)
saved m = map (λ (i, d). (i, deserialized d)) (debt_data_to_ser m)

get-load_entries :
    (m : DebtData) (j : Identity) (ret : DebtData)
    → KeysDistinct m
    → get j (load_entries (saved m) ret) ≡ then_reloaded (get j m) (get j ret)
unfolding load_entries saved debt_data_to_ser get deserialized reloaded
get-load_entries [] j ret h = refl
get-load_entries ((i, d) ∷ m) j ret h = ground (
  arith,
  get-load_entries m j ret h.1,
  get-load_entries m j (insert i (record (deserialized d) { debt = pos 0 }) ret) h.1,
  get-load_entries m j (insert i (deserialized d) ret) h.1,
  get-insert i j (record (deserialized d) { debt = pos 0 }) ret,
  get-insert i j (deserialized d) ret,
  get-eq i j m,
)

-- After a restart from the saved file, every identity finds just what `reloaded` keeps of its entry:
-- nothing where it had none, or where they owed us and had no credit; else the credit, the counters,
-- and a debt of ours, with theirs forgiven and no payment in flight.
pub get-load :
    (k : DebtKeeper) (j : Identity)
    → KeysDistinct k.debt_data
    → get j (load (some (saved k.debt_data))).debt_data
      ≡ (elim (get j k.debt_data) [ none ↦ none | some d ↦ reloaded d ])
unfolding load get
get-load k j h = ground (arith, get-load_entries k.debt_data j [] h)
