-- ===== src/UsageTracker.antt =====
-- rita/src/rita_common/usage_tracker/mod.rs: the history of traffic and payments by the hour. The
-- front of a `VecDeque` is the head of a list. Sums of `u64` that overflow, and a difference below
-- zero, panic.
pub mod History
mod Tests
use Prim.Native.String.{String}
use althea_rs.Prelude.{
  ℕ, ◌+◌, ◌-◌, ◌^◌, Bool, true, false, Option, none, some, List, [], ◌∷◌, ◌++◌, ltb, ◌==◌, ◌&&◌,
  take, if◌then◌else◌,
}
use althea_rs.AltheaTypes.{Identity, PaymentTx}

-- `MAX_ENTRIES`
abbrev pub max_entries : ℕ
max_entries = 8760

-- `SAVE_FREQENCY`
abbrev pub save_frequency : ℕ
save_frequency = 4

pub data UsageType : Type 0 where
  client relay exit : UsageType

pub record UsageHour : Type 0 where
  pub index : ℕ
  pub up : ℕ
  pub down : ℕ
  pub price : ℕ

pub record FormattedPaymentTx : Type 0 where
  pub to : Identity
  pub from : Identity
  pub amount : ℕ
  pub txid : String

pub record PaymentHour : Type 0 where
  pub index : ℕ
  pub payments : List FormattedPaymentTx

pub record UsageTracker : Type 0 where
  pub last_save_hour : ℕ
  pub client_bandwith : List UsageHour
  pub relay_bandwith : List UsageHour
  pub exit_bandwith : List UsageHour
  pub payments : List PaymentHour

-- `blank_usage_tracker`
unfoldable pub blank_usage_tracker : UsageTracker
blank_usage_tracker = record {
  last_save_hour = 0;
  client_bandwith = [];
  relay_bandwith = [];
  exit_bandwith = [];
  payments = [];
}

-- An addition of `u64`, `none` where it overflows.
abbrev pub add_u64 : ℕ → ℕ → Option ℕ
add_u64 a b = if ltb (a + b) (2 ^ 64) then some (a + b) else none

pub record UpdateUsage : Type 0 where
  pub kind : UsageType
  pub up : ℕ
  pub down : ℕ
  pub price : ℕ

abbrev pub new_hour : ℕ → UpdateUsage → UsageHour
new_hour current_hour msg = record {
  index = current_hour;
  up = msg.up;
  down = msg.down;
  price = msg.price;
}

-- The entry of the hour, or a new one in front; then the oldest entries beyond the limit go.
unfoldable pub count_usage : ℕ → UpdateUsage → List UsageHour → Option (List UsageHour)
count_usage current_hour msg [] = some (take max_entries (new_hour current_hour msg ∷ []))
count_usage current_hour msg (entry ∷ older) =
    if entry.index == current_hour
    then (elim (add_u64 entry.up msg.up) [
      | none ↦ none
      | some up ↦ elim (add_u64 entry.down msg.down) [
        | none ↦ none
        | some down ↦ some (take max_entries (record entry { up = up; down = down } ∷ older))
      ]
    ])
    else some (take max_entries (new_hour current_hour msg ∷ (entry ∷ older)))

-- Whether the data is saved, or `none` where the difference is below zero.
unfoldable pub is_save_due : ℕ → UsageTracker → Option Bool
is_save_due current_hour tracker =
    if ltb current_hour save_frequency
    then none
    else some (ltb tracker.last_save_hour (current_hour - save_frequency))

-- The end of both handlers: the flag says that `save` runs, whose outcome is only logged.
unfoldable pub save_if_due : ℕ → UsageTracker → Option (Bool × UsageTracker)
unfolding is_save_due
save_if_due current_hour tracker = elim (is_save_due current_hour tracker) [
  | none ↦ none
  | some true ↦ some (true, record tracker { last_save_hour = current_hour })
  | some false ↦ some (false, tracker)
]

abbrev pub history_of : UsageType → UsageTracker → List UsageHour
history_of client tracker = tracker.client_bandwith
history_of relay tracker = tracker.relay_bandwith
history_of exit tracker = tracker.exit_bandwith

abbrev pub with_history : UsageType → List UsageHour → UsageTracker → UsageTracker
with_history client history tracker = record tracker { client_bandwith = history }
with_history relay history tracker = record tracker { relay_bandwith = history }
with_history exit history tracker = record tracker { exit_bandwith = history }

unfoldable pub process_usage_update : ℕ → UpdateUsage → UsageTracker → Option (Bool × UsageTracker)
unfolding count_usage save_if_due
process_usage_update current_hour msg tracker =
    elim (count_usage current_hour msg (history_of msg.kind tracker)) [
      | none ↦ none
      | some history ↦ save_if_due current_hour (with_history msg.kind history tracker)
    ]

-- `to_formatted_payment_tx`, with the format of a txid.
unfoldable pub to_formatted_payment_tx : (ℕ → String) → PaymentTx → FormattedPaymentTx
to_formatted_payment_tx format input = record {
  to = input.to;
  from = input.from;
  amount = input.amount;
  txid = elim input.txid [ none ↦ "" | some txid ↦ format txid ];
}

unfoldable pub count_payment : ℕ → FormattedPaymentTx → List PaymentHour → List PaymentHour
count_payment current_hour payment [] =
    take max_entries (record { index = current_hour; payments = payment ∷ [] } ∷ [])
count_payment current_hour payment (entry ∷ older) =
    if entry.index == current_hour
    then take max_entries (record entry { payments = entry.payments ++ (payment ∷ []) } ∷ older)
    else take max_entries
        (record { index = current_hour; payments = payment ∷ [] } ∷ (entry ∷ older))

-- `Handler<UpdatePayments>`
unfoldable pub handle_update_payments :
    (ℕ → String) → ℕ → PaymentTx → UsageTracker → Option (Bool × UsageTracker)
unfolding count_payment save_if_due to_formatted_payment_tx
handle_update_payments format current_hour payment tracker =
    save_if_due current_hour (record tracker {
      payments =
          count_payment current_hour (to_formatted_payment_tx format payment) tracker.payments;
    })
