-- ===== src/UsageTracker/History.antt =====
-- rita/src/rita_common/usage_tracker/mod.rs: the history of the usage by the hour.
use althea_rs.Prelude.{
  ℕ, zero, suc, ◌+◌, ◌<◌, ◌≤◌, ◌^◌, ◌≡◌, ◌≢◌, refl, Bool, ltb, ◌==◌, if◌then◌else◌, Option, none,
  some, List, [], ◌∷◌, inl, inr, ◌⊎◌, length, take, arith,
}
use althea_rs.UsageTracker.{
  UsageType, client, relay, exit, UsageHour, UpdateUsage, UsageTracker, max_entries, add_u64,
  count_usage, new_hour, save_if_due, is_save_due, history_of, with_history, process_usage_update,
}

-- Later hours stand before earlier ones, each once.
abbrev pub IsDescending : List UsageHour → Type 0
IsDescending [] = Unit
IsDescending (e ∷ []) = Unit
IsDescending (e ∷ (f ∷ es)) = f.index < e.index × IsDescending (f ∷ es)

abbrev pub IsHistory : List UsageHour → Type 0
IsHistory h = IsDescending h × length h ≤ max_entries

-- The last hour that has an entry is not after an hour.
abbrev pub IsUpTo : ℕ → List UsageHour → Type 0
IsUpTo hour [] = Unit
IsUpTo hour (e ∷ es) = e.index ≤ hour

abbrev pub total_up : List UsageHour → ℕ
total_up [] = 0
total_up (e ∷ es) = e.up + total_up es

abbrev pub total_down : List UsageHour → ℕ
total_down [] = 0
total_down (e ∷ es) = e.down + total_down es

take-IsDescending : (n : ℕ) (h : List UsageHour) → IsDescending h → IsDescending (take n h)
take-IsDescending zero h d = tt
take-IsDescending (suc n) [] d = tt
take-IsDescending (suc zero) (e ∷ []) d = tt
take-IsDescending (suc (suc n)) (e ∷ []) d = tt
take-IsDescending (suc zero) (e ∷ (f ∷ es)) d = tt
take-IsDescending (suc (suc n)) (e ∷ (f ∷ es)) (lt, d) = (lt, take-IsDescending (suc n) (f ∷ es) d)

length-take_le : (n : ℕ) (h : List UsageHour) → length (take n h) ≤ n
length-take_le zero h = omega arith
length-take_le (suc n) [] = omega arith
length-take_le (suc n) (e ∷ es) = let rest = length-take_le n es in omega arith

take_all : (n : ℕ) (h : List UsageHour) → length h ≤ n → take n h ≡ h
take_all zero [] l = refl
take_all zero (e ∷ es) l = absurd (omega arith)
take_all (suc n) [] l = refl
take_all (suc n) (e ∷ es) l = let rest = take_all n es (omega arith) in rw rest refl

add_u64-fits : (a b : ℕ) → a + b < 2 ^ 64 → add_u64 a b ≡ some (a + b)
add_u64-fits a b h = ground arith

-- What a history has for an hour: the bytes, and the price of the first entry.
abbrev pub up_in : ℕ → List UsageHour → ℕ
up_in hour [] = 0
up_in hour (e ∷ es) = (if e.index == hour then e.up else 0) + up_in hour es

abbrev pub down_in : ℕ → List UsageHour → ℕ
down_in hour [] = 0
down_in hour (e ∷ es) = (if e.index == hour then e.down else 0) + down_in hour es

abbrev pub price_in : ℕ → List UsageHour → Option ℕ
price_in hour [] = none
price_in hour (e ∷ es) = if e.index == hour then some e.price else price_in hour es

-- The price of an hour that has one, or else that of the message.
abbrev pub price_or : ℕ → Option ℕ → ℕ
price_or price none = price
price_or price (some p) = p

-- Each hour has what it had, and the current one what the message reports besides, at the price of
-- the first message of the hour.
abbrev pub CountsIn : ℕ → UpdateUsage → List UsageHour → List UsageHour → Type 0
CountsIn hour msg h h' =
    (i : ℕ)
    → up_in i h' ≡ up_in i h + (if i == hour then msg.up else 0)
      × down_in i h' ≡ down_in i h + (if i == hour then msg.down else 0)
      × price_in i h'
        ≡ (if i == hour then some (price_or msg.price (price_in i h)) else price_in i h)

-- The new history counts the message and nothing else, and is a history up to the hour.
abbrev pub Counts : ℕ → UpdateUsage → List UsageHour → Option (List UsageHour) → Type 0
Counts hour msg h none = ⊥
Counts hour msg h (some h') =
    total_up h' ≡ total_up h + msg.up
    × total_down h' ≡ total_down h + msg.down
    × IsHistory h'
    × IsUpTo hour h'
    × CountsIn hour msg h h'

same_or_less : (i j : ℕ) → i ≤ j → i ≡ j ⊎ i < j
same_or_less i j h = ground arith

kept :
    (hour : ℕ) (msg : UpdateUsage) (h new : List UsageHour)
    → total_up new ≡ total_up h + msg.up
    → total_down new ≡ total_down h + msg.down
    → IsHistory new
    → IsUpTo hour new
    → CountsIn hour msg h new
    → Counts hour msg h (some (take max_entries new))
kept hour msg h new hu hd (d, l) t each = rw (take_all max_entries new l) (hu, hd, (d, l), t, each)

raised :
    (e : UsageHour) (up down : ℕ) (es : List UsageHour)
    → IsDescending (e ∷ es)
    → IsDescending (record e { up = up; down = down } ∷ es)
raised e up down [] d = tt
raised e up down (f ∷ es) d = d

count_usage-same :
    (hour : ℕ) (msg : UpdateUsage) (e : UsageHour) (es : List UsageHour)
    → e.index ≡ hour
    → e.up + msg.up < 2 ^ 64
    → e.down + msg.down < 2 ^ 64
    → count_usage hour msg (e ∷ es)
      ≡ some (take max_entries (record e { up = e.up + msg.up; down = e.down + msg.down } ∷ es))
unfolding count_usage
count_usage-same hour msg e es h hu hd = ground arith

count_usage-new :
    (hour : ℕ) (msg : UpdateUsage) (e : UsageHour) (es : List UsageHour)
    → e.index < hour
    → count_usage hour msg (e ∷ es) ≡ some (take max_entries (new_hour hour msg ∷ (e ∷ es)))
unfolding count_usage
count_usage-new hour msg e es h = ground arith

-- An hour after all those of a history has no entry in it.
no_price :
    (hour : ℕ) (e : UsageHour) (es : List UsageHour)
    → e.index < hour
    → IsDescending (e ∷ es)
    → price_in hour (e ∷ es) ≡ none
no_price hour e [] less d = ground arith
no_price hour e (f ∷ es) less (lt, d) = ground (arith, no_price hour f es (omega arith) d)

added :
    (hour : ℕ) (msg : UpdateUsage) (e : UsageHour) (es : List UsageHour)
    → e.index ≡ hour
    → CountsIn hour msg (e ∷ es) (record e { up = e.up + msg.up; down = e.down + msg.down } ∷ es)
added hour msg e es same i = ground arith

began :
    (hour : ℕ) (msg : UpdateUsage) (h : List UsageHour)
    → price_in hour h ≡ none
    → CountsIn hour msg h (new_hour hour msg ∷ h)
began hour msg h fresh i = ground arith

-- In a history that is not full, whose last entry is not after the current hour, and whose totals
-- with those of the message are below 2^64, a message is counted: the totals rise by exactly what
-- it reports, and the hours stay in order, each once.
count_usage-Counts :
    (hour : ℕ) (msg : UpdateUsage) (h : List UsageHour)
    → IsDescending h
    → length h < max_entries
    → IsUpTo hour h
    → total_up h + msg.up < 2 ^ 64
    → total_down h + msg.down < 2 ^ 64
    → Counts hour msg h (count_usage hour msg h)
unfolding count_usage
count_usage-Counts hour msg [] d l t hu hd =
    kept hour msg [] (new_hour hour msg ∷ []) (omega arith) (omega arith) (tt, omega arith)
      (omega arith) (began hour msg [] refl)
count_usage-Counts hour msg (e ∷ es) d l t hu hd = elim (same_or_less e.index hour t) [
  | inl same ↦ rw (count_usage-same hour msg e es same (omega arith) (omega arith)) (
      kept hour msg (e ∷ es) (record e { up = e.up + msg.up; down = e.down + msg.down } ∷ es)
        (omega arith) (omega arith) (raised e (e.up + msg.up) (e.down + msg.down) es d, omega arith)
        (omega arith) (added hour msg e es same))
  | inr less ↦ rw (count_usage-new hour msg e es less) (
      kept hour msg (e ∷ es) (new_hour hour msg ∷ (e ∷ es)) (omega arith) (omega arith)
        ((less, d), omega arith) (omega arith)
        (began hour msg (e ∷ es) (no_price hour e es less d)))
]

-- An update counts in the history of its kind and leaves everything else; the data is saved if more
-- than four hours have passed since the hour of the last save.
abbrev pub Processes : ℕ → UpdateUsage → UsageTracker → Option (Bool × UsageTracker) → Type 0
Processes hour msg t none = ⊥
Processes hour msg t (some (saved, t')) =
    Counts hour msg (history_of msg.kind t) (some (history_of msg.kind t'))
    × ((kind : UsageType) → kind ≢ msg.kind → history_of kind t' ≡ history_of kind t)
    × t'.payments ≡ t.payments
    × saved ≡ ltb (t.last_save_hour + 4) hour
    × t'.last_save_hour ≡ (if saved then hour else t.last_save_hour)

last_save_hour-with_history :
    (kind : UsageType) (h : List UsageHour) (t : UsageTracker)
    → (with_history kind h t).last_save_hour ≡ t.last_save_hour
last_save_hour-with_history client h t = refl
last_save_hour-with_history relay h t = refl
last_save_hour-with_history exit h t = refl

-- What a new history, and a new hour of the last save, leave of the tracker.
stored :
    (kind : UsageType) (h : List UsageHour) (t : UsageTracker) (hour : ℕ)
    → let t' = record (with_history kind h t) { last_save_hour = hour } in
      history_of kind t' ≡ h
      × ((other : UsageType) → other ≢ kind → history_of other t' ≡ history_of other t)
      × t'.payments ≡ t.payments
stored client h t hour = (refl, (λ other ne. ground arith), refl)
stored relay h t hour = (refl, (λ other ne. ground arith), refl)
stored exit h t hour = (refl, (λ other ne. ground arith), refl)

save_if_due-saves :
    (hour : ℕ) (t : UsageTracker)
    → 4 ≤ hour
    → let saved = ltb (t.last_save_hour + 4) hour in
      save_if_due hour t
      ≡ some (saved, record t { last_save_hour = if saved then hour else t.last_save_hour })
unfolding save_if_due is_save_due
save_if_due-saves hour t h = ground arith

process_usage_update-saves :
    (hour : ℕ) (msg : UpdateUsage) (t : UsageTracker) (h : List UsageHour)
    → count_usage hour msg (history_of msg.kind t) ≡ some h
    → process_usage_update hour msg t ≡ save_if_due hour (with_history msg.kind h t)
unfolding process_usage_update
process_usage_update-saves hour msg t h e = rw (e, process_usage_update) refl

processed :
    (hour : ℕ) (msg : UpdateUsage) (t : UsageTracker) (out : Option (List UsageHour))
    → 4 ≤ hour
    → count_usage hour msg (history_of msg.kind t) ≡ out
    → Counts hour msg (history_of msg.kind t) out
    → Processes hour msg t (process_usage_update hour msg t)
processed hour msg t none h4 e c = absurd c
processed hour msg t (some h) h4 e c =
    let saved = ltb (t.last_save_hour + 4) hour in
    let (new, others, payments) = stored msg.kind h t (if saved then hour else t.last_save_hour) in
    rw (process_usage_update-saves hour msg t h e) (
      rw (save_if_due-saves hour (with_history msg.kind h t) h4)
        (rw (last_save_hour-with_history msg.kind h t) (rw new c, others, payments, refl, refl)))

-- With the clock at four hours or more after the epoch, and a history of the kind of the update that is
-- not full, whose last entry is not after the current hour, and whose totals with those of the
-- update are below 2^64, an update does not panic: in the history of its kind it adds what it reports
-- to the bytes of the current hour, which has the price of the first update in it, and leaves every
-- other hour; the hours stay in order, each once. It leaves the other histories and the payments, and
-- saves the data exactly if more than four hours have passed since the hour of the last save.
pub process_usage_update-Processes :
    (hour : ℕ) (msg : UpdateUsage) (t : UsageTracker)
    → let h = history_of msg.kind t in
      4 ≤ hour
      → IsDescending h
      → length h < max_entries
      → IsUpTo hour h
      → total_up h + msg.up < 2 ^ 64
      → total_down h + msg.down < 2 ^ 64
      → Processes hour msg t (process_usage_update hour msg t)
process_usage_update-Processes hour msg t h4 d l u hu hd =
    let h = history_of msg.kind t in
    processed hour msg t (count_usage hour msg h) h4 refl
      (count_usage-Counts hour msg h d l u hu hd)

-- An update in an hour after those of a history begins its own entry, and only an entry beyond the
-- limit goes, the oldest: the new history has its hours in order and is within the limit again.
pub count_usage-rolls :
    (hour : ℕ) (msg : UpdateUsage) (e : UsageHour) (es : List UsageHour)
    → IsHistory (e ∷ es)
    → e.index < hour
    → let h = new_hour hour msg ∷ take 8759 (e ∷ es) in
      count_usage hour msg (e ∷ es) ≡ some h × IsHistory h
count_usage-rolls hour msg e es (d, l) before = (
  count_usage-new hour msg e es before,
  (
    take-IsDescending 8760 (new_hour hour msg ∷ (e ∷ es)) (before, d),
    length-take_le 8760 (new_hour hour msg ∷ (e ∷ es)),
  ),
)
