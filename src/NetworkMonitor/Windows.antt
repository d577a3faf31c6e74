-- ===== src/NetworkMonitor/Windows.antt =====
-- rita/src/rita_common/network_monitor/mod.rs: the looping queue of the losses of the last five
-- minutes, against the list of the losses themselves.
use mathlib.Core.Path.{ap₂}
use mathlib.Core.List.{append_assoc, append-nil}
use native.Mathlib.Nat.{mod-eq_of_lt, mod_self, zero-add}
use native.Mathlib.Decide.{dec_lt}
use althea_rs.Prelude.{
  ℕ, zero, suc, ◌+◌, ◌-◌, ◌*◌, ◌/◌, ◌%◌, ◌^◌, ◌≤◌, ◌<◌, ◌≡◌, refl, ap, sym, ◌∙◌, Option, none, some,
  List, [], ◌∷◌, ◌++◌, map, arith, length, length-append, length-set, set, take,
}
use althea_rs.NetworkMonitor.Loss.{
  samples_in_five_minutes, zeros, sum, RunningPacketLossStats, new_loss_stats, add_lost, add_sample,
  get_five_min_average,
}
use althea_rs.NetworkMonitor.BitCount.{lost_of-ones, ones}

abbrev pub drop {ℓ} : {A : Type ℓ} → ℕ → List A → List A
drop zero xs = xs
drop (suc n) [] = []
drop (suc n) (x ∷ xs) = drop n xs

-- The queue in the order of arrival: the entry at the front is the oldest.
window : RunningPacketLossStats → List ℕ
window s = drop s.front s.five_minute_loss ++ take s.front s.five_minute_loss

pub sum-append : (xs ys : List ℕ) → sum (xs ++ ys) ≡ sum xs + sum ys
unfolding sum
sum-append [] ys = omega arith
sum-append (x ∷ xs) ys = omega (arith, sum-append xs ys)

sum-take-drop : (n : ℕ) (xs : List ℕ) → sum (drop n xs) + sum (take n xs) ≡ sum xs
unfolding sum
sum-take-drop zero xs = omega arith
sum-take-drop (suc n) [] = omega arith
sum-take-drop (suc n) (x ∷ xs) = omega (arith, sum-take-drop n xs)

-- A write at the front, which then moves on by one.
drop-set : (f v : ℕ) (xs : List ℕ) → drop (suc f) (set xs f v) ≡ drop (suc f) xs
drop-set f v [] = refl
drop-set zero v (x ∷ xs) = refl
drop-set (suc f) v (x ∷ xs) = drop-set f v xs

take-set :
    (f v : ℕ) (xs : List ℕ) → f < length xs → take (suc f) (set xs f v) ≡ take f xs ++ (v ∷ [])
take-set f v [] h = absurd (omega arith)
take-set zero v (x ∷ xs) h = refl
take-set (suc f) v (x ∷ xs) h = ap (λ ys. x ∷ ys) (take-set f v xs (omega arith))

drop_tail :
    (f : ℕ) (xs ys : List ℕ) → f < length xs → drop 1 (drop f xs ++ ys) ≡ drop (suc f) xs ++ ys
drop_tail f [] ys h = absurd (omega arith)
drop_tail zero (x ∷ xs) ys h = refl
drop_tail (suc f) (x ∷ xs) ys h = drop_tail f xs ys (omega arith)

-- All of a list.
drop_all : (n : ℕ) (xs : List ℕ) → length xs ≤ n → drop n xs ≡ []
drop_all zero [] h = refl
drop_all (suc n) [] h = refl
drop_all zero (x ∷ xs) h = absurd (omega arith)
drop_all (suc n) (x ∷ xs) h = drop_all n xs (omega arith)

take_all : (n : ℕ) (xs : List ℕ) → length xs ≤ n → take n xs ≡ xs
take_all zero [] h = refl
take_all (suc n) [] h = refl
take_all zero (x ∷ xs) h = absurd (omega arith)
take_all (suc n) (x ∷ xs) h = ap (λ ys. x ∷ ys) (take_all n xs (omega arith))

pub record IsRing (s : RunningPacketLossStats) : Type 0 where
  pub full : length s.five_minute_loss ≡ samples_in_five_minutes
  pub inside : s.front < samples_in_five_minutes

add_lost-IsRing : (v : ℕ) (s : RunningPacketLossStats) → IsRing s → IsRing (add_lost v s)
unfolding add_lost
add_lost-IsRing v s r = record {
  full = length-set s.five_minute_loss s.front v ∙ r.full;
  inside = omega arith;
}

add_lost-small :
    (v : ℕ) (s : RunningPacketLossStats)
    → ((add_lost v s).total_lost < 2 ^ 32) × ((add_lost v s).total_packets < 2 ^ 32)
unfolding add_lost
add_lost-small v s = (omega arith, omega arith)

-- Either way the oldest goes and the new one is the last.
shifted :
    (f v : ℕ) (xs : List ℕ)
    → f < length xs
    → drop (suc f) (set xs f v) ++ take (suc f) (set xs f v)
      ≡ drop 1 ((drop f xs ++ take f xs) ++ (v ∷ []))
shifted f v xs h =
    rw (drop-set f v xs, take-set f v xs h, append_assoc)
      (sym (drop_tail f xs (take f xs ++ (v ∷ [])) h))

rotated :
    (f v n : ℕ) (xs : List ℕ)
    → length xs ≡ n
    → f < n
    → let f' = (f + 1) % n in
      drop f' (set xs f v) ++ take f' (set xs f v) ≡ drop 1 ((drop f xs ++ take f xs) ++ (v ∷ []))
rotated f v n xs e h = elim (dec_lt (f + 1) n) [
  | yes below ↦
      let next : (f + 1) % n ≡ suc f = mod-eq_of_lt below ∙ omega arith in
      rw next (shifted f v xs (omega arith))
  | no last ↦
      let all : f + 1 ≡ n = omega arith in
      let next : (f + 1) % n ≡ 0 = ap (λ (k : ℕ). k % n) all ∙ mod_self n in
      let long : length (set xs f v) ≤ suc f = omega (arith, length-set xs f v) in
      rw (next, append-nil)
        (sym (ap₂ ◌++◌ (drop_all (suc f) (set xs f v) long) (take_all (suc f) (set xs f v) long))
          ∙ shifted f v xs (omega arith))
]

window-add_lost :
    (v : ℕ) (s : RunningPacketLossStats)
    → IsRing s
    → window (add_lost v s) ≡ drop 1 (window s ++ (v ∷ []))
unfolding window add_lost
window-add_lost v s r = rotated s.front v samples_in_five_minutes s.five_minute_loss r.full r.inside

-- A run of samples from the start.
unfoldable pub add_all : List ℕ → RunningPacketLossStats → Option RunningPacketLossStats
add_all [] s = some s
add_all (sample ∷ samples) s = elim (add_sample sample s) [
  | none ↦ none
  | some s' ↦ add_all samples s'
]

-- The packets of a period that a sample shows as lost.
abbrev pub lost : ℕ → ℕ
lost sample = 5 - ones 5 (sample / 2 ^ 11)

length-take-drop : (n : ℕ) (xs : List ℕ) → length (drop n xs) + length (take n xs) ≡ length xs
length-take-drop zero xs = omega arith
length-take-drop (suc n) [] = omega arith
length-take-drop (suc n) (x ∷ xs) = omega (arith, length-take-drop n xs)

length-window :
    (s : RunningPacketLossStats) → IsRing s → length (window s) ≡ samples_in_five_minutes
unfolding window
length-window s r = omega (
  arith,
  r.full,
  length-append (drop s.front s.five_minute_loss) (take s.front s.five_minute_loss),
  length-take-drop s.front s.five_minute_loss,
)

sum-window : (s : RunningPacketLossStats) → sum (window s) ≡ sum s.five_minute_loss
unfolding window
sum-window s =
    sum-append (drop s.front s.five_minute_loss) (take s.front s.five_minute_loss)
    ∙ sum-take-drop s.front s.five_minute_loss

drop_shift :
    (n v : ℕ) (w vs : List ℕ)
    → 0 < length w
    → drop n (drop 1 (w ++ (v ∷ [])) ++ vs) ≡ drop (suc n) (w ++ (v ∷ vs))
drop_shift n v [] vs h = absurd (omega arith)
drop_shift n v (x ∷ w) vs h = ap (drop n) (append_assoc w (v ∷ []) vs)

-- What a run of samples from `s` leads to.
record Shows (samples : List ℕ) (s s' : RunningPacketLossStats) : Type 0 where
  queue : window s' ≡ drop (length samples) (window s ++ map lost samples)
  losses : s'.total_lost ≡ (s.total_lost + sum (map lost samples)) % 2 ^ 32
  packets : s'.total_packets ≡ (s.total_packets + 5 * length samples) % 2 ^ 32

add_sample-lost :
    (sample : ℕ) (s : RunningPacketLossStats)
    → add_sample sample s ≡ some (add_lost (lost sample) s)
unfolding add_sample
add_sample-lost sample s = rw (lost_of-ones sample, add_sample)

Shows-none :
    (s : RunningPacketLossStats) → s.total_lost < 2 ^ 32 → s.total_packets < 2 ^ 32 → Shows [] s s
unfolding sum
Shows-none s l p = record {
  queue = sym (append-nil (window s));
  losses = omega arith;
  packets = omega arith;
}

Shows-more :
    (sample : ℕ) (samples : List ℕ) (s s' : RunningPacketLossStats)
    → IsRing s
    → Shows samples (add_lost (lost sample) s) s'
    → Shows (sample ∷ samples) s s'
unfolding sum add_lost
Shows-more sample samples s s' r h = record {
  queue =
      h.queue
      ∙ ap (λ w. drop (length samples) (w ++ map lost samples)) (window-add_lost (lost sample) s r)
      ∙ drop_shift (length samples) (lost sample) (window s) (map lost samples)
          (omega (arith, length-window s r));
  losses = omega (arith, h.losses);
  packets = omega (arith, h.packets);
}

add_all-Shows :
    (samples : List ℕ) (s : RunningPacketLossStats)
    → IsRing s
    → s.total_lost < 2 ^ 32
    → s.total_packets < 2 ^ 32
    → (s' : RunningPacketLossStats) × (add_all samples s ≡ some s') × Shows samples s s'
unfolding add_all
add_all-Shows [] s r l p = (s, refl, Shows-none s l p)
add_all-Shows (sample ∷ samples) s r l p =
    let next = add_lost (lost sample) s in
    let small = add_lost-small (lost sample) s in
    let (s', run, shows) =
      add_all-Shows samples next (add_lost-IsRing (lost sample) s r) small.0 small.1 in
    (s', rw (add_sample-lost sample s, add_all) run, Shows-more sample samples s s' r shows)

new-IsRing : IsRing new_loss_stats
unfolding new_loss_stats
new-IsRing = record { full = refl; inside = omega arith }

-- After any run of samples from the start, which never fails, the average over five minutes is
-- taken of the losses of the last sixty samples, with zeros before the first; and the totals are
-- those of all samples, as values of `u32`.
pub add_all-window :
    (samples : List ℕ)
    → (s : RunningPacketLossStats) × (add_all samples new_loss_stats ≡ some s)
      × (get_five_min_average s ≡ (sum (drop (length samples) (zeros 60 ++ map lost samples)), 300))
      × (s.total_lost ≡ sum (map lost samples) % 2 ^ 32)
      × (s.total_packets ≡ 5 * length samples % 2 ^ 32)
unfolding get_five_min_average new_loss_stats window
add_all-window samples =
    let (s, run, shows) =
      add_all-Shows samples new_loss_stats new-IsRing (omega arith) (omega arith) in
    (
      s,
      run,
      ap (λ (total : ℕ). (total, 300)) (sym (sum-window s) ∙ ap sum shows.queue),
      shows.losses ∙ ap (λ (k : ℕ). k % 2 ^ 32) (zero-add _),
      shows.packets ∙ ap (λ (k : ℕ). k % 2 ^ 32) (zero-add _),
    )
