-- ===== src/LightClientManager/Moved.antt =====
-- rita/src/rita_client/light_client_manager/mod.rs: what `Watch` charges is what was moved.
use althea_rs.Prelude.{
  ℕ, ◌+◌, ◌-◌, ◌*◌, ◌%◌, ◌^◌, ◌≤◌, ◌<◌, ◌≡◌, refl, ap, ◌∙◌, inl, inr, Option-cases, Option, none,
  some, List, [], ◌∷◌, if◌then◌else◌, arith,
}
use althea_rs.Prelude.Int.{pos, ◌-ℤ◌}
use althea_rs.Prelude.Maps.{get, insert, get-insert_self, insert-insert}
use althea_rs.Prelude.Outcome.{ok}
use althea_rs.Num256.{Num256}
use althea_rs.AltheaTypes.{Identity, identity_key}
use althea_rs.IpIncrement.{Octets}
use althea_rs.DebtKeeper.Keeper.{DebtKeeper, Traffic, traffic_updates}
use althea_rs.DebtKeeper.Peers.{debt_of}
use althea_rs.TrafficWatcher.Keys.{ip_key}
use althea_rs.TrafficWatcher.Watch.{Debts}
use althea_rs.ExitWatcher.{WgUsage, Usages, refreshed, prepare_usage_history, moved}
use althea_rs.LightClientManager.{LightClientManager}
use althea_rs.LightClientManager.Watching.{
  Watched, subtract_or_insert_and_subtract, charge, bill_tunnels, watch,
}
use althea_rs.LightClientManager.Bills.{charged, charges_of, debt_of-watch}

-- The counters that are billed for a tunnel: none where it is not that of a light client, or where
-- they cannot be read.
abbrev pub reading_of : Option Octets → Option Usages → Option Usages
reading_of none counter = none
reading_of (some details) counter = counter

abbrev pub reading : Watched → Option Usages
reading tunnel = reading_of tunnel.light_client_details tunnel.counter

-- The bytes in both directions since the counters were seen; none at the first time.
abbrev pub bytes_since : Option WgUsage → WgUsage → ℕ
bytes_since none usage = 0
bytes_since (some seen) usage = (usage.upload - seen.upload) + (usage.download - seen.download)

-- What is due for the counters of one client, and what is seen after it.
abbrev pub due_for : ℕ → Option Usages → Usages → ℕ × Usages
due_for price none seen = (0, seen)
due_for price (some []) seen = (0, seen)
due_for price (some ((key, usage) ∷ [])) seen =
    (bytes_since (get key seen) usage * price, insert key usage seen)
due_for price (some (first ∷ (second ∷ rest))) seen = (0, seen)

-- The sum over the tunnels of one client.
abbrev pub due_of : Identity → ℕ → List Watched → Usages → ℕ
due_of i price [] seen = 0
due_of i price (tunnel ∷ tunnels) seen =
    let (amount, seen') = due_for price (reading tunnel) seen in
    (if identity_key.eq tunnel.global i then amount else 0) + due_of i price tunnels seen'

-- The counters have not fallen, and all amounts fit a u64.
abbrev pub Grows : ℕ → Option WgUsage → WgUsage → Type 0
Grows price none usage = Unit
Grows price (some seen) usage =
    (seen.upload ≤ usage.upload)
    × (seen.download ≤ usage.download)
    × ((usage.upload - seen.upload) + (usage.download - seen.download) < 2 ^ 64)
    × (((usage.upload - seen.upload) + (usage.download - seen.download)) * price < 2 ^ 64)

-- There is one counter where there are any.
abbrev pub IsFair : ℕ → Option Usages → Usages → Type 0
IsFair price none seen = Unit
IsFair price (some []) seen = ⊥
IsFair price (some ((key, usage) ∷ [])) seen = Grows price (get key seen) usage
IsFair price (some (first ∷ (second ∷ rest))) seen = ⊥

abbrev pub AllFair : ℕ → List Watched → Usages → Type 0
AllFair price [] seen = Unit
AllFair price (tunnel ∷ tunnels) seen =
    IsFair price (reading tunnel) seen
    × AllFair price tunnels (due_for price (reading tunnel) seen).1

-- The charge in `u64` is exact.
exact :
    (up down up' down' price : ℕ)
    → up' ≤ up
    → down' ≤ down
    → (up - up') + (down - down') < 2 ^ 64
    → ((up - up') + (down - down')) * price < 2 ^ 64
    → price < 2 ^ 64
    → (moved up up' + moved down down') % 2 ^ 64 * (price % 2 ^ 64) % 2 ^ 64
      ≡ ((up - up') + (down - down')) * price
unfolding moved
exact up down up' down' price hu hd small product cheap =
    let sum : ((up + 2 ^ 64 - up') % 2 ^ 64 + (down + 2 ^ 64 - down') % 2 ^ 64) % 2 ^ 64
        ≡ (up - up') + (down - down') =
      omega arith in
    let whole : price % 2 ^ 64 ≡ price = omega arith in rw (sum, whole) (omega arith)

not_fallen :
    (usage seen : WgUsage)
    → seen.upload ≤ usage.upload
    → seen.download ≤ usage.download
    → refreshed usage seen ≡ seen
unfolding refreshed
not_fallen usage seen hu hd = ground arith

nothing :
    (up down price : ℕ)
    → (moved up up + moved down down) % 2 ^ 64 * (price % 2 ^ 64) % 2 ^ 64 ≡ 0 * price
unfolding moved
nothing up down price =
    let zero : ((up + 2 ^ 64 - up) % 2 ^ 64 + (down + 2 ^ 64 - down) % 2 ^ 64) % 2 ^ 64 ≡ 0 =
      omega arith in
    rw zero (omega arith)

prepared-new :
    (key : ℕ) (usage : WgUsage) (seen : Usages)
    → get key seen ≡ none
    → prepare_usage_history ((key, usage) ∷ []) seen ≡ insert key usage seen
unfolding prepare_usage_history
prepared-new key usage seen e = rw (e, prepare_usage_history) refl

prepared-old :
    (key : ℕ) (usage last : WgUsage) (seen : Usages)
    → get key seen ≡ some last
    → last.upload ≤ usage.upload
    → last.download ≤ usage.download
    → prepare_usage_history ((key, usage) ∷ []) seen ≡ insert key last seen
unfolding prepare_usage_history
prepared-old key usage last seen e hu hd =
    rw (e, prepare_usage_history) (ap (λ u. insert key u seen) (not_fallen usage last hu hd))

charge-due :
    (price : ℕ) (key : ℕ) (usage : WgUsage) (seen : Usages) (before : Option WgUsage)
    → get key seen ≡ before
    → Grows price before usage
    → price < 2 ^ 64
    → charge price ((key, usage) ∷ []) seen
      ≡ some (bytes_since before usage * price, insert key usage seen)
unfolding charge
charge-due price key usage seen none e grows cheap =
    rw (prepared-new key usage seen e, get-insert_self key usage seen, charge)
      (rw
        (
          prepared-new key usage seen e,
          insert-insert key usage usage seen,
          nothing usage.upload usage.download price,
        )
        refl)
charge-due price key usage seen (some last) e (hu, hd, small, product) cheap =
    rw (prepared-old key usage last seen e hu hd, get-insert_self key last seen, charge)
      (rw
        (
          prepared-old key usage last seen e hu hd,
          insert-insert key usage last seen,
          exact usage.upload usage.download last.upload last.download price hu hd small product
              cheap,
        )
        refl)

-- The loop over one tunnel, by what is read of it.
charged-due :
    (price : ℕ) (tunnel : Watched) (seen : Usages)
    → IsFair price (reading tunnel) seen
    → price < 2 ^ 64
    → charged price tunnel seen ≡ due_for price (reading tunnel) seen
charged-due price tunnel seen fair cheap = by_parts tunnel.light_client_details tunnel.counter fair
  where
    by_parts :
        (details : Option Octets) (counter : Option Usages)
        → IsFair price (reading_of details counter) seen
        → charged price (record tunnel { light_client_details = details; counter = counter }) seen
          ≡ due_for price (reading_of details counter) seen
    by_parts none counter fair = refl
    by_parts (some details) none fair = refl
    by_parts (some details) (some []) fair = absurd fair
    by_parts (some details) (some ((key, usage) ∷ [])) fair =
        rw (charge-due price key usage seen (get key seen) refl fair cheap, charged) refl
    by_parts (some details) (some (first ∷ (second ∷ rest))) fair = absurd fair

charges_of-due :
    (i : Identity) (price : ℕ) (tunnels : List Watched) (seen : Usages)
    → AllFair price tunnels seen
    → price < 2 ^ 64
    → charges_of i price tunnels seen ≡ due_of i price tunnels seen
charges_of-due i price [] seen fair cheap = refl
charges_of-due i price (tunnel ∷ tunnels) seen (first, rest) cheap =
    rw (charged-due price tunnel seen first cheap) (
      ap
        (λ n.
          (if identity_key.eq tunnel.global i then (due_for price (reading tunnel) seen).0 else 0)
          + n)
        (charges_of-due i price tunnels (due_for price (reading tunnel) seen).1 rest cheap))

bill_tunnels-ends :
    (price : ℕ) (tunnels : List Watched) (debts : Debts) (seen : Usages)
    → AllFair price tunnels seen
    → price < 2 ^ 64
    → (last : Debts × Usages) × (bill_tunnels price tunnels (debts, seen) ≡ some last)
unfolding bill_tunnels
bill_tunnels-ends price [] debts seen fair cheap = ((debts, seen), refl)
bill_tunnels-ends price (tunnel ∷ tunnels) debts seen (first, rest) cheap =
    by_parts tunnel.light_client_details tunnel.counter first rest
      (λ debts' seen' fair. bill_tunnels-ends price tunnels debts' seen' fair cheap)
  where
    by_parts :
        (details : Option Octets) (counter : Option Usages)
        → IsFair price (reading_of details counter) seen
        → AllFair price tunnels (due_for price (reading_of details counter) seen).1
        → ((debts' : Debts) (seen' : Usages)
            → AllFair price tunnels seen'
            → (last : Debts × Usages) × (bill_tunnels price tunnels (debts', seen') ≡ some last))
        → (last : Debts × Usages) × (bill_tunnels price
              (record tunnel { light_client_details = details; counter = counter } ∷ tunnels)
              (debts, seen)
            ≡ some last)
    by_parts none counter fair later ends = ends debts seen later
    by_parts (some details) none fair later ends = ends debts seen later
    by_parts (some details) (some []) fair later ends = absurd fair
    by_parts (some details) (some ((key, usage) ∷ [])) fair later ends =
        rw (charge-due price key usage seen (get key seen) refl fair cheap, bill_tunnels)
          (ends
            (subtract_or_insert_and_subtract tunnel.global
              (bytes_since (get key seen) usage * price) debts)
            (insert key usage seen) later)
    by_parts (some details) (some (first ∷ (second ∷ more))) fair later ends = absurd fair

-- The traffic that is sent.
abbrev pub sent_by : Option (List Traffic × LightClientManager) → List Traffic
sent_by none = []
sent_by (some (traffic, last)) = traffic

module _ (num : Num256) where
  -- Where every tunnel of a light client whose counters can be read has exactly one client, no counter
  -- has fallen, and the price and all amounts fit a u64: a round does not panic, and when the debt
  -- keeper has handled what it sends, without a panic, the debt of each client has shrunk by the sum
  -- over its tunnels of the bytes moved in both directions since the counters were seen last, be it
  -- in an earlier round or for a tunnel before it, times the local fee and the price to the exit
  -- together. What is seen for the first time is not billed.
  pub watch-debt_of_client :
      (i : Identity) (local_fee exit_dest_price : ℕ) (tunnels : List Watched)
      (m : LightClientManager) (k : DebtKeeper)
      → let price = local_fee + exit_dest_price in
        let answer = watch local_fee exit_dest_price tunnels m in
        price < 2 ^ 64
        → AllFair price tunnels m.last_seen_bytes
        → (traffic_updates num (sent_by answer) k).0 ≡ ok tt
        → (traffic : List Traffic) × (last : LightClientManager) × (answer ≡ some (traffic, last))
          × (debt_of i (traffic_updates num traffic k).1
              ≡ debt_of i k -ℤ pos (due_of i price tunnels m.last_seen_bytes))
  unfolding watch
  watch-debt_of_client i local_fee exit_dest_price tunnels m k cheap fair handled =
      elim (Option-cases (watch local_fee exit_dest_price tunnels m)) [
        | inl crash ↦
            let (last, done) =
              bill_tunnels-ends (local_fee + exit_dest_price) tunnels [] m.last_seen_bytes fair
                cheap in
            absurd (never (rw (done, watch) at crash))
        | inr ((traffic, last), answer) ↦ (
          traffic,
          last,
          answer,
          debt_of-watch num i local_fee exit_dest_price tunnels m last traffic k answer
                (rw answer at handled)
              ∙ ap (λ n. debt_of i k -ℤ pos n)
                  (charges_of-due i (local_fee + exit_dest_price) tunnels m.last_seen_bytes fair
                    cheap),
        )
      ]
    where
      never : {x : List Traffic × LightClientManager} → some x ≡ none → ⊥
      never h = ground arith
