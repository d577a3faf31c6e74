-- ===== src/ClientWatcher/Rounds.antt =====
-- rita/src/rita_client/traffic_watcher/mod.rs: what a client owes over many rounds.
use mathlib.Core.Path.{subst}
use althea_rs.Prelude.{
  ℕ, ◌+◌, ◌-◌, ◌*◌, ◌%◌, ◌^◌, ◌≤◌, ◌<◌, ◌≡◌, Option, none, some, List, [], ◌∷◌, arith, inl, inr,
  Option-cases,
}
use althea_rs.AltheaTypes.{Identity}
use althea_rs.Float32.{Float32}
use althea_rs.ExitWatcher.{WgUsage, Usages}
use althea_rs.BabelMonitor.Records.{v6, Route}
use althea_rs.ClientWatcher.{
  TrafficWatcher, counter_of, find_exit_route_capped, local_traffic_calculation, reset_if_fallen,
}

-- What a round reads: the counters and the routes.
pub record Reading (float : Float32) : Type 0 where
  pub counters : Option Usages
  pub routes : List (Route float)

abbrev pub owed : Option ℕ → ℕ
owed none = 0
owed (some amount) = amount

parts :
    (read more sent uploaded dest_price exit_price : ℕ)
    → exit_price * uploaded < 2 ^ 64
    → more * dest_price + exit_price * uploaded % 2 ^ 64 + dest_price * read + exit_price * sent
      ≡ dest_price * (read + more) + exit_price * (sent + uploaded)
parts read more sent uploaded dest_price exit_price small = omega arith

sums :
    (read now sent uploaded dest_price exit_price : ℕ)
    → read ≤ now
    → sent ≤ uploaded
    → exit_price * (uploaded - sent) < 2 ^ 64
    → (now - read) * dest_price
        + exit_price * (uploaded - sent) % 2 ^ 64
        + dest_price * read
        + exit_price * sent
      ≡ dest_price * now + exit_price * uploaded
sums read now sent uploaded dest_price exit_price h k small =
    subst (λ n. billed ≡ dest_price * n + exit_price * uploaded) (again read now h)
      (subst (λ u. billed ≡ dest_price * (read + (now - read)) + exit_price * u)
        (again sent uploaded k)
        (parts read (now - read) sent (uploaded - sent) dest_price exit_price small))
  where
    billed : ℕ
    billed =
        (now - read) * dest_price
        + exit_price * (uploaded - sent) % 2 ^ 64
        + dest_price * read
        + exit_price * sent

    again : (a b : ℕ) → a ≤ b → a + (b - a) ≡ b
    again a b h = omega arith

-- The counters that a round reads are not below those read last, and the upload since then times
-- the price fits a u64.
abbrev pub Grows : ℕ → WgUsage → TrafficWatcher → Type 0
Grows exit_price counter history =
    (history.last_read_input ≤ counter.download)
    × (history.last_read_output ≤ counter.upload)
    × (exit_price * (counter.upload - history.last_read_output) < 2 ^ 64)

not_fallen :
    (counter : WgUsage) (history : TrafficWatcher)
    → history.last_read_input ≤ counter.download
    → history.last_read_output ≤ counter.upload
    → reset_if_fallen counter history ≡ history
unfolding reset_if_fallen
not_fallen counter history h k = ground arith

module _ {float : Float32} (max_fee : ℕ) (exit : Identity) (exit_price : ℕ) where
  -- The rounds one after another: the sum of what is owed, and the state after them.
  abbrev pub rounds : List (Reading float) → TrafficWatcher → ℕ × TrafficWatcher
  rounds [] history = (0, history)
  rounds (reading ∷ readings) history =
      let (amount, usage, history') =
        local_traffic_calculation max_fee reading.counters exit exit_price reading.routes history in
      let (total, last) = rounds readings history' in (owed amount + total, last)

  -- A route that is found has the price.
  abbrev pub HasPrice : ℕ → Reading float → Type 0
  HasPrice price reading =
      (r : Route float)
      → find_exit_route_capped max_fee (v6 exit.mesh_ip) reading.routes ≡ some r
      → r.price ≡ price

  abbrev pub Steady : ℕ → List (Reading float) → TrafficWatcher → Type 0
  Steady price [] history = Unit
  Steady price (reading ∷ readings) history =
      HasPrice price reading
      × ((counter : WgUsage)
          → counter_of reading.counters ≡ some counter
          → Grows exit_price counter history)
      × Steady price readings
          (local_traffic_calculation max_fee reading.counters exit exit_price reading.routes
            history).2

  -- One round.
  one_round :
      (price : ℕ) (reading : Reading float) (history : TrafficWatcher)
      → HasPrice price reading
      → ((counter : WgUsage)
          → counter_of reading.counters ≡ some counter
          → Grows exit_price counter history)
      → let (amount, usage, history') =
          local_traffic_calculation max_fee reading.counters exit exit_price reading.routes
            history in
        owed amount
          + (price + exit_price) * history.last_read_input
          + exit_price * history.last_read_output
        ≡ (price + exit_price) * history'.last_read_input + exit_price * history'.last_read_output
  unfolding local_traffic_calculation reset_if_fallen
  one_round price reading history same grows =
      elim (Option-cases (find_exit_route_capped max_fee (v6 exit.mesh_ip) reading.routes)) [
        | inl lost ↦ rw (lost, local_traffic_calculation) (omega arith)
        | inr (route, found) ↦ elim (Option-cases (counter_of reading.counters)) [
          | inl unread ↦ rw (found, unread, local_traffic_calculation) (omega arith)
          | inr (counter, read) ↦
              rw (found, read, local_traffic_calculation)
                (rw
                  (
                    not_fallen counter history (grows counter read).0 (grows counter read).1,
                    same route found,
                  )
                  (sums history.last_read_input counter.download history.last_read_output
                    counter.upload (price + exit_price) exit_price (grows counter read).0
                    (grows counter read).1 (grows counter read).2))
        ]
      ]

  -- As long as the counters do not fall, the amounts of any number of rounds add up to the whole
  -- download and upload between the reading before and the last one, at their prices: a round that
  -- fails, without a route or counters, loses nothing, and nothing is billed twice. The routes that
  -- are found have one and the same price, and the upload of a round times the price fits a u64.
  pub rounds-owe :
      (price : ℕ) (readings : List (Reading float)) (history : TrafficWatcher)
      → Steady price readings history
      → let (total, last) = rounds readings history in
        total
          + (price + exit_price) * history.last_read_input
          + exit_price * history.last_read_output
        ≡ (price + exit_price) * last.last_read_input + exit_price * last.last_read_output
  rounds-owe price [] history steady = omega arith
  rounds-owe price (reading ∷ readings) history steady =
      let history' =
        (local_traffic_calculation max_fee reading.counters exit exit_price reading.routes
          history).2 in
      omega (
        arith,
        one_round price reading history steady.0 steady.1,
        rounds-owe price readings history' steady.2,
      )
