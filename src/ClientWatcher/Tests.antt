-- ===== src/ClientWatcher/Tests.antt =====
-- Rounds of the client's traffic watcher, and instances of its theorems.
use althea_rs.Prelude.{
  ℕ, ◌+◌, ◌-◌, ◌*◌, ◌/◌, ◌≡◌, refl, true, false, none, some, List, [], ◌∷◌, ltb, arith, Option,
}
use althea_rs.Prelude.Int.{pos, ◌+ℤ◌}
use althea_rs.Prelude.Maps.{get}
use althea_rs.Num256.Sample.{sample, FitsInt256-small}
use althea_rs.AltheaTypes.{Identity}
use althea_rs.Float32.{Float32}
use althea_rs.DebtKeeper.Peer.{new_debt_data}
use althea_rs.DebtKeeper.Keeper.{DebtKeeper, debt_data_or_new}
use althea_rs.ExitWatcher.{Usages}
use althea_rs.BabelMonitor.Records.{v4, v6, net6, Route}
use althea_rs.BabelMonitor.Routes.{get_installed_route}
use althea_rs.ClientWatcher.{
  new_watcher, find_exit_route_capped, last_counter, reset_if_fallen, local_traffic_calculation,
  debt, Sent, QueryExitDebts, handle_query_exit_debts,
}
use althea_rs.ClientWatcher.Rounds.{Reading, Steady, rounds, rounds-owe}
use althea_rs.ClientWatcher.Answers.{deliver, handle_query_exit_debts-settles}

-- Whole numbers for floats.
abbrev whole : Float32
whole = record {
  F = ℕ;
  from_ℕ = λ n. n;
  plus = ◌+◌;
  minus = ◌-◌;
  times = ◌*◌;
  divided = ◌/◌;
  less = ltb;
}

abbrev exit : Identity
exit = record { mesh_ip = 9; eth_address = 2; wg_public_key = 8; nickname = none }

-- A route at the price 40, above the greatest fee of 30.
abbrev routes : List (Route whole)
routes =
    record {
      id = "14f06d8";
      iface = "wg0";
      xroute = false;
      installed = true;
      neigh_ip = v6 1;
      prefix = net6 9 128;
      metric = 331;
      refmetric = 220;
      full_path_rtt = 38;
      price = 40;
      fee = 40;
    }
    ∷ []

abbrev counters : ℕ → ℕ → Usages
counters up down = (8, record { upload = up; download = down }) ∷ []

abbrev readings : List (Reading whole)
readings =
    record { counters = some (counters 10 100); routes = routes }
    ∷ record { counters = some (counters 20 150); routes = [] }
    ∷ record { counters = some (counters 25 170); routes = routes }
    ∷ []

-- 170 bytes down at 30 and 5, and 25 up at 5, though the second round finds no route.
three_rounds : (rounds 30 exit 5 readings new_watcher).0 ≡ 170 * 35 + 25 * 5
unfolding local_traffic_calculation find_exit_route_capped last_counter reset_if_fallen
    get_installed_route
three_rounds = refl

steady : Steady 30 exit 5 30 readings new_watcher
unfolding local_traffic_calculation find_exit_route_capped last_counter reset_if_fallen
    get_installed_route
steady = (
  (λ r e. ground arith),
  (λ counter e. ground arith),
  (
    (λ r e. ground arith),
    (λ counter e. ground arith),
    ((λ r e. ground arith), (λ counter e. ground arith), tt),
  ),
)

rounds-owe_example :
    let (total, last) = rounds 30 exit 5 readings new_watcher in
    total + 35 * 0 + 5 * 0 ≡ 35 * last.last_read_input + 5 * last.last_read_output
unfolding local_traffic_calculation find_exit_route_capped last_counter reset_if_fallen
    get_installed_route
rounds-owe_example = rounds-owe 30 exit 5 30 readings new_watcher steady

abbrev msg : QueryExitDebts whole
msg = record {
  exit_internal_addr = v4 1;
  exit_port = 4875;
  exit_id = exit;
  exit_price = 5;
  routes = routes;
}

abbrev keeper : DebtKeeper
keeper = record { last_save = none; debt_data = [] }

handle_query_exit_debts-settles_example :
    (sent : Option Sent) × ((handle_query_exit_debts 30
        (some (counters 10 100))
        (debt (pos 70))
        msg
        new_watcher).0
      ≡ some sent)
    × ((debt_data_or_new exit (deliver sample 1000 sent keeper).debt_data).debt ≡ pos 70)
unfolding debt_data_or_new ◌+ℤ◌ get new_debt_data local_traffic_calculation find_exit_route_capped
    last_counter reset_if_fallen get_installed_route
handle_query_exit_debts-settles_example =
    handle_query_exit_debts-settles sample 1000 30 (some (counters 10 100)) (debt (pos 70)) msg
      new_watcher keeper 1 refl refl (FitsInt256-small _ (omega arith) (omega arith))
