-- ===== src/UsageTracker/Tests.antt =====
-- Runs of the usage tracker, and instances of its theorems.
use althea_rs.Prelude.{◌≡◌, refl, false, some, [], ◌∷◌, arith}
use althea_rs.UsageTracker.{
  client, UsageHour, UpdateUsage, UsageTracker, count_usage, save_if_due, is_save_due,
  process_usage_update,
}
use althea_rs.UsageTracker.History.{Processes, process_usage_update-Processes}

abbrev last_hour : UsageHour
last_hour = record { index = 100; up = 10; down = 20; price = 3 }

abbrev tracker : UsageTracker
tracker = record {
  last_save_hour = 96;
  client_bandwith = last_hour ∷ [];
  relay_bandwith = [];
  exit_bandwith = [];
  payments = [];
}

abbrev update : UpdateUsage
update = record { kind = client; up = 5; down = 6; price = 4 }

-- Four hours after the last save the data is not saved yet.
not_saved :
    process_usage_update 100 update tracker
    ≡ some (
      false,
      record tracker {
        client_bandwith = record { index = 100; up = 15; down = 26; price = 3 } ∷ [];
      },
    )
unfolding process_usage_update count_usage save_if_due is_save_due
not_saved = refl

process_usage_update-Processes_example :
    Processes 101 update tracker (process_usage_update 101 update tracker)
process_usage_update-Processes_example =
    process_usage_update-Processes 101 update tracker (omega arith) tt (omega arith) (omega arith)
      (omega arith) (omega arith)
