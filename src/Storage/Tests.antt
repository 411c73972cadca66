-- ===== src/Storage/Tests.antt =====
-- Runs of the storage manager, and its theorems at concrete reads.
use osc_server.Base.{ℕ, ◌+◌, ◌≡◌, refl, true, false, some, List, [], ◌∷◌, ◌++◌, arith}
use osc_server.Base.Text.{Text, codes, decimal}
use osc_server.Memory.{ok}
use osc_server.Config.{SensorData}
use osc_server.Sbuffer.{Status, success, empty}
use osc_server.Storage.{Db, csv_line, open_db, insert_sensor}
use osc_server.Storage.Csv.{run_messages, csv, open_db-csv}

abbrev four : ℕ → Text
four value = codes "20.0000"

abbrev sample : ℕ → SensorData
sample n = record { id = n; value = 0; ts = 7 }

abbrev fresh : Db
fresh = record { file_out = codes "old"; log = []; inserted = []; locked = false; eos_count = 0 }

abbrev reads : List (Status × SensorData)
reads = (empty, sample 0) ∷ (success, sample 15) ∷ (success, sample 21) ∷ []

row : csv_line four (sample 15) ≡ codes "15,20.0000,7\n"
unfolding decimal
row = refl

open_db-csv_example :
    open_db four true (reads ++ (success, sample 0) ∷ reads) true true fresh
    ≡ ok tt (record {
      file_out = csv four (sample 15 ∷ sample 21 ∷ []);
      log = [] ++ run_messages;
      inserted = [];
      locked = false;
      eos_count = 0 + 1;
    })
open_db-csv_example =
    open_db-csv four reads reads success (sample 0) fresh refl (omega arith, (omega arith, tt)) refl
      refl

-- The row has the clock's time and not the time of the record.
clock_row :
    insert_sensor four (some tt) 9 true 15 0 7 fresh
    ≡ ok tt (record fresh {
      file_out = codes "old15, 20.0000, 9\n";
      log = codes "Attempting to insert data.\n" ∷ codes "Data inserted.\n" ∷ [];
    })
unfolding insert_sensor decimal
clock_row = refl
