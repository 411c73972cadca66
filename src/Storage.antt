-- ===== src/Storage.antt =====
-- TCP_SensorMonitoringSystem/project/sensor_db.c, the storage manager: `open_db` writes each record
-- that it reads from the buffer to sensor_db.csv, until the end-of-stream record. What the calls of
-- `sbuffer_read` give is a list; the model runs out where the thread would read on.
pub mod Csv
mod Tests
use osc_server.Base.{
  ℕ, ◌+◌, ◌-◌, ◌^◌, List, [], ◌∷◌, ◌++◌, Bool, true, false, Option, none, some, ◌==◌, ltb,
  if◌then◌else◌,
}
use osc_server.Base.Text.{Text, codes, decimal}
use osc_server.Memory.{Cmd, ok, pure, out_of_fuel, wait, exit_if, ◌>>=◌, ◌>>◌}
use osc_server.Config.{SensorData}
use osc_server.Sbuffer.{Status, empty, success, failure}

-- The bytes in sensor_db.csv, the messages handed to `write_to_log_process`, the records handed
-- to `sbuffer_insert`, `file_write_mutex` and the static counter of `open_db`.
pub record Db : Type 0 where
  pub file_out : Text
  pub log : List Text
  pub inserted : List SensorData
  pub locked : Bool
  pub eos_count : ℕ

abbrev pub emit : Text → Cmd Db (Unit {0})
emit msg s = ok tt (record s { log = s.log ++ msg ∷ [] })

-- `pthread_mutex_lock` and `pthread_mutex_unlock` of `file_write_mutex`
abbrev lock : Cmd Db (Unit {0})
lock s = if s.locked then wait s else ok tt (record s { locked = true })

abbrev unlock : Cmd Db (Unit {0})
unlock s = ok tt (record s { locked = false })

abbrev append : Text → Cmd Db (Unit {0})
append line s = ok tt (record s { file_out = s.file_out ++ line })

-- `%ld` of a 64-bit pattern.
abbrev pub long_decimal : ℕ → Text
long_decimal n =
    if ltb n 9223372036854775808 then decimal n else codes "-" ++ decimal (18446744073709551616 - n)

-- `"%hu,%.4f,%ld\n"`, where `fixed4` is what `%.4f` prints.
abbrev pub csv_line : (fixed4 : ℕ → Text) → SensorData → Text
csv_line fixed4 d =
    decimal d.id ++ codes "," ++ fixed4 d.value ++ codes "," ++ long_decimal d.ts ++ codes "\n"

abbrev pub is_empty : Status → Bool
is_empty empty = true
is_empty success = false
is_empty failure = false

-- The end-of-stream record: a first reader would hand it on, but the count is one already.
pub end_of_stream : SensorData → Cmd Db (Unit {0})
end_of_stream d s =
    let count : ℕ = s.eos_count + 1 in
    if ltb count 1
    then ok tt (record s { eos_count = count; inserted = s.inserted ++ d ∷ [] })
    else ok tt (record s { eos_count = count })

-- `flushed` and `closed` are whether `fflush` and `fclose` succeed; the file is not NULL.
pub close_db : (flushed closed : Bool) → Cmd Db (Unit {0})
close_db false closed = emit (codes "ERROR: Failed to flush data before closing the file.\n")
close_db true false = do emit (codes "ERROR: Failed to close the data file.\n"); exit_if true
close_db true true = emit (codes "DB Closed Successfully\n")

-- `fopen` with "w" empties the file.
open_file : (opened : Bool) → Cmd Db (Unit {0})
open_file true s =
    emit (codes "A new data.csv file has been created\n") (record s { file_out = [] })
open_file false s = (do emit (codes "Error opening data.csv file.\n"); exit_if true) s

row_inserted : (six : ℕ → Text) (now id value : ℕ) → Cmd Db (Unit {0})
row_inserted six now id value = do
  append (decimal id ++ codes ", " ++ six value ++ codes ", " ++ long_decimal now ++ codes "\n")
  emit (codes "Data inserted.\n")

-- `f` is NULL or the open file; `now` replaces the time of the record; `six` is what `%lf` prints.
pub insert_sensor :
    (six : ℕ → Text) (f : Option (Unit {0})) (now : ℕ) (printed : Bool) (id value ts : ℕ)
    → Cmd Db (Unit {0})
unfolding row_inserted
insert_sensor six none now printed id value ts = emit (codes "File pointer null during insert.\n")
insert_sensor six (some f) now printed id value ts = do
  emit (codes "Attempting to insert data.\n")
  if printed then row_inserted six now id value else emit (codes "Error writing to data file.\n")

module _ (fixed4 : ℕ → Text) where
  pub store : SensorData → Cmd Db (Unit {0})
  store d = do lock; append (csv_line fixed4 d); unlock

  pub read_loop : List (Status × SensorData) → Cmd Db (Unit {0})
  unfolding store end_of_stream
  read_loop [] s = out_of_fuel
  read_loop ((status, d) ∷ reads) s =
      let rest = read_loop reads in
      if is_empty status
      then rest s
      else if d.id == 0
      then end_of_stream d s
      else (store d >> rest) s

  pub open_db :
      (opened : Bool) (reads : List (Status × SensorData)) (flushed closed : Bool)
      → Cmd Db (Unit {0})
  unfolding open_file read_loop close_db
  open_db opened reads flushed closed = do
    open_file opened
    read_loop reads
    emit (codes "closing sensor_db process\n")
    close_db flushed closed
    emit (codes "The data.csv file has been closed.\n")
