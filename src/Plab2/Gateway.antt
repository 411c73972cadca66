-- ===== src/Plab2/Gateway.antt =====
-- plab_1-4_solutions/startcodeplab2/milestone2: logger.c, sensor_db.c and main.c on the side of the
-- parent process. The results of the system calls are arguments; `clock n` is the time at which
-- message n is written, and `takes n` whether the pipe takes it. The child process copies the pipe
-- as that of the project does.
pub mod Rows
use osc_server.Base.{
  ℕ, ◌+◌, List, [], ◌∷◌, ◌++◌, Bool, true, false, not, Option, none, some, ◌==◌, if◌then◌else◌,
}
use osc_server.Base.Int.{ℤ, pos, negsuc, is_zero}
use osc_server.Base.Text.{Text, codes, decimal}
use osc_server.Memory.{Cmd, ok, fault, pure, ◌>>=◌, ◌>>◌}
use osc_server.Config.{SensorData}
use osc_server.Storage.{long_decimal}
use osc_server.Logger.{LogProcess, formatted}

-- The globals of logger.c and the bytes of the database.
pub record Gateway : Type 0 where
  pub process : LogProcess
  pub data_file : Text

abbrev pub minus_one : ℤ
minus_one = negsuc 0

abbrev pub is_minus_one : ℤ → Bool
is_minus_one (pos n) = false
is_minus_one (negsuc n) = n == 0

abbrev pub int_max : ℕ
int_max = 2147483647

-- What `pipe` and `fork` give; a process that cannot fork has set `logger_pid` to -1.
pub create_log_process : (pipe_result pid : ℤ) → Cmd Gateway ℤ
create_log_process pipe_result pid s =
    if is_minus_one pipe_result
    then ok minus_one s
    else ok (if is_minus_one pid then minus_one else pos 0)
        (record s { process = record s.process { logger_pid = pid } })

abbrev numbered : LogProcess → Text → LogProcess
numbered p line = record p { sequence_number = p.sequence_number + 1; pipe = p.pipe ++ line }

module _ (date : ℕ → Text) (clock : ℕ → ℕ) (takes : ℕ → Bool) where
  -- `sequence_number++` is undefined at the largest int.
  pub write_to_log_process : (msg : Text) → Cmd Gateway ℤ
  write_to_log_process msg s =
      let n : ℕ = s.process.sequence_number in
      if is_zero s.process.logger_pid
      then ok minus_one s
      else if n == int_max
      then fault
      else if takes n
      then ok (pos 0) (record s { process = numbered s.process (formatted date n (clock n) msg) })
      else ok minus_one (record s { process = numbered s.process [] })

  pub end_log_process : (close_result wait_result : ℤ) → Cmd Gateway ℤ
  unfolding write_to_log_process
  end_log_process close_result wait_result = do
    written ← write_to_log_process (codes "Data file closed\n")
    pure (
        if is_minus_one written
        then minus_one
        else if is_minus_one close_result
        then minus_one
        else if is_minus_one wait_result
        then minus_one
        else pos 0)

  -- The result of `fopen`, which empties the file unless it appends.
  abbrev opened_file : (append : Bool) → Cmd Gateway (Unit {0})
  opened_file append s = ok tt (if append then s else record s { data_file = [] })

  -- `FILE *`, NULL or the database.
  abbrev File : Type 0
  File = Option (Unit {0})

  pub open_db : (pipe_result pid : ℤ) (append opened : Bool) → Cmd Gateway File
  unfolding create_log_process write_to_log_process
  open_db pipe_result pid append opened = do
    created ← create_log_process pipe_result pid
    if is_minus_one created
        then pure none
        else if opened
        then (do
          opened_file append
          write_to_log_process (codes "Data file opened.\n")
          pure (some tt))
        else do write_to_log_process (codes "Error opening data file.\n"); pure none

  abbrev pub row : (six : ℕ → Text) (now : ℕ) → SensorData → Text
  row six now d =
      decimal d.id
      ++ (codes ", " ++ (six d.value ++ (codes ", " ++ (long_decimal now ++ codes "\n"))))

  abbrev append_row : Text → Cmd Gateway (Unit {0})
  append_row line s = ok tt (record s { data_file = s.data_file ++ line })

  -- `six` is what `%lf` prints, `now` the time, which replaces that of the record, and `printed`
  -- whether `fprintf` succeeds.
  pub insert_sensor :
      (six : ℕ → Text) (now : ℕ) (printed : Bool) (f : File) → SensorData → Cmd Gateway ℤ
  unfolding write_to_log_process
  insert_sensor six now printed none d = do
    write_to_log_process (codes "File pointer null during insert.\n")
    pure minus_one
  insert_sensor six now printed (some f) d = do
    write_to_log_process (codes "Attempting to insert data.\n")
    if printed
        then (do
          append_row (row six now d)
          write_to_log_process (codes "Data inserted.\n")
          pure (pos 0))
        else do write_to_log_process (codes "Error writing to data file.\n"); pure minus_one

  -- `flushed` and `closed` are whether `fflush` and `fclose` succeed.
  pub close_db : (flushed closed : Bool) (close_result wait_result : ℤ) (f : File) → Cmd Gateway ℤ
  unfolding end_log_process
  close_db flushed closed close_result wait_result none = do
    write_to_log_process (codes "ERROR: Attempted to close a NULL file pointer.\n")
    pure minus_one
  close_db flushed closed close_result wait_result (some f) =
      if not flushed
      then (do
        write_to_log_process (codes "ERROR: Failed to flush data before closing the file.\n")
        pure minus_one)
      else if not closed
      then (do
        write_to_log_process (codes "ERROR: Failed to close the data file.\n")
        pure minus_one)
      else do
        ended ← end_log_process close_result wait_result
        pure (if is_zero ended then pos 0 else minus_one)

  -- The calls of `insert_sensor` in `main`, each with its time; their results are not used.
  pub insert_all : (six : ℕ → Text) (f : File) → List (ℕ × SensorData) → Cmd Gateway (Unit {0})
  unfolding insert_sensor
  insert_all six f [] = pure tt
  insert_all six f ((now, d) ∷ ds) = insert_sensor six now true f d >> insert_all six f ds

  -- `main` with the records that it inserts, for a file that can be written and closed; its status is
  -- 0 whatever the calls give.
  pub session :
      (six : ℕ → Text) (pipe_result pid : ℤ) (append opened : Bool) (close_result wait_result : ℤ)
      → List (ℕ × SensorData)
      → Cmd Gateway ℤ
  unfolding open_db insert_all close_db
  session six pipe_result pid append opened close_result wait_result ds = do
    f ← open_db pipe_result pid append opened
    insert_all six f ds
    close_db true true close_result wait_result f
    pure (pos 0)

-- The four records of `main`, with the patterns of the doubles 0.001, 0.002 and 0.003, at the times
-- of its calls.
abbrev pub main_records : (t1 t2 t3 t4 : ℕ) → List (ℕ × SensorData)
main_records t1 t2 t3 t4 =
    (t1, record { id = 1; value = 0x3F50624DD2F1A9FC; ts = t1 })
    ∷ (t2, record { id = 2; value = 0x3F60624DD2F1A9FC; ts = t2 })
    ∷ (t3, record { id = 3; value = 0x3F689374BC6A7EFA; ts = t3 })
    ∷ (t4, record { id = 4; value = 0x3F689374BC6A7EFA; ts = t3 })
    ∷ []
