-- ===== src/Storage/Csv.antt =====
-- What `open_db` leaves in sensor_db.csv.
use osc_server.Base.{
  ℕ, ◌+◌, ◌≡◌, refl, ◌≢◌, Bool, true, false, List, [], ◌∷◌, ◌++◌, arith, ◌==◌, ap, sym, ◌∙◌, ltb,
  map, ==-ne,
}
use mathlib.Core.List.{append-nil, append_assoc}
use osc_server.Base.Text.{Text, codes, flatten}
use osc_server.Memory.{ok, out_of_fuel}
use osc_server.Config.{SensorData}
use osc_server.Sbuffer.{Status, empty, success, failure}
use osc_server.Storage.{Db, csv_line, is_empty, end_of_stream, store, read_loop, close_db, open_db}

-- The records that the reads give, of those calls that find one.
abbrev pub delivered : List (Status × SensorData) → List SensorData
delivered [] = []
delivered ((empty, d) ∷ reads) = delivered reads
delivered ((success, d) ∷ reads) = d ∷ delivered reads
delivered ((failure, d) ∷ reads) = d ∷ delivered reads

-- None of the records ends the stream.
abbrev pub NoEnd : List SensorData → Type 0
NoEnd [] = Unit {0}
NoEnd (d ∷ ds) = (d.id ≢ 0) × NoEnd ds

-- The messages of a run whose file opens and closes.
abbrev pub run_messages : List Text
run_messages =
    codes "A new data.csv file has been created\n"
    ∷ codes "closing sensor_db process\n"
    ∷ codes "DB Closed Successfully\n"
    ∷ codes "The data.csv file has been closed.\n"
    ∷ []

appends :
    (log : List Text) (a b c d : Text)
    → (((log ++ a ∷ []) ++ b ∷ []) ++ c ∷ []) ++ d ∷ [] ≡ log ++ a ∷ b ∷ c ∷ d ∷ []
appends [] a b c d = refl
appends (x ∷ log) a b c d = ap (λ l. x ∷ l) (appends log a b c d)

module _ (fixed4 : ℕ → Text) where
  abbrev pub csv : List SensorData → Text
  csv ds = flatten (map (csv_line fixed4) ds)

  -- The file grew, and the mutex is free.
  abbrev pub grown : Db → Text → Db
  grown s text = record s { file_out = s.file_out ++ text; locked = false }

  store-grown :
      (d : SensorData) (s : Db)
      → s.locked ≡ false
      → store fixed4 d s ≡ ok tt (grown s (csv_line fixed4 d))
  unfolding store
  store-grown d s free = rw free refl

  abbrev ended : Db → List SensorData → Db
  ended s ds = record (grown s (csv ds)) { eos_count = s.eos_count + 1 }

  end_of_stream-ended :
      (d : SensorData) (s : Db) → s.locked ≡ false → end_of_stream d s ≡ ok tt (ended s [])
  unfolding end_of_stream
  end_of_stream-ended d s free =
      let later : ltb (s.eos_count + 1) 1 ≡ false = ground arith in
      let end = sym (append-nil s.file_out) in
      rw later
        (λ i. ok tt (record s { file_out = end i; locked = free i; eos_count = s.eos_count + 1 }))

  stored_then :
      (d : SensorData) (ds : List SensorData) (s : Db)
      → ended (grown s (csv_line fixed4 d)) ds ≡ ended s (d ∷ ds)
  stored_then d ds s =
      ap (λ t. record s { file_out = t; locked = false; eos_count = s.eos_count + 1 })
        (append_assoc s.file_out (csv_line fixed4 d) (csv ds))

  read_loop-ended :
      (pre more : List (Status × SensorData)) (st : Status) (last : SensorData) (s : Db)
      → s.locked ≡ false
      → NoEnd (delivered pre)
      → is_empty st ≡ false
      → last.id ≡ 0
      → read_loop fixed4 (pre ++ (st, last) ∷ more) s ≡ ok tt (ended s (delivered pre))
  unfolding read_loop
  read_loop-ended [] more st last s free none_ends real zero_id =
      let z : (last.id == 0) ≡ true = ground arith in rw (real, z) (end_of_stream-ended last s free)
  read_loop-ended ((empty, d) ∷ pre) more st last s free none_ends real zero_id =
      read_loop-ended pre more st last s free none_ends real zero_id
  read_loop-ended ((success, d) ∷ pre) more st last s free none_ends real zero_id =
      rw (==-ne d.id 0 none_ends.0, store-grown d s free)
        (read_loop-ended pre more st last (grown s (csv_line fixed4 d)) refl none_ends.1 real
            zero_id
          ∙ ap (λ t. ok tt t) (stored_then d (delivered pre) s))
  read_loop-ended ((failure, d) ∷ pre) more st last s free none_ends real zero_id =
      rw (==-ne d.id 0 none_ends.0, store-grown d s free)
        (read_loop-ended pre more st last (grown s (csv_line fixed4 d)) refl none_ends.1 real
            zero_id
          ∙ ap (λ t. ok tt t) (stored_then d (delivered pre) s))

  read_loop-waits :
      (reads : List (Status × SensorData)) (s : Db)
      → s.locked ≡ false
      → NoEnd (delivered reads)
      → read_loop fixed4 reads s ≡ out_of_fuel
  unfolding read_loop
  read_loop-waits [] s free none_ends = refl
  read_loop-waits ((empty, d) ∷ reads) s free none_ends = read_loop-waits reads s free none_ends
  read_loop-waits ((success, d) ∷ reads) s free none_ends =
      rw (==-ne d.id 0 none_ends.0, store-grown d s free)
        (read_loop-waits reads (grown s (csv_line fixed4 d)) refl none_ends.1)
  read_loop-waits ((failure, d) ∷ reads) s free none_ends =
      rw (==-ne d.id 0 none_ends.0, store-grown d s free)
        (read_loop-waits reads (grown s (csv_line fixed4 d)) refl none_ends.1)

  -- If the file opens, flushes and closes, the run up to the first record with id 0 leaves exactly
  -- the rows of the records before it in sensor_db.csv, in their order, whatever was in the file
  -- before; it hands nothing back to the buffer, leaves the mutex free and logs four messages.
  pub open_db-csv :
      (pre more : List (Status × SensorData)) (st : Status) (last : SensorData) (s : Db)
      → s.locked ≡ false
      → NoEnd (delivered pre)
      → is_empty st ≡ false
      → last.id ≡ 0
      → open_db fixed4 true (pre ++ (st, last) ∷ more) true true s
        ≡ ok tt (record {
          file_out = csv (delivered pre);
          log = s.log ++ run_messages;
          inserted = s.inserted;
          locked = false;
          eos_count = s.eos_count + 1;
        })
  unfolding open_db close_db
  open_db-csv pre more st last s free none_ends real zero_id =
      let first = s.log ++ codes "A new data.csv file has been created\n" ∷ [] in
      rw
        (read_loop-ended pre more st last (record s { file_out = []; log = first }) free none_ends
          real zero_id)
        (ap
          (λ l. ok tt (record {
            file_out = csv (delivered pre);
            log = l;
            inserted = s.inserted;
            locked = false;
            eos_count = s.eos_count + 1;
          }))
          (appends s.log _ _ _ _))

  -- As long as no record with id 0 is read, the storage manager does not come back.
  pub open_db-waits :
      (reads : List (Status × SensorData)) (flushed closed : Bool) (s : Db)
      → s.locked ≡ false
      → NoEnd (delivered reads)
      → open_db fixed4 true reads flushed closed s ≡ out_of_fuel
  unfolding open_db
  open_db-waits reads flushed closed s free none_ends =
      let first = s.log ++ codes "A new data.csv file has been created\n" ∷ [] in
      rw (read_loop-waits reads (record s { file_out = []; log = first }) free none_ends) refl
