-- ===== src/FileCreator/Measurements.antt =====
-- The measurements of file_creator.c, written to its file and read back.
use osc_server.Base.{
  ℕ, zero, suc, ◌+◌, ◌*◌, ◌^◌, ◌<◌, ◌≤◌, ◌≡◌, refl, ◌≢◌, ap, sym, ◌∙◌, arith, List, [], ◌∷◌, ◌++◌,
  map, length, length-append,
}
use mathlib.Core.List.{append-nil}
use osc_server.Base.Text.{flatten}
use osc_server.Config.{SensorData}
use osc_server.Config.Packed.{Fits, AllFit, record_bytes, read_records, read_records-record_bytes}
use osc_server.Storage.Csv.{NoEnd}
use osc_server.FileCreator.{rooms, round_records, measurements, sensor_data_file, num_measurements}

-- Patterns of doubles, one for each sensor.
abbrev AllDoubles : List ℕ → Type 0
AllDoubles [] = Unit {0}
AllDoubles (v ∷ vs) = (v < 256 ^ 8) × AllDoubles vs

abbrev pub Temperatures : List ℕ → Type 0
Temperatures vs = (length vs ≡ 8) × AllDoubles vs

-- The ids of sensors fit and are not zero.
abbrev AllSensors : List (ℕ × ℕ) → Type 0
AllSensors [] = Unit {0}
AllSensors ((room, sensor) ∷ entries) = (sensor < 256 ^ 2) × (sensor ≢ 0) × AllSensors entries

rooms-AllSensors : AllSensors rooms
rooms-AllSensors = omega arith

-- A list of records that can be written and that holds no marker.
abbrev Good : List SensorData → Type 0
Good [] = Unit {0}
Good (d ∷ ds) = Fits d × (d.id ≢ 0) × Good ds

Good-append : (xs ys : List SensorData) → Good xs → Good ys → Good (xs ++ ys)
Good-append [] ys g h = h
Good-append (x ∷ xs) ys (fits, real, g) h = (fits, real, Good-append xs ys g h)

Good-AllFit : (ds : List SensorData) → Good ds → AllFit ds
Good-AllFit [] g = tt
Good-AllFit (d ∷ ds) (fits, real, g) = (fits, Good-AllFit ds g)

Good-NoEnd : (ds : List SensorData) → Good ds → NoEnd ds
Good-NoEnd [] g = tt
Good-NoEnd (d ∷ ds) (fits, real, g) = (real, Good-NoEnd ds g)

round_records-Good :
    (ts : ℕ) (entries : List (ℕ × ℕ)) (vs : List ℕ)
    → ts < 256 ^ 8
    → AllSensors entries
    → AllDoubles vs
    → Good (round_records ts entries vs)
unfolding round_records
round_records-Good ts [] vs small sensors doubles = tt
round_records-Good ts ((room, sensor) ∷ entries) [] small sensors doubles = tt
round_records-Good ts ((room, sensor) ∷ entries) (v ∷ vs) small (fits, real, sensors)
      (double, doubles) =
    ((fits, double, small), real, round_records-Good ts entries vs small sensors doubles)

length-round_records :
    (ts : ℕ) (entries : List (ℕ × ℕ)) (vs : List ℕ)
    → length vs ≡ length entries
    → length (round_records ts entries vs) ≡ length entries
unfolding round_records
length-round_records ts [] vs same = refl
length-round_records ts ((room, sensor) ∷ entries) [] same = absurd (omega arith)
length-round_records ts ((room, sensor) ∷ entries) (v ∷ vs) same =
    ap suc (length-round_records ts entries vs (omega arith))

module _ (drift : ℕ → List ℕ → List ℕ)
    (stays : (k : ℕ) (vs : List ℕ) → Temperatures vs → Temperatures (drift k vs)) where
  measurements-Good :
      (n ts : ℕ) (vs : List ℕ)
      → ts + 30 * n ≤ 256 ^ 8
      → Temperatures vs
      → Good (measurements drift n ts rooms vs)
  unfolding measurements
  measurements-Good zero ts vs small t = tt
  measurements-Good (suc n) ts vs small (eight, doubles) =
      Good-append (round_records ts rooms vs) _
        (round_records-Good ts rooms vs (omega arith) rooms-AllSensors doubles)
        (measurements-Good n (ts + 30) (drift n vs) (omega arith) (stays n vs (eight, doubles)))

  length-measurements :
      (n ts : ℕ) (vs : List ℕ) → Temperatures vs → length (measurements drift n ts rooms vs) ≡ 8 * n
  unfolding measurements
  length-measurements zero ts vs t = refl
  length-measurements (suc n) ts vs (eight, doubles) = omega (
    arith,
    length-append (round_records ts rooms vs) (measurements drift n (ts + 30) rooms (drift n vs)),
    length-round_records ts rooms vs eight,
    length-measurements n (ts + 30) (drift n vs) (stays n vs (eight, doubles)),
  )

  -- Reading the file sensor_data with `fread` gives the 100 rounds of 8 measurements that
  -- file_creator.c meant to write, 800 records in their order, and none with the id 0 that ends the
  -- stream in the fourth lab. The temperatures stay eight doubles, and the times stay below 2^64.
  pub read_records-sensor_data_file :
      (ts : ℕ) (vs : List ℕ)
      → ts + 3000 ≤ 256 ^ 8
      → Temperatures vs
      → (read_records 801 (sensor_data_file drift ts vs)
          ≡ measurements drift num_measurements ts rooms vs)
        × NoEnd (measurements drift num_measurements ts rooms vs)
        × (length (measurements drift num_measurements ts rooms vs) ≡ 800)
  unfolding sensor_data_file
  read_records-sensor_data_file ts vs small t =
      let good = measurements-Good num_measurements ts vs small t in
      let many = length-measurements num_measurements ts vs t in
      let ds = measurements drift num_measurements ts rooms vs in
      (
        ap (read_records 801) (sym (append-nil (flatten (map record_bytes ds))))
            ∙ read_records-record_bytes ds [] 801 (Good-AllFit ds good) (omega arith)
                (omega (arith, many)),
        Good-NoEnd ds good,
        many,
      )
