-- ===== src/FileCreator.antt =====
-- TCP_SensorMonitoringSystem/project/file_creator.c: the files room_sensor.map and sensor_data that
-- it writes, and how the other programs read them. The start time is an argument, and so is the
-- change of a temperature, which is random.
pub mod RoundTrip
pub mod Measurements
mod Tests
use osc_server.Base.{
  ℕ, zero, suc, ◌+◌, ◌%◌, ◌^◌, Option, none, some, List, [], ◌∷◌, ◌++◌, map, ◌==◌, ltb, leb, ◌&&◌,
  Bool, true, false, if◌then◌else◌,
}
use osc_server.Base.Text.{Text, codes, decimal, flatten}
use osc_server.Base.Digits.{is_digit, is_space, scan_digits}
use osc_server.Config.{SensorData}
use osc_server.Config.Packed.{record_bytes}

-- `NUM_MEASUREMENTS`, `SLEEP_TIME`
abbrev pub num_measurements : ℕ
num_measurements = 100

abbrev pub sleep_time : ℕ
sleep_time = 30

-- `room_id` and `sensor_id`
abbrev pub rooms : List (ℕ × ℕ)
rooms = (1, 15) ∷ (2, 21) ∷ (3, 37) ∷ (4, 49) ∷ (11, 112) ∷ (12, 129) ∷ (13, 132) ∷ (14, 142) ∷ []

-- `"%" PRIu16 " %" PRIu16 "\n"`
abbrev pub map_line : ℕ × ℕ → Text
map_line (room, sensor) = decimal room ++ (codes " " ++ (decimal sensor ++ codes "\n"))

-- room_sensor.map
pub map_text : List (ℕ × ℕ) → Text
map_text entries = flatten (map map_line entries)

-- What the inner loop writes: one record for each sensor.
pub round_records : (starttime : ℕ) → List (ℕ × ℕ) → (temperatures : List ℕ) → List SensorData
round_records starttime [] temperatures = []
round_records starttime (entry ∷ entries) [] = []
round_records starttime ((room, sensor) ∷ entries) (value ∷ temperatures) =
    record { id = sensor; value = value; ts = starttime }
    ∷ round_records starttime entries temperatures

module _ (drift : ℕ → List ℕ → List ℕ) where
  -- The outer loop, with the rounds that are left; `drift` gives the temperatures after a round.
  pub measurements :
      (rounds starttime : ℕ) → List (ℕ × ℕ) → (temperatures : List ℕ) → List SensorData
  measurements zero starttime entries temperatures = []
  measurements (suc rounds) starttime entries temperatures =
      round_records starttime entries temperatures
      ++ measurements rounds (starttime + sleep_time) entries (drift rounds temperatures)

  -- The bytes of the file sensor_data.
  pub sensor_data_file : (starttime : ℕ) (temperatures : List ℕ) → List ℕ
  unfolding measurements round_records
  sensor_data_file starttime temperatures =
      flatten (map record_bytes (measurements num_measurements starttime rooms temperatures))

-- `fscanf` with `%hu`, where no sign stands before the number.
skip_space : Text → Text
skip_space [] = []
skip_space (c ∷ cs) = let rest = skip_space cs in if is_space c then rest else c ∷ cs

starts_with_digit : Text → Bool
starts_with_digit [] = false
starts_with_digit (c ∷ cs) = is_digit c

abbrev short : ℕ × Text → ℕ × Text
short (n, rest) = (n % 2 ^ 16, rest)

pub scan_short : Text → Option (ℕ × Text)
unfolding skip_space starts_with_digit
scan_short text =
    let from : Text = skip_space text in
    if starts_with_digit from then some (short (scan_digits 0 from)) else none

-- `fscanf(fp_sensor_map, "%hu %hu", &roomID, &sensorID) == 2`
scan_entry : Text → Option ((ℕ × ℕ) × Text)
scan_entry text = elim (scan_short text) [
  | none ↦ none
  | some (room, rest) ↦ elim (scan_short rest) [
    | none ↦ none
    | some (sensor, rest') ↦ some ((room, sensor), rest')
  ]
]

-- The entries of the map until one is not read; an entry has at least one byte.
pub scan_map : (fuel : ℕ) → Text → List (ℕ × ℕ)
unfolding scan_entry
scan_map zero text = []
scan_map (suc fuel) text = elim (scan_entry text) [
  | none ↦ []
  | some (entry, rest) ↦ entry ∷ scan_map fuel rest
]
