-- ===== src/FileCreator/Tests.antt =====
-- The files of file_creator.c at concrete inputs.
use osc_server.Base.{ℕ, ◌≡◌, refl, List, [], ◌∷◌, arith, length}
use osc_server.Base.Text.{codes, decimal}
use osc_server.Base.Digits.{scan_digits}
use osc_server.Config.Packed.{read_records}
use osc_server.Storage.Csv.{NoEnd}
use osc_server.FileCreator.{
  rooms, map_text, scan_short, scan_map, measurements, sensor_data_file, num_measurements,
}
use osc_server.FileCreator.RoundTrip.{scan_map-map_text}
use osc_server.FileCreator.Measurements.{Temperatures, read_records-sensor_data_file}

abbrev first_temperatures : List ℕ
first_temperatures = 15 ∷ 17 ∷ 18 ∷ 19 ∷ 20 ∷ 23 ∷ 24 ∷ 25 ∷ []

map_text_two : map_text ((1, 15) ∷ (11, 112) ∷ []) ≡ codes "1 15\n11 112\n"
unfolding map_text decimal
map_text_two = refl

scan_map_bad : scan_map 9 (codes "  1 15\n11 x") ≡ (1, 15) ∷ []
unfolding scan_map scan_short scan_digits
scan_map_bad = refl

scan_map-map_text_example : scan_map 9 (map_text rooms) ≡ rooms
scan_map-map_text_example = scan_map-map_text rooms 9 (omega arith) (omega arith)

steady : ℕ → List ℕ → List ℕ
steady k vs = vs

steady-Temperatures : (k : ℕ) (vs : List ℕ) → Temperatures vs → Temperatures (steady k vs)
unfolding steady
steady-Temperatures k vs t = t

read_records-sensor_data_file_example :
    (read_records 801 (sensor_data_file steady 1700000000 first_temperatures)
      ≡ measurements steady num_measurements 1700000000 rooms first_temperatures)
    × NoEnd (measurements steady num_measurements 1700000000 rooms first_temperatures)
    × (length (measurements steady num_measurements 1700000000 rooms first_temperatures) ≡ 800)
read_records-sensor_data_file_example =
    read_records-sensor_data_file steady steady-Temperatures 1700000000 first_temperatures
      (omega arith) (omega arith)
