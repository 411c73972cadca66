-- ===== src/Plab1.antt =====
-- plab_1-4_solutions/startcodeplab1: datamgr.c and main.c of the first lab. The data manager reads
-- its records from a file and prints its reports; its list, its elements and the running average
-- are those of the project's data manager.
pub mod Parse
pub mod Run
mod Tests
use osc_server.Base.{
  ℕ, zero, suc, ◌+◌, List, [], ◌∷◌, ◌++◌, Bool, true, false, not, ◌||◌, Option, none, some, ◌==◌,
  length, if◌then◌else◌,
}
use osc_server.Base.Int.{ℤ, pos, negsuc, is_zero}
use osc_server.Base.Text.{Text, codes, decimal}
use osc_server.Memory.{null, Cmd, ok, pure, exit_if, ◌>>=◌, ◌>>◌}
use osc_server.Config.{SensorData}
use osc_server.Config.Packed.{read_records}
use osc_server.Storage.{long_decimal}
use osc_server.Dplist.{dpl_create, dpl_size}
use osc_server.Dplist.Memory.{is_null}
use osc_server.Dplist.Update.{dpl_free}
use osc_server.Datamgr.{
  Datamgr, MapEntry, on_list, print, lookup_loop, load_map, measured, print_loop,
}
use osc_server.Datamgr.RunningAvg.{Floats, get_running_avg}
use osc_server.Datamgr.Element.{load_element, put_element, callbacks}

-- The stubs at the end of datamgr.c.
pub datamgr_get_room_id : (sensor_id : ℕ) → ℕ
datamgr_get_room_id sensor_id = 0

pub datamgr_get_total_sensors : ℕ
datamgr_get_total_sensors = 0

module _ (floats : Floats) where
  -- The report on a running average; only that on heat has the time.
  abbrev pub notice : (id avg ts : ℕ) → List Text
  notice id avg ts =
      if floats.too_hot avg
      then (codes "Sensor id "
          ++ (decimal id
              ++ (codes " is too hot: "
                  ++ (floats.fixed4 avg
                      ++ (codes " Celsius, time: " ++ (long_decimal ts ++ codes " \n"))))))
        ∷ []
      else if floats.too_cold avg
      then (codes "Sensor id "
          ++ (decimal id ++ (codes " is too cold: " ++ (floats.fixed4 avg ++ codes " Celsius\n"))))
        ∷ []
      else []

  abbrev print_all : List Text → Cmd Datamgr (Unit {0})
  print_all lines s = ok tt (record s { printed = s.printed ++ lines })

  -- One record of the file.
  pub parse_record : (fuel : ℕ) → SensorData → Cmd Datamgr (Unit {0})
  parse_record fuel d = do
    found ← on_list (lookup_loop fuel fuel 0 d.id)
    elim found [
      | none ↦ print (codes "Senosr id wrong")
      | some tmp ↦ do
        e ← on_list (load_element tmp)
        on_list (put_element tmp (measured floats d e))
        print_all (
            notice e.sensor_id (get_running_avg floats (measured floats d e).window_running_avg)
              d.ts)
    ]

  -- `while (fread(…) == 1)`
  pub parse_loop : (fuel : ℕ) → List SensorData → Cmd Datamgr (Unit {0})
  unfolding parse_record
  parse_loop fuel [] = pure tt
  parse_loop fuel (d ∷ ds) = parse_record fuel d >> parse_loop fuel ds

  -- `datamgr_print_sensors`, whose loop is that of the project.
  print_sensors : (fuel : ℕ) → Cmd Datamgr (Unit {0})
  print_sensors fuel = do
    missing ← on_list is_null
    size ← on_list (dpl_size fuel)
    if missing || is_zero size
        then print (codes "The list is empty.\n")
        else print_loop floats fuel fuel 0

  -- `entries` are the lines of the map, `bytes` those of the data file; there is
  -- memory for the list.
  pub datamgr_parse_sensor_files :
      (fuel : ℕ) (map_given data_given : Bool)
      → List MapEntry
      → (bytes : List ℕ) → Cmd Datamgr (Unit {0})
  unfolding parse_loop print_sensors
  datamgr_parse_sensor_files fuel map_given data_given entries bytes = do
    exit_if (not map_given)
    exit_if (not data_given)
    on_list (dpl_create true)
    on_list (load_map floats fuel entries)
    parse_loop fuel (read_records (suc (length bytes)) bytes)
    print (codes "\n\n\n\n\n\n")
    print_sensors fuel

  free_rooms : (fuel : ℕ) → Cmd Datamgr (Unit {0})
  free_rooms fuel = do
    missing ← on_list is_null
    exit_if missing
    on_list (dpl_free (callbacks null) fuel true)

  -- `main`, whose result is the exit status.
  pub first_lab :
      (fuel : ℕ) (map_opened data_opened : Bool) → List MapEntry → (bytes : List ℕ) → Cmd Datamgr ℤ
  unfolding datamgr_parse_sensor_files free_rooms
  first_lab fuel map_opened data_opened entries bytes = do
    print (codes "Hello World\n")
    if not map_opened then pure (negsuc 0) else if not data_opened then pure (negsuc 0) else do
      datamgr_parse_sensor_files fuel true true entries bytes
      free_rooms fuel
      print (codes "Bye World\n")
      pure (pos 0)
