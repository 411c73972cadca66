-- ===== src/Datamgr.antt =====
-- TCP_SensorMonitoringSystem/project/datamgr.c: the list of rooms from the map file, the running
-- average of each sensor and the reports in the log. The list is that of `Dplist`, with an element
-- for each room; `fuel` bounds the loops over it, and one more than its length is enough.
pub mod RunningAvg
pub mod Element
pub mod Stored
pub mod Load
pub mod Lookup
pub mod Manager
pub mod History
pub mod Finish
pub mod Init
pub mod Samples
mod Tests
use osc_server.Base.{
  ℕ, zero, suc, ◌+◌, List, [], ◌∷◌, ◌++◌, Bool, true, false, not, ◌||◌, Option, none, some, ◌==◌,
  if◌then◌else◌,
}
use osc_server.Base.Int.{ℤ, pos, negsuc, ltb_ℤ, is_zero}
use osc_server.Base.Text.{Text, codes, decimal}
use osc_server.Memory.{
  Ptr, null, Store, write, Run, Cmd, ok, fault, exited, blocked, out_of_fuel, pure, undefined,
  exit_if, ◌>>=◌, ◌>>◌,
}
use osc_server.Config.{SensorData}
use osc_server.Sbuffer.{Status}
use osc_server.Dplist.{Callbacks, dpl_create, dpl_size, dpl_get_element_at_index}
use osc_server.Dplist.Memory.{Mem, is_null}
use osc_server.Dplist.Update.{dpl_insert_at_index, dpl_free}
use osc_server.Storage.{is_empty, long_decimal}
use osc_server.Logger.Messages.{temperature_message, invalid_message}
use RunningAvg.{Floats, Window, shift_window, set_first, get_running_avg}
use Element.{ListElement, load_element, put_element, allocate_element, callbacks}

abbrev pub Rooms : Type 0
Rooms = Mem ListElement

-- `data_list` with its nodes and elements, the messages for the log, and what `printf` printed.
pub record Datamgr : Type 0 where
  pub data_list : Rooms
  pub log : List Text
  pub printed : List Text

abbrev relift : {A : Type 0} → Datamgr → Run Rooms A → Run Datamgr A
relift s (ok a m) = ok a (record s { data_list = m })
relift s fault = fault
relift s exited = exited
relift s blocked = blocked
relift s out_of_fuel = out_of_fuel

abbrev pub on_list : {A : Type 0} → Cmd Rooms A → Cmd Datamgr A
on_list c s = relift s (c s.data_list)

abbrev pub emit : Text → Cmd Datamgr (Unit {0})
emit msg s = ok tt (record s { log = s.log ++ msg ∷ [] })

abbrev pub print : Text → Cmd Datamgr (Unit {0})
print line s = ok tt (record s { printed = s.printed ++ line ∷ [] })

-- A line of the map file, with the addresses that `malloc` returns for the element and the node.
pub record MapEntry : Type 0 where
  pub room_id : ℕ
  pub sensor_id : ℕ
  pub element : Ptr
  pub list_node : Ptr

-- The loop that finds the first room with the sensor's id: its element, if there is one.
pub lookup_loop : (fuel rounds i id : ℕ) → Cmd Rooms (Option Ptr)
lookup_loop fuel zero i id = λ _. out_of_fuel
lookup_loop fuel (suc rounds) i id = do
  size ← dpl_size fuel
  if not (ltb_ℤ (pos i) size) then pure none else do
    tmp ← dpl_get_element_at_index fuel (pos i)
    e ← load_element tmp
    if e.sensor_id == id then pure (some tmp) else lookup_loop fuel rounds (i + 1) id

module _ (floats : Floats) where
  -- A new room: the window holds the middle of the range.
  abbrev pub new_element : MapEntry → ListElement
  new_element m = record {
    sensor_id = m.sensor_id;
    room_id = m.room_id;
    window_running_avg = λ i. floats.midpoint;
    last_modified = 0;
    running_avg_value = none;
  }

  pub insert_room : (fuel : ℕ) → MapEntry → Cmd Rooms (Unit {0})
  insert_room fuel m = do
    exit_if (m.element == null)
    allocate_element m.element (new_element m)
    dpl_insert_at_index (callbacks null) fuel m.list_node m.element (pos 0) false
    pure tt

  pub load_map : (fuel : ℕ) → List MapEntry → Cmd Rooms (Unit {0})
  unfolding insert_room
  load_map fuel [] = pure tt
  load_map fuel (m ∷ ms) = insert_room fuel m >> load_map fuel ms

  -- The element after a measurement.
  abbrev pub measured : SensorData → ListElement → ListElement
  measured d e =
      let w : Window = set_first (shift_window e.window_running_avg) d.value in
      record e {
        window_running_avg = w;
        last_modified = d.ts;
        running_avg_value = some (get_running_avg floats w);
      }

  -- The report on a running average, if it is out of the range.
  abbrev pub report : (id avg : ℕ) → List Text
  report id avg =
      if floats.too_hot avg
      then temperature_message floats.fixed4 id true avg ∷ []
      else if floats.too_cold avg
      then temperature_message floats.fixed4 id false avg ∷ []
      else []

  abbrev emit_all : List Text → Cmd Datamgr (Unit {0})
  emit_all msgs s = ok tt (record s { log = s.log ++ msgs })

  -- One record from the buffer.
  pub measure_record : (fuel : ℕ) → SensorData → Cmd Datamgr (Unit {0})
  unfolding lookup_loop
  measure_record fuel d = do
    found ← on_list (lookup_loop fuel fuel 0 d.id)
    elim found [
      | none ↦ emit (invalid_message d.id)
      | some tmp ↦ do
        e ← on_list (load_element tmp)
        on_list (put_element tmp (measured d e))
        emit_all (report e.sensor_id (get_running_avg floats (measured d e).window_running_avg))
    ]

  -- The loop around `sbuffer_read`; each read comes with `keep_running` at that time. The result is
  -- whether the loop was left by `break`, and not by the early return.
  pub main_loop : (fuel : ℕ) → List (Status × SensorData × Bool) → Cmd Datamgr Bool
  unfolding measure_record
  main_loop fuel [] s = out_of_fuel
  main_loop fuel ((status, d, keep_running) ∷ reads) s =
      let rest = main_loop fuel reads in
      if is_empty status
      then (if keep_running then rest s else ok false s)
      else if (d.id == 0) || not keep_running
      then ok true s
      else (measure_record fuel d >> rest) s

-- The lines of `datamgr_print_sensors`. An element is never NULL in a list that the manager built.
abbrev pub sensor_line : (floats : Floats) → ListElement → Text
sensor_line floats e =
    codes "Sensor ID: "
    ++ decimal e.sensor_id
    ++ codes ", Room ID: "
    ++ decimal e.room_id
    ++ codes ", Running Avg: "
    ++ floats.fixed4 (get_running_avg floats e.window_running_avg)
    ++ codes ", Last Modified: "
    ++ long_decimal e.last_modified
    ++ codes "\n"

module _ (floats : Floats) where
  print_element : (i : ℕ) (e : Ptr) → Cmd Datamgr (Unit {0})
  print_element i e =
      if e == null
      then print (codes "Error: NULL element at index " ++ decimal i ++ codes ".\n")
      else do x ← on_list (load_element e); print (sensor_line floats x)

  pub print_loop : (fuel rounds i : ℕ) → Cmd Datamgr (Unit {0})
  unfolding print_element
  print_loop fuel zero i = λ _. out_of_fuel
  print_loop fuel (suc rounds) i = do
    size ← on_list (dpl_size fuel)
    if not (ltb_ℤ (pos i) size) then pure tt else do
      e ← on_list (dpl_get_element_at_index fuel (pos i))
      print_element i e
      print_loop fuel rounds (i + 1)

  pub datamgr_print_sensors : (fuel : ℕ) → Cmd Datamgr (Unit {0})
  unfolding print_loop
  datamgr_print_sensors fuel = do
    missing ← on_list is_null
    size ← on_list (dpl_size fuel)
    exit_if (missing || is_zero size)
    print_loop fuel fuel 0

  pub datamgr_free : (fuel : ℕ) → Cmd Datamgr (Unit {0})
  datamgr_free fuel = do
    missing ← on_list is_null
    exit_if missing
    on_list (dpl_free (callbacks null) fuel true)
    left ← on_list is_null
    exit_if (not left)

  -- The end of `data_manager_init`, behind its loop.
  pub finish : (fuel : ℕ) → Cmd Datamgr Bool
  unfolding datamgr_print_sensors datamgr_free
  finish fuel = do
    print (codes "\n\n\nFINAL RUNNING AVERAGES AND TIMESTAMPS:\n\n\n")
    datamgr_print_sensors fuel
    print (codes "\n\n\n\n\n\n")
    datamgr_free fuel
    pure true

  -- `opened` is whether the map file opens; there is memory for the list.
  pub data_manager_init :
      (fuel : ℕ) (opened : Bool)
      → List MapEntry
      → List (Status × SensorData × Bool)
      → Cmd Datamgr Bool
  unfolding load_map main_loop finish
  data_manager_init fuel opened entries reads = do
    exit_if (not opened)
    emit (codes "Sensor map opened\n")
    on_list (dpl_create true)
    on_list (load_map floats fuel entries)
    emit (codes "Sensor mapping process complete\n")
    by_break ← main_loop floats fuel reads
    if by_break then finish fuel else pure false
