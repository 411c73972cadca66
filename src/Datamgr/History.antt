-- ===== src/Datamgr/History.antt =====
-- What a room holds after any sequence of records: the last measurements of its own sensor.
use osc_server.Base.{
  ℕ, zero, suc, ◌<◌, ◌≡◌, refl, inl, inr, false, some, List, [], ◌∷◌, arith, ◌==◌, ◌∙◌, ap, sym,
  Bool-cases, if_true, if_false, some_injective, if◌then◌else◌,
}
use osc_server.Config.{SensorData}
use osc_server.Datamgr.{measured}
use osc_server.Datamgr.RunningAvg.{Floats, Window, run_avg_length, shift_window-suc}
use osc_server.Datamgr.Element.{ListElement}
use osc_server.Datamgr.Stored.{find_room}
use osc_server.Datamgr.Manager.{measure, measure_all}

-- The values of the records, newest first, and then those of the window from before.
abbrev pub recent : List SensorData → Window → Window
recent [] w i = w i
recent (d ∷ ds) w zero = d.value
recent (d ∷ ds) w (suc i) = recent ds w i

-- The records of a sensor.
abbrev pub own : (id : ℕ) → List SensorData → List SensorData
own id [] = []
own id (d ∷ ds) = if d.id == id then d ∷ own id ds else own id ds

abbrev pub reverse_onto : List SensorData → List SensorData → List SensorData
reverse_onto [] acc = acc
reverse_onto (d ∷ ds) acc = reverse_onto ds (d ∷ acc)

module _ (floats : Floats) where
  -- A room after records, the newest first.
  abbrev pub measured_all : List SensorData → ListElement → ListElement
  measured_all [] r = r
  measured_all (d ∷ ds) r = measured floats d (measured_all ds r)

  window-recent :
      (ds : List SensorData) (r : ListElement) (i : ℕ)
      → i < run_avg_length
      → (measured_all ds r).window_running_avg i ≡ recent ds r.window_running_avg i
  window-recent [] r i h = refl
  window-recent (d ∷ ds) r zero h = refl
  window-recent (d ∷ ds) r (suc i) h =
      let b : (suc i == 0) ≡ false = ground arith in
      rw b (
        shift_window-suc (measured_all ds r).window_running_avg i h
        ∙ window-recent ds r i (omega arith))

  find_room_self :
      (d : SensorData) (rs : List ListElement) (r : ListElement)
      → find_room d.id rs ≡ some r
      → find_room d.id (measure floats d rs) ≡ some (measured floats d r)
  find_room_self d [] r e = cc
  find_room_self d (q ∷ rs) r e = elim (Bool-cases (q.sensor_id == d.id)) [
    | inl here ↦
        let same : q ≡ r =
          some_injective
            (sym (if_true (q.sensor_id == d.id) (some q) (find_room d.id rs) here) ∙ e) in
        rw (here, here) (ap (λ x. some (measured floats d x)) same)
    | inr later ↦
        let there = sym (if_false (q.sensor_id == d.id) (some q) (find_room d.id rs) later) ∙ e in
        rw (later, later) (find_room_self d rs r there)
  ]

  find_room_other :
      (id : ℕ) (d : SensorData) (rs : List ListElement)
      → (d.id == id) ≡ false
      → find_room id (measure floats d rs) ≡ find_room id rs
  find_room_other id d [] other = refl
  find_room_other id d (q ∷ rs) other = elim (Bool-cases (q.sensor_id == d.id)) [
    | inl here ↦ let no : (q.sensor_id == id) ≡ false = ground arith in rw (here, no) refl
    | inr later ↦
        rw later (ap (λ o. if q.sensor_id == id then some q else o) (find_room_other id d rs other))
  ]

  find_room-measure_all :
      (id : ℕ) (ds acc : List SensorData) (rs : List ListElement) (r : ListElement)
      → find_room id rs ≡ some (measured_all acc r)
      → find_room id (measure_all floats ds rs)
        ≡ some (measured_all (reverse_onto (own id ds) acc) r)
  find_room-measure_all id [] acc rs r e = e
  find_room-measure_all id (d ∷ ds) acc rs r e = elim (Bool-cases (d.id == id)) [
    | inl mine ↦
        let same : d.id ≡ id = ground arith in
        rw mine (
          find_room-measure_all id ds (d ∷ acc) (measure floats d rs) r
            (rw (← same) (find_room_self d rs (measured_all acc r) (rw same e))))
    | inr other ↦ rw other (
        find_room-measure_all id ds acc (measure floats d rs) r (find_room_other id d rs other ∙ e))
  ]

  -- After any records the first room of a sensor is still found, is the same room, and its window
  -- has the last values that its own sensor sent, the newest first, and behind them those of before;
  -- records of other sensors do not matter.
  pub measure_all-recent :
      (id : ℕ) (ds : List SensorData) (rs : List ListElement) (r : ListElement) (i : ℕ)
      → find_room id rs ≡ some r
      → i < run_avg_length
      → (q : ListElement) × (find_room id (measure_all floats ds rs) ≡ some q)
        × (q.window_running_avg i ≡ recent (reverse_onto (own id ds) []) r.window_running_avg i)
        × (q.room_id ≡ r.room_id)
  measure_all-recent id ds rs r i e inside = (
    measured_all (reverse_onto (own id ds) []) r,
    find_room-measure_all id ds [] rs r e,
    window-recent (reverse_onto (own id ds) []) r i inside,
    room-measured_all (reverse_onto (own id ds) []) r,
  )
    where
      room-measured_all :
          (es : List SensorData) (q : ListElement) → (measured_all es q).room_id ≡ q.room_id
      room-measured_all [] q = refl
      room-measured_all (d ∷ es) q = room-measured_all es q
