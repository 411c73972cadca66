-- ===== src/Datamgr/Manager.antt =====
-- The loop of the data manager, as a function of the rooms.
use osc_server.Base.{
  ℕ, ◌<◌, ◌≡◌, refl, ◌≢◌, inl, inr, ◌⊎◌, Bool, true, false, not, ◌||◌, Option, none, some, List, [],
  ◌∷◌, ◌++◌, ◌==◌, ==-ne, ◌∙◌, ap, sym, length, Option-cases,
}
use mathlib.Core.List.{append-nil, append_assoc}
use osc_server.Base.Text.{Text}
use osc_server.Memory.{ok, ◌>>◌}
use osc_server.Memory.Returns.{Returns, returns}
use osc_server.Memory.Returns
use osc_server.Config.{SensorData}
use osc_server.Sbuffer.{Status, empty, success, failure}
use osc_server.Storage.{is_empty}
use osc_server.Logger.Messages.{invalid_message}
use osc_server.Dplist.Chain.{Cells, IsList-memory}
use osc_server.Datamgr.{Datamgr, Rooms, lookup_loop, measured, report, measure_record, main_loop}
use osc_server.Datamgr.RunningAvg.{Floats, get_running_avg}
use osc_server.Datamgr.Element.{ListElement}
use osc_server.Datamgr.Stored.{
  IsRooms, first_of, find_room, update_first, load_element-ok, put_element-ok, Stored-update_first,
  not-find_room,
}
use osc_server.Datamgr.Lookup.{lookup-first_of}

module _ (floats : Floats) where
  -- The rooms after a record: the first room with the sensor is measured.
  abbrev pub measure : SensorData → List ListElement → List ListElement
  measure d rs = update_first d.id (measured floats d) rs

  abbrev report_of : SensorData → Option ListElement → List Text
  report_of d none = invalid_message d.id ∷ []
  report_of d (some r) =
      report floats r.sensor_id (get_running_avg floats (measured floats d r).window_running_avg)

  -- The messages for a record.
  abbrev pub reports : SensorData → List ListElement → List Text
  reports d rs = report_of d (find_room d.id rs)

  -- Afterwards the list stands for the rooms `rs`, and the log grew by `msgs`.
  pub record Continues {A : Type 0} (s : Datamgr) (xs : Cells) (rs : List ListElement)
      (msgs : List Text) (a b : A) (t : Datamgr) : Type 0 where
    pub result : a ≡ b
    pub rooms : IsRooms t.data_list xs rs
    pub logged : t.log ≡ s.log ++ msgs
    pub silent : t.printed ≡ s.printed

  pub lookup_rooms :
      (fuel : ℕ) (m : Rooms) (xs : Cells) (rs : List ListElement) (id : ℕ)
      → IsRooms m xs rs
      → length xs < fuel
      → lookup_loop fuel fuel 0 id m ≡ ok (first_of id xs rs) m
  lookup_rooms fuel m xs rs id is enough =
      let here = IsList-memory m xs is.cells in
      rw here (
        lookup-first_of m.nodes m.elements fuel xs is.cells.chain enough fuel 0 id xs rs refl
          is.stored enough)

  -- A record, with enough fuel for the list: the first room of its sensor is measured and reported,
  -- every other room stays; a record of no room leaves all rooms and is reported as invalid.
  pub measure_record-measure :
      (fuel : ℕ) (d : SensorData) (s : Datamgr) (xs : Cells) (rs : List ListElement)
      → IsRooms s.data_list xs rs
      → length xs < fuel
      → Returns (Continues s xs (measure d rs) (reports d rs) tt) (measure_record floats fuel d s)
  unfolding measure_record
  measure_record-measure fuel d s xs rs is enough =
      rw (lookup_rooms fuel s.data_list xs rs d.id is enough)
        (elim (Option-cases (first_of d.id xs rs)) [
          | inl absent ↦
              let (missing, same) =
                not-find_room s.data_list.elements d.id (measured floats d) xs rs is.stored
                  absent in
              rw (absent, missing, same)
                (returns (record { result = refl; rooms = is; logged = refl; silent = refl }))
          | inr (a, there) ↦
              let (r, found, real, holds, stored) =
                Stored-update_first s.data_list.elements d.id a (measured floats d) xs rs is.stored
                  there in
              rw
                (
                  there,
                  found,
                  load_element-ok s.data_list a r real holds,
                  put_element-ok s.data_list a r (measured floats d r) real holds,
                )
                (returns (record {
                  result = refl;
                  rooms = record {
                    cells = record { handle = is.cells.handle; chain = is.cells.chain };
                    stored = stored;
                  };
                  logged = refl;
                  silent = refl;
                }))
        ])

  -- The records that the reads give while the manager goes on, and that it goes on after each.
  abbrev pub taken : List (Status × SensorData × Bool) → List SensorData
  taken [] = []
  taken ((empty, d, keep) ∷ reads) = taken reads
  taken ((success, d, keep) ∷ reads) = d ∷ taken reads
  taken ((failure, d, keep) ∷ reads) = d ∷ taken reads

  abbrev pub GoesOn : List (Status × SensorData × Bool) → Type 0
  GoesOn [] = Unit {0}
  GoesOn ((status, d, keep) ∷ reads) =
      (keep ≡ true) × ((is_empty status ≡ false) → d.id ≢ 0) × GoesOn reads

  -- A read after which the loop is left.
  abbrev pub Stops : Status × SensorData × Bool → Type 0
  Stops (status, d, keep) =
      ((is_empty status ≡ true) × (keep ≡ false))
      ⊎ ((is_empty status ≡ false) × (((d.id == 0) || not keep) ≡ true))

  abbrev pub measure_all : List SensorData → List ListElement → List ListElement
  measure_all [] rs = rs
  measure_all (d ∷ ds) rs = measure_all ds (measure d rs)

  abbrev pub report_all : List SensorData → List ListElement → List Text
  report_all [] rs = []
  report_all (d ∷ ds) rs = reports d rs ++ report_all ds (measure d rs)

  main_loop-Stops :
      (fuel : ℕ) (read : Status × SensorData × Bool) (more : List (Status × SensorData × Bool))
      (s : Datamgr) (xs : Cells) (rs : List ListElement)
      → IsRooms s.data_list xs rs
      → Stops read
      → Returns
          (Continues s xs rs [] (not (is_empty read.0)))
          (main_loop floats fuel (read ∷ more) s)
  unfolding main_loop
  main_loop-Stops fuel (status, d, keep) more s xs rs is (inl (nothing, stop)) =
      rw (nothing, stop)
        (returns
          (record { result = refl; rooms = is; logged = sym (append-nil s.log); silent = refl }))
  main_loop-Stops fuel (status, d, keep) more s xs rs is (inr (got, stop)) =
      rw (got, stop)
        (returns
          (record { result = refl; rooms = is; logged = sym (append-nil s.log); silent = refl }))

  -- A record in a loop that goes on.
  main_loop-record :
      (fuel : ℕ) (d : SensorData) (reads : List (Status × SensorData × Bool)) (b : Bool)
      (s : Datamgr) (xs : Cells) (rs final : List ListElement) (msgs : List Text)
      → IsRooms s.data_list xs rs
      → length xs < fuel
      → ((t : Datamgr)
          → IsRooms t.data_list xs (measure d rs)
          → Returns (Continues t xs final msgs b) (main_loop floats fuel reads t))
      → Returns
          (Continues s xs final (reports d rs ++ msgs) b)
          ((measure_record floats fuel d >> main_loop floats fuel reads) s)
  main_loop-record fuel d reads b s xs rs final msgs is enough rest =
      Returns.bind (measure_record-measure fuel d s xs rs is enough) λ u t one.
        Returns.mono (rest t one.rooms) λ a v two. record {
          result = two.result;
          rooms = two.rooms;
          logged =
              two.logged ∙ ap (λ l. l ++ msgs) one.logged ∙ append_assoc s.log (reports d rs) msgs;
          silent = two.silent ∙ one.silent;
        }

  -- The loop up to the first read after which it stops comes back, and says whether it was left by
  -- a record. Its list then stands for the rooms after each record read was measured in its first
  -- room, and the log has the reports of each record at its time, in order. A record of no room
  -- changes nothing and is reported as invalid.
  pub main_loop-measure_all :
      (fuel : ℕ) (pre : List (Status × SensorData × Bool)) (last : Status × SensorData × Bool)
      (more : List (Status × SensorData × Bool)) (s : Datamgr) (xs : Cells) (rs : List ListElement)
      → IsRooms s.data_list xs rs
      → length xs < fuel
      → GoesOn pre
      → Stops last
      → Returns
          (Continues s xs
            (measure_all (taken pre) rs)
            (report_all (taken pre) rs)
            (not (is_empty last.0)))
          (main_loop floats fuel (pre ++ last ∷ more) s)
  unfolding main_loop
  main_loop-measure_all fuel [] last more s xs rs is enough goes stops =
      main_loop-Stops fuel last more s xs rs is stops
  main_loop-measure_all fuel ((empty, d, keep) ∷ pre) last more s xs rs is enough
        (on, some_id, goes) stops =
      rw on (main_loop-measure_all fuel pre last more s xs rs is enough goes stops)
  main_loop-measure_all fuel ((success, d, keep) ∷ pre) last more s xs rs is enough
        (on, some_id, goes) stops =
      rw (==-ne d.id 0 (some_id refl), on)
        (main_loop-record fuel d (pre ++ last ∷ more) _ s xs rs _ _ is enough λ t is'.
          main_loop-measure_all fuel pre last more t xs (measure d rs) is' enough goes stops)
  main_loop-measure_all fuel ((failure, d, keep) ∷ pre) last more s xs rs is enough
        (on, some_id, goes) stops =
      rw (==-ne d.id 0 (some_id refl), on)
        (main_loop-record fuel d (pre ++ last ∷ more) _ s xs rs _ _ is enough λ t is'.
          main_loop-measure_all fuel pre last more t xs (measure d rs) is' enough goes stops)
