-- ===== src/Plab1/Parse.antt =====
-- The first lab's loop over the data file, as a function of the rooms.
use osc_server.Base.{
  ℕ, ◌<◌, ◌≡◌, refl, inl, inr, Option, none, some, List, [], ◌∷◌, ◌++◌, ◌∙◌, ap, sym, length,
  Option-cases,
}
use mathlib.Core.List.{append-nil, append_assoc}
use osc_server.Base.Text.{Text, codes}
use osc_server.Memory.Returns
use osc_server.Memory.Returns.{Returns, returns}
use osc_server.Config.{SensorData}
use osc_server.Dplist.Chain.{Cells}
use osc_server.Datamgr.{Datamgr, measured}
use osc_server.Datamgr.RunningAvg.{Floats, get_running_avg}
use osc_server.Datamgr.Element.{ListElement}
use osc_server.Datamgr.Stored.{
  IsRooms, first_of, find_room, load_element-ok, put_element-ok, Stored-update_first, not-find_room,
}
use osc_server.Datamgr.Manager.{lookup_rooms, measure, measure_all}
use osc_server.Plab1.{notice, parse_record, parse_loop}

module _ (floats : Floats) where
  abbrev notice_of : SensorData → Option ListElement → List Text
  notice_of d none = codes "Senosr id wrong" ∷ []
  notice_of d (some r) =
      notice floats r.sensor_id (get_running_avg floats (measured floats d r).window_running_avg)
        d.ts

  -- What is printed for a record, and for all records, each with the rooms at its time.
  abbrev pub notices : SensorData → List ListElement → List Text
  notices d rs = notice_of d (find_room d.id rs)

  abbrev pub notice_all : List SensorData → List ListElement → List Text
  notice_all [] rs = []
  notice_all (d ∷ ds) rs = notices d rs ++ notice_all ds (measure floats d rs)

  -- Afterwards the list stands for the rooms `rs`, and `lines` were printed.
  pub record Parsed (s : Datamgr) (xs : Cells) (rs : List ListElement) (lines : List Text)
      (u : Unit {0}) (t : Datamgr) : Type 0 where
    pub rooms : IsRooms t.data_list xs rs
    pub printed : t.printed ≡ s.printed ++ lines
    pub logged : t.log ≡ s.log

  parse_record-measure :
      (fuel : ℕ) (d : SensorData) (s : Datamgr) (xs : Cells) (rs : List ListElement)
      → IsRooms s.data_list xs rs
      → length xs < fuel
      → Returns (Parsed s xs (measure floats d rs) (notices d rs)) (parse_record floats fuel d s)
  unfolding parse_record
  parse_record-measure fuel d s xs rs is enough =
      rw (lookup_rooms floats fuel s.data_list xs rs d.id is enough)
        (elim (Option-cases (first_of d.id xs rs)) [
          | inl absent ↦
              let (missing, same) =
                not-find_room s.data_list.elements d.id (measured floats d) xs rs is.stored
                  absent in
              rw (absent, missing, same)
                (returns (record { rooms = is; printed = refl; logged = refl }))
          | inr (a, there) ↦
              let (r, found, real, holds, stored) =
                Stored-update_first s.data_list.elements d.id a (measured floats d) xs rs is.stored
                  there in
              rw
                (
                  there,
                  found,
                  load_element-ok s.data_list a r real holds,
                  put_element-ok s.data_list a r (measured floats d r) real holds,
                )
                (returns (record {
                  rooms = record {
                    cells = record { handle = is.cells.handle; chain = is.cells.chain };
                    stored = stored;
                  };
                  printed = refl;
                  logged = refl;
                }))
        ])

  -- The loop of the first lab comes back for every file, measures each record in its first room and
  -- prints a report for each record in turn; the log stays as it is.
  pub parse_loop-measure_all :
      (fuel : ℕ) (ds : List SensorData) (s : Datamgr) (xs : Cells) (rs : List ListElement)
      → IsRooms s.data_list xs rs
      → length xs < fuel
      → Returns
          (Parsed s xs (measure_all floats ds rs) (notice_all ds rs))
          (parse_loop floats fuel ds s)
  unfolding parse_loop
  parse_loop-measure_all fuel [] s xs rs is enough =
      returns (record { rooms = is; printed = sym (append-nil s.printed); logged = refl })
  parse_loop-measure_all fuel (d ∷ ds) s xs rs is enough =
      Returns.bind (parse_record-measure fuel d s xs rs is enough) λ u t one.
        Returns.mono (parse_loop-measure_all fuel ds t xs (measure floats d rs) one.rooms enough)
          λ v w two. record {
            rooms = two.rooms;
            printed =
                two.printed
                ∙ ap (λ l. l ++ notice_all ds (measure floats d rs)) one.printed
                ∙ append_assoc s.printed (notices d rs) (notice_all ds (measure floats d rs));
            logged = two.logged ∙ one.logged;
          }
