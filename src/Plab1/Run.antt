-- ===== src/Plab1/Run.antt =====
-- A whole run of the first lab.
use osc_server.Base.{
  ℕ, suc, ◌<◌, ◌≤◌, ◌≡◌, refl, Bool, true, false, ◌&&◌, none, List, [], ◌∷◌, ◌++◌, map, arith, ◌==◌,
  ◌∙◌, ap, length, length-append,
}
use mathlib.Core.List.{append_assoc}
use osc_server.Base.Int.{pos, negsuc}
use osc_server.Base.Text.{Text, codes, flatten}
use osc_server.Memory.{Ptr, null, ok, write}
use osc_server.Memory.Returns
use osc_server.Memory.Returns.{Returns, returns}
use osc_server.Config.{SensorData}
use osc_server.Config.Packed.{AllFit, record_bytes, read_records-record_bytes}
use osc_server.Dplist.{dpl_create}
use osc_server.Dplist.Memory.{headed}
use osc_server.Dplist.Chain.{Cells, has, IsList, IsList-memory}
use osc_server.Dplist.Walk.{holding, size-holding}
use osc_server.Dplist.Update.Free.{dpl_free-released}
use osc_server.Datamgr.{Datamgr, Rooms, MapEntry, sensor_line}
use osc_server.Datamgr.RunningAvg.{Floats}
use osc_server.Datamgr.Element.{ListElement, callbacks}
use osc_server.Datamgr.Stored.{IsRooms}
use osc_server.Datamgr.Load.{Fresh, loaded_cells, loaded_rooms, load_map-loaded_rooms}
use osc_server.Datamgr.Init.{length-loaded_cells}
use osc_server.Datamgr.Manager.{measure_all}
use osc_server.Datamgr.Finish.{print_loop-lines, Stored-Freeable}
use osc_server.Plab1.{print_sensors, datamgr_parse_sensor_files, free_rooms, first_lab}
use osc_server.Plab1.Parse.{Parsed, notice_all, parse_loop-measure_all}

length-records-le :
    (ds : List SensorData) (rest : List ℕ)
    → length ds ≤ length (flatten (map record_bytes ds) ++ rest)
length-records-le [] rest = omega arith
length-records-le (d ∷ ds) rest = omega (
  arith,
  ap length (append_assoc (record_bytes d) (flatten (map record_bytes ds)) rest),
  length-append (record_bytes d) (flatten (map record_bytes ds) ++ rest),
  length-records-le ds rest,
)

module _ (floats : Floats) where
  -- The rooms as `datamgr_print_sensors` prints them.
  abbrev pub listing : List ListElement → List Text
  listing [] = codes "The list is empty.\n" ∷ []
  listing (r ∷ rs) = sensor_line floats r ∷ map (sensor_line floats) rs

  print_sensors-listing :
      (fuel : ℕ) (s : Datamgr) (xs : Cells) (rs : List ListElement)
      → IsRooms s.data_list xs rs
      → length xs < fuel
      → print_sensors floats fuel s ≡ ok tt (record s { printed = s.printed ++ listing rs })
  unfolding print_sensors
  print_sensors-listing fuel s [] [] is enough =
      rw
        (
          IsList-memory s.data_list [] is.cells,
          size-holding s.data_list.nodes s.data_list.elements fuel [] is.cells.chain enough,
        )
        refl
  print_sensors-listing fuel s [] (r ∷ rs) is enough = absurd is.stored
  print_sensors-listing fuel s (x ∷ xs) [] is enough = absurd is.stored
  print_sensors-listing fuel s (x ∷ xs) (r ∷ rs) is enough =
      let nodes = s.data_list.nodes in
      let es = s.data_list.elements in
      let n : (length (x ∷ xs) == 0) ≡ false = ground arith in
      rw
        (
          IsList-memory s.data_list (x ∷ xs) is.cells,
          size-holding nodes es fuel (x ∷ xs) is.cells.chain enough,
          n,
        )
        (print_loop-lines floats nodes es fuel (x ∷ xs) is.cells.chain enough s.log fuel 0 (x ∷ xs)
          (r ∷ rs) s.printed refl is.stored enough)

  abbrev Freed : Datamgr → Cells → Unit {0} → Datamgr → Type 0
  Freed s xs u t =
      (t.data_list.list ≡ none)
      × ((a : Ptr) → has a xs ≡ true → t.data_list.nodes a ≡ none)
      × (t.printed ≡ s.printed)

  free_rooms-Freed :
      (fuel : ℕ) (s : Datamgr) (xs : Cells) (rs : List ListElement)
      → IsRooms s.data_list xs rs
      → length xs < fuel
      → Returns (Freed s xs) (free_rooms floats fuel s)
  unfolding free_rooms
  free_rooms-Freed fuel s xs rs is enough =
      let nodes = s.data_list.nodes in
      let es = s.data_list.elements in
      let cells : IsList (holding xs nodes es) xs = record {
        handle = refl;
        chain = is.cells.chain;
      } in
      let freed =
        dpl_free-released (callbacks null) (holding xs nodes es) xs fuel true
          (λ fs e. write fs e none) (Stored-Freeable es xs rs is.stored) cells enough in
      let (u, m, run, (gone, left, swept, others)) = Returns.to_ok freed in
      rw (IsList-memory s.data_list xs is.cells, run) (returns (gone, swept, refl))

  -- What `datamgr_parse_sensor_files` prints.
  abbrev pub parse_output : List MapEntry → List SensorData → List Text
  parse_output entries ds =
      notice_all floats ds (loaded_rooms floats entries [])
      ++ codes "\n\n\n\n\n\n" ∷ listing (measure_all floats ds (loaded_rooms floats entries []))

  parse_sensor_files-output :
      (fuel : ℕ) (entries : List MapEntry) (ds : List SensorData) (rest : List ℕ) (s : Datamgr)
      → Fresh s.data_list.nodes [] entries
      → length entries < fuel
      → AllFit ds
      → length rest < 18
      → Returns
          (Parsed floats s
            (loaded_cells entries [])
            (measure_all floats ds (loaded_rooms floats entries []))
            (parse_output entries ds))
          (datamgr_parse_sensor_files floats fuel true true entries
            (flatten (map record_bytes ds) ++ rest)
            s)
  unfolding datamgr_parse_sensor_files dpl_create
  parse_sensor_files-output fuel entries ds rest s fresh enough fit short =
      let bytes = flatten (map record_bytes ds) ++ rest in
      let start : Rooms = record s.data_list { list = headed null } in
      let none_yet : IsRooms start [] [] = record {
        cells = record { handle = refl; chain = tt };
        stored = tt;
      } in
      let size = length-loaded_cells entries [] in
      let loaded =
        load_map-loaded_rooms floats fuel entries start [] [] none_yet (omega (arith, enough))
          fresh in
      let (u, m, run, rooms) = Returns.to_ok loaded in
      let read =
        read_records-record_bytes ds rest (suc (length bytes)) fit short
          (omega (arith, length-records-le ds rest)) in
      rw (run, read)
        (Returns.bind
          (parse_loop-measure_all floats fuel ds _ (loaded_cells entries [])
            (loaded_rooms floats entries []) rooms (omega (arith, size, enough)))
          λ v t one.
            let sep : Text = codes "\n\n\n\n\n\n" in
            let rs = measure_all floats ds (loaded_rooms floats entries []) in
            let t1 : Datamgr = record t { printed = t.printed ++ sep ∷ [] } in
            rw
              (print_sensors-listing fuel t1 (loaded_cells entries []) rs one.rooms
                (omega (arith, size, enough)))
              (returns (record {
                rooms = one.rooms;
                printed =
                    append_assoc t.printed (sep ∷ []) (listing rs)
                    ∙ ap (λ p. p ++ sep ∷ listing rs) one.printed
                    ∙ append_assoc s.printed _ (sep ∷ listing rs);
                logged = one.logged;
              })))

  not_opened :
      (fuel : ℕ) (entries : List MapEntry) (bytes : List ℕ) (s : Datamgr)
      (map_opened data_opened : Bool)
      → (map_opened && data_opened) ≡ false
      → first_lab floats fuel map_opened data_opened entries bytes s
        ≡ ok (negsuc 0) (record s { printed = s.printed ++ codes "Hello World\n" ∷ [] })
  unfolding first_lab
  not_opened fuel entries bytes s true true e = absurd (cc)
  not_opened fuel entries bytes s true false e = refl
  not_opened fuel entries bytes s false data_opened e = refl

  -- With both files open, fresh addresses for all lines of the map, and a data file of whole records,
  -- `main` of the first lab comes back with status 0: it has printed a report for each record and
  -- then all rooms, each with the running average of the records in the file, or that there are
  -- none; and it has freed every node of its list. If a file does not open, the status is -1 and only
  -- the greeting was printed.
  pub first_lab-output :
      (fuel : ℕ) (entries : List MapEntry) (ds : List SensorData) (rest : List ℕ) (s : Datamgr)
      → Fresh s.data_list.nodes [] entries
      → length entries < fuel
      → AllFit ds
      → length rest < 18
      → Returns
          (λ status t.
            (status ≡ pos 0)
            × (t.printed
                ≡ s.printed
                  ++ codes "Hello World\n" ∷ (parse_output entries ds ++ codes "Bye World\n" ∷ []))
            × (t.data_list.list ≡ none)
            × ((a : Ptr) → has a (loaded_cells entries []) ≡ true → t.data_list.nodes a ≡ none))
          (first_lab floats fuel true true entries (flatten (map record_bytes ds) ++ rest) s)
        × ((map_opened data_opened : Bool)
            → (map_opened && data_opened) ≡ false
            → first_lab floats fuel map_opened data_opened entries
                (flatten (map record_bytes ds) ++ rest)
                s
              ≡ ok (negsuc 0) (record s { printed = s.printed ++ codes "Hello World\n" ∷ [] }))
  unfolding first_lab
  first_lab-output fuel entries ds rest s fresh enough fit short =
      let hello : Text = codes "Hello World\n" in
      let bye : Text = codes "Bye World\n" in
      let s1 : Datamgr = record s { printed = s.printed ++ hello ∷ [] } in
      let size = length-loaded_cells entries [] in
      let rs = measure_all floats ds (loaded_rooms floats entries []) in
      (
        Returns.bind (parse_sensor_files-output fuel entries ds rest s1 fresh enough fit short)
            λ u t one.
              Returns.bind
                (free_rooms-Freed fuel t (loaded_cells entries []) rs one.rooms
                  (omega (arith, size, enough)))
                λ v w (gone, swept, printed). returns (
                  refl,
                  ap (λ p. p ++ bye ∷ []) (printed ∙ one.printed)
                      ∙ append_assoc (s.printed ++ hello ∷ []) (parse_output entries ds) (bye ∷ [])
                      ∙ append_assoc s.printed (hello ∷ []) (parse_output entries ds ++ bye ∷ []),
                  gone,
                  swept,
                ),
        not_opened fuel entries (flatten (map record_bytes ds) ++ rest) s,
      )
