-- ===== src/Datamgr/Init.antt =====
-- A whole run of the data manager.
use osc_server.Base.{
  ℕ, ◌+◌, ◌<◌, ◌≡◌, refl, Bool, true, false, not, List, [], ◌∷◌, ◌++◌, arith, ◌∙◌, ap, sym, length,
  none,
}
use mathlib.Core.List.{append_assoc}
use osc_server.Base.Text.{Text, codes}
use osc_server.Memory.{Ptr, null}
use osc_server.Memory.Returns
use osc_server.Memory.Returns.{Returns, returns}
use osc_server.Config.{SensorData}
use osc_server.Sbuffer.{Status}
use osc_server.Storage.{is_empty}
use osc_server.Dplist.{dpl_create}
use osc_server.Dplist.Memory.{headed}
use osc_server.Dplist.Chain.{Cells, has}
use osc_server.Datamgr.{Datamgr, Rooms, MapEntry, data_manager_init}
use osc_server.Datamgr.RunningAvg.{Floats}
use osc_server.Datamgr.Stored.{IsRooms}
use osc_server.Datamgr.Load.{Fresh, loaded_cells, loaded_rooms, load_map-loaded_rooms}
use osc_server.Datamgr.Manager.{
  GoesOn, Stops, taken, measure_all, report_all, main_loop-measure_all,
}
use osc_server.Datamgr.Finish.{summary, finish-Closed}

pub length-loaded_cells :
    (ms : List MapEntry) (xs : Cells) → length (loaded_cells ms xs) ≡ length xs + length ms
length-loaded_cells [] xs = omega arith
length-loaded_cells (m ∷ ms) xs =
    omega (arith, length-loaded_cells ms ((m.list_node, m.element) ∷ xs))

module _ (floats : Floats) where
  -- The log of a run: the two messages of the start, and the reports.
  abbrev pub init_log : List MapEntry → List SensorData → List Text
  init_log entries ds =
      codes "Sensor map opened\n"
      ∷ codes "Sensor mapping process complete\n"
      ∷ report_all floats ds (loaded_rooms floats entries [])

  -- With a map file of at least one line, fresh addresses for all lines, and reads that end with a
  -- record after which the manager stops, it comes back, past its loop. It has logged the start and
  -- the reports of all records before, has printed the final rooms, has freed every node of its
  -- list, and has no list any more.
  pub data_manager_init-init_log :
      (fuel : ℕ) (entries : List MapEntry) (pre : List (Status × SensorData × Bool))
      (last : Status × SensorData × Bool) (more : List (Status × SensorData × Bool)) (s : Datamgr)
      → Fresh s.data_list.nodes [] entries
      → 0 < length entries
      → length entries < fuel
      → GoesOn floats pre
      → Stops floats last
      → is_empty last.0 ≡ false
      → Returns
          (λ b t.
            (b ≡ true)
            × (t.data_list.list ≡ none)
            × ((a : Ptr) → has a (loaded_cells entries []) ≡ true → t.data_list.nodes a ≡ none)
            × (t.log ≡ s.log ++ init_log entries (taken floats pre))
            × (t.printed
                ≡ s.printed
                  ++ summary floats
                      (measure_all floats (taken floats pre) (loaded_rooms floats entries []))))
          (data_manager_init floats fuel true entries (pre ++ last ∷ more) s)
  unfolding data_manager_init dpl_create
  data_manager_init-init_log fuel entries pre last more s fresh some_line enough goes stops got =
      let start : Rooms = record s.data_list { list = headed null } in
      let none_yet : IsRooms start [] [] = record {
        cells = record { handle = refl; chain = tt };
        stored = tt;
      } in
      let size = length-loaded_cells entries [] in
      let loaded =
        load_map-loaded_rooms floats fuel entries start [] [] none_yet (omega (arith, enough))
          fresh in
      let (u, m, run, rooms) = Returns.to_ok loaded in
      rw run (
        Returns.bind
          (main_loop-measure_all floats fuel pre last more _ (loaded_cells entries [])
            (loaded_rooms floats entries []) rooms (omega (arith, size, enough)) goes stops)
          λ b t at_end.
            let past : b ≡ true = sym at_end.result ∙ ap not got in
            rw past (
              Returns.mono
                (finish-Closed floats fuel t (loaded_cells entries [])
                  (measure_all floats (taken floats pre) (loaded_rooms floats entries []))
                  at_end.rooms (omega (arith, size, enough)) (omega (arith, size, some_line)))
                λ c v (on, gone, swept, log, printed). (
                  on,
                  gone,
                  swept,
                  log
                      ∙ at_end.logged
                      ∙ append_assoc (s.log ++ _ ∷ []) (_ ∷ []) _
                      ∙ append_assoc s.log (_ ∷ []) _,
                  printed
                      ∙ ap
                          (λ p.
                            p
                            ++ summary floats (
                                measure_all floats (taken floats pre)
                                  (loaded_rooms floats entries [])))
                          at_end.silent,
                )))
