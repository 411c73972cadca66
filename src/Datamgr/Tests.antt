-- ===== src/Datamgr/Tests.antt =====
-- Runs of the data manager, and its theorems at concrete rooms.
use osc_server.Base.{◌≡◌, refl, Bool, true, none, some, List, [], ◌∷◌, ◌++◌, arith, inr}
use osc_server.Memory.{Ptr}
use osc_server.Memory.Returns.{Returns}
use osc_server.Config.{SensorData}
use osc_server.Sbuffer.{Status, success, empty}
use osc_server.Dplist.Memory.{memory}
use osc_server.Datamgr.{data_manager_init}
use osc_server.Datamgr.Finish.{summary}
use osc_server.Datamgr.Init.{init_log, data_manager_init-init_log}
use osc_server.Dplist.Chain.{has}
use osc_server.Datamgr.{Datamgr, main_loop}
use osc_server.Datamgr.Element.{ListElement}
use osc_server.Datamgr.Stored.{find_room}
use osc_server.Datamgr.Manager.{Continues, measure_all, report_all, main_loop-measure_all}
use osc_server.Datamgr.History.{measure_all-recent}
use osc_server.Datamgr.Samples.{
  degrees, room, two_cells, two_rooms, two-IsRooms, two, sample, lines,
}

abbrev two_reads : List (Status × SensorData × Bool)
two_reads =
    (success, sample 21 90, true) ∷ (empty, sample 0 0, true) ∷ (success, sample 4 9, true) ∷ []

main_loop-measure_all_example :
    Returns
      (Continues degrees two two_cells
        (measure_all degrees (sample 21 90 ∷ sample 4 9 ∷ []) two_rooms)
        (report_all degrees (sample 21 90 ∷ sample 4 9 ∷ []) two_rooms)
        true)
      (main_loop degrees 3 (two_reads ++ (success, sample 0 0, true) ∷ []) two)
main_loop-measure_all_example =
    main_loop-measure_all degrees 3 two_reads (success, sample 0 0, true) [] two two_cells two_rooms
      two-IsRooms (omega arith)
      (refl, (λ r. omega arith), (refl, (λ r. absurd (cc)), (refl, (λ r. omega arith), tt)))
      (inr (refl, refl))

measure_all-recent_example :
    (q : ListElement) × (find_room 21
        (measure_all degrees (sample 21 90 ∷ sample 15 9 ∷ sample 21 30 ∷ []) two_rooms)
      ≡ some q)
    × (q.window_running_avg 1 ≡ 90)
    × (q.room_id ≡ 2)
measure_all-recent_example =
    measure_all-recent degrees 21 (sample 21 90 ∷ sample 15 9 ∷ sample 21 30 ∷ []) two_rooms
      (room 2 21) 1 refl (omega arith)

abbrev unstarted : Datamgr
unstarted = record { data_list = memory none (λ a. none) (λ a. none); log = []; printed = [] }

data_manager_init-init_log_example :
    Returns
      (λ b t.
        (b ≡ true)
        × (t.data_list.list ≡ none)
        × ((a : Ptr) → has a ((32, 8) ∷ (64, 7) ∷ []) ≡ true → t.data_list.nodes a ≡ none)
        × (t.log ≡ init_log degrees lines (sample 21 90 ∷ sample 4 9 ∷ []))
        × (t.printed
            ≡ summary degrees (
                measure_all degrees (sample 21 90 ∷ sample 4 9 ∷ []) (room 2 21 ∷ room 1 15 ∷ []))))
      (data_manager_init degrees 3 true lines
        (two_reads ++ (success, sample 0 0, true) ∷ [])
        unstarted)
data_manager_init-init_log_example =
    data_manager_init-init_log degrees 3 lines two_reads (success, sample 0 0, true) [] unstarted
      (omega arith, refl, omega arith, refl, refl, (omega arith, refl, omega arith, refl, refl, tt))
      (omega arith) (omega arith)
      (refl, (λ r. omega arith), (refl, (λ r. absurd (cc)), (refl, (λ r. omega arith), tt)))
      (inr (refl, refl)) refl
