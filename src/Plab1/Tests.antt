-- ===== src/Plab1/Tests.antt =====
-- The first lab at two rooms.
use osc_server.Base.{◌≡◌, refl, Bool, true, false, ◌&&◌, List, [], ◌∷◌, ◌++◌, map, arith, none}
use osc_server.Base.Int.{pos, negsuc}
use osc_server.Base.Text.{codes, flatten}
use osc_server.Memory.{Ptr, ok}
use osc_server.Memory.Returns.{Returns}
use osc_server.Config.{SensorData}
use osc_server.Config.Packed.{record_bytes}
use osc_server.Dplist.Memory.{memory}
use osc_server.Dplist.Chain.{has}
use osc_server.Datamgr.{Datamgr}
use osc_server.Datamgr.Samples.{degrees, sample, lines}
use osc_server.Plab1.{first_lab}
use osc_server.Plab1.Run.{parse_output, first_lab-output}

abbrev records : List SensorData
records = sample 21 90 ∷ sample 4 9 ∷ []

abbrev unstarted : Datamgr
unstarted = record { data_list = memory none (λ a. none) (λ a. none); log = []; printed = [] }

first_lab-output_example :
    Returns
      (λ status t.
        (status ≡ pos 0)
        × (t.printed
            ≡ codes "Hello World\n"
              ∷ (parse_output degrees lines records ++ codes "Bye World\n" ∷ []))
        × (t.data_list.list ≡ none)
        × ((a : Ptr) → has a ((32, 8) ∷ (64, 7) ∷ []) ≡ true → t.data_list.nodes a ≡ none))
      (first_lab degrees 3 true true lines
        (flatten (map record_bytes records) ++ 21 ∷ 0 ∷ [])
        unstarted)
    × ((map_opened data_opened : Bool)
        → (map_opened && data_opened) ≡ false
        → first_lab degrees 3 map_opened data_opened lines
            (flatten (map record_bytes records) ++ 21 ∷ 0 ∷ [])
            unstarted
          ≡ ok (negsuc 0) (record unstarted { printed = codes "Hello World\n" ∷ [] }))
first_lab-output_example =
    first_lab-output degrees 3 lines records (21 ∷ 0 ∷ []) unstarted
      (omega arith, refl, omega arith, refl, refl, (omega arith, refl, omega arith, refl, refl, tt))
      (omega arith) (omega arith) (omega arith)
