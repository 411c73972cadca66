-- ===== src/Datamgr/Samples.antt =====
-- Rooms and lines of a map for the tests.
use osc_server.Base.{ℕ, ◌+◌, refl, none, some, List, [], ◌∷◌, arith, ◌==◌, ltb, if◌then◌else◌}
use osc_server.Base.Text.{codes}
use osc_server.Memory.{null}
use osc_server.Config.{SensorData}
use osc_server.Dplist.Memory.{node, headed, memory}
use osc_server.Dplist.Chain.{Cells}
use osc_server.Datamgr.{Datamgr, Rooms, MapEntry}
use osc_server.Datamgr.RunningAvg.{Floats}
use osc_server.Datamgr.Element.{ListElement}
use osc_server.Datamgr.Stored.{IsRooms}

-- Whole degrees stand for the doubles; the mean is the sum.
abbrev pub degrees : Floats
degrees = record {
  sum_zero = 0;
  plus = λ a b. a + b;
  mean = λ sum. sum;
  midpoint = 20;
  too_hot = λ avg. ltb 110 avg;
  too_cold = λ avg. ltb avg 90;
  fixed4 = λ avg. codes "20.0000";
}

abbrev pub room : (room_id sensor_id : ℕ) → ListElement
room r i = record {
  sensor_id = i;
  room_id = r;
  window_running_avg = λ j. 20;
  last_modified = 0;
  running_avg_value = none;
}

-- Two rooms, in nodes at 64 and 32, with elements at 7 and 8.
abbrev pub two_list : Rooms
two_list =
    memory (headed 64)
      (λ a.
        if a == 64 then some (node null 32 7) else if a == 32 then some (node 64 null 8) else none)
      (λ a. if a == 7 then some (room 1 15) else if a == 8 then some (room 2 21) else none)

abbrev pub two_cells : Cells
two_cells = (64, 7) ∷ (32, 8) ∷ []

abbrev pub two_rooms : List ListElement
two_rooms = room 1 15 ∷ room 2 21 ∷ []

pub two-IsRooms : IsRooms two_list two_cells two_rooms
two-IsRooms = record {
  cells = record {
    handle = refl;
    chain = (omega arith, refl, refl, (omega arith, refl, refl, tt));
  };
  stored = (omega arith, refl, refl, (omega arith, refl, refl, tt));
}

abbrev pub two : Datamgr
two = record { data_list = two_list; log = []; printed = [] }

abbrev pub sample : (id value : ℕ) → SensorData
sample n v = record { id = n; value = v; ts = 7 }

abbrev pub lines : List MapEntry
lines =
    record { room_id = 1; sensor_id = 15; element = 7; list_node = 64 }
    ∷ record { room_id = 2; sensor_id = 21; element = 8; list_node = 32 }
    ∷ []
