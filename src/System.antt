-- ===== src/System.antt =====
-- TCP_SensorMonitoringSystem/project: the storage manager and the data manager as readers of the
-- shared buffer. What their calls of `sbuffer_read` give in a history of the buffer is the list of
-- reads that `open_db` and the loop of the data manager run on.
pub mod Answers
pub mod Splits
pub mod Stored
pub mod Measured
pub mod Whole
mod Tests
use osc_server.Base.{ℕ, Option, none, some, List, [], ◌∷◌, ◌++◌, ◌==◌, if◌then◌else◌}
use osc_server.Memory.{Run, ok}
use osc_server.Config.{SensorData}
use osc_server.Sbuffer.{Shared, Status, sbuffer_read}
use osc_server.Sbuffer.Readers.{World, Event, insert, read, step}

abbrev pub given : {P : Type 0} → Run Shared (Status × P × SensorData) → List (Status × SensorData)
given (ok (st, p, d) s) = (st, d) ∷ []
given _ = []

-- What one call gives to reader `i`.
abbrev pub answered : (i : ℕ) → World → Event → List (Status × SensorData)
answered i w (insert fresh d) = []
answered i w (read j) =
    if i == j then given (sbuffer_read (w.readers j).node (w.readers j).current w.shared) else []

abbrev pub after : Option World → (World → List (Status × SensorData)) → List (Status × SensorData)
after none k = []
after (some w) k = k w

-- The results of all calls of `sbuffer_read` by reader `i`, in order.
pub answers : (i : ℕ) → World → List Event → List (Status × SensorData)
answers i w [] = []
answers i w (e ∷ es) = answered i w e ++ after (step w e) (λ v. answers i v es)
