-- ===== src/Sbuffer/Readers.antt =====
-- The buffer between the connection manager and its readers: a history of inserts and reads, in any
-- order. Reader `i` is the loop of a thread around `sbuffer_read`, with its own `node` and record.
pub mod Inv
pub mod Streams
use osc_server.Base.{
  ℕ, zero, suc, ◌+◌, ◌≤◌, ◌≡◌, refl, ◌≢◌, Bool, true, false, Option, none, some, List, [], ◌∷◌,
  ◌++◌, arith, ◌==◌, if◌then◌else◌, length, take, drop,
}
use osc_server.Memory.{Ptr, null, Run, ok, Cmd, pure, ◌>>=◌, ◌>>◌}
use osc_server.Config.{SensorData}
use osc_server.Sbuffer.{Shared, Status, success, empty, failure, live, sbuffer_insert, sbuffer_read}
use osc_server.Sbuffer.Chain.{Cells, payloads, has, IsBuffer}

-- A reader thread's `node` and `data`, and the records that it took so far.
pub record Reader : Type 0 where
  pub node : Ptr
  pub current : SensorData
  pub got : List SensorData

pub record World : Type 0 where
  pub shared : Shared
  pub readers : ℕ → Reader

pub data Event : Type 0 where
  insert : (fresh : Ptr) → SensorData → Event
  read : (i : ℕ) → Event

abbrev update : (ℕ → Reader) → ℕ → Reader → ℕ → Reader
update f i r j = if j == i then r else f j

abbrev took : Status → SensorData → List SensorData → List SensorData
took success d got = got ++ d ∷ []
took empty d got = got
took failure d got = got

-- A call that comes back leaves a world; any other ends the history.
abbrev pub insert_into : World → Run Shared Status → Option World
insert_into w (ok st s) = some (record w { shared = s })
insert_into w _ = none

abbrev pub read_into : World → ℕ → Run Shared (Status × Ptr × SensorData) → Option World
read_into w i (ok (st, p, d) s) = some (record {
  shared = s;
  readers =
      update w.readers i (record { node = p; current = d; got = took st d (w.readers i).got });
})
read_into w i _ = none

unfoldable pub step : World → Event → Option World
step w (insert fresh d) = insert_into w (sbuffer_insert fresh d w.shared)
step w (read i) = read_into w i (sbuffer_read (w.readers i).node (w.readers i).current w.shared)

abbrev pub next : Option World → (World → Option World) → Option World
next none k = none
next (some w) k = k w

unfoldable pub run : World → List Event → Option World
run w [] = some w
run w (e ∷ es) = next (step w e) (λ v. run v es)

-- The nodes that a history adds.
abbrev pub inserted : List Event → Cells
inserted [] = []
inserted (insert fresh d ∷ es) = (fresh, d) ∷ inserted es
inserted (read i ∷ es) = inserted es

-- What `malloc` promises: each address is real, and not in use.
abbrev pub Allocates : Cells → List Event → Type 0
Allocates xs [] = Unit {0}
Allocates xs (insert fresh d ∷ es) =
    (fresh ≢ null) × (has fresh xs ≡ false) × Allocates (xs ++ (fresh, d) ∷ []) es
Allocates xs (read i ∷ es) = Allocates xs es
