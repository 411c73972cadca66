-- ===== src/Plab4/Threads.antt =====
-- main.c of the fourth lab (and buffermain.c of the project, which is the same program without its
-- last part): the writer, the two readers and `main` as steps between worlds. A call of the buffer
-- is one step, but for the wait in `sbuffer_remove`, and so is what a reader does while it holds
-- `file_write_mutex`.
pub mod Weights
pub mod Calls
pub mod Signalled
pub mod Inv
pub mod Ends
pub mod Progress
mod Tests
use osc_server.Base.{
  ℕ, suc, ◌+◌, ◌≡◌, ◌≢◌, ◌⊎◌, ltb, Bool, true, false, none, List, [], ◌∷◌, ◌++◌, if◌then◌else◌,
}
use osc_server.Base.Text.{Text}
use osc_server.Memory.{Ptr, null, Store, ok, blocked}
use osc_server.Config.{SensorData}
use osc_server.Sbuffer.{SbufferNode, Shared, shared, Status, success, failure, empty}
use osc_server.Storage.{csv_line}
use osc_server.Plab4.{sbuffer_insert, sbuffer_remove, sbuffer_free}

-- `NUM_READERS`
abbrev pub num_readers : ℕ
num_readers = 2

pub data ReaderId : Type 0 where
  one two : ReaderId

-- Where `writer_thread` is; `reading` has the variable `record`, not set before the first `fread`.
pub data Writer : Type 0 where
  opening : Writer
  reading : SensorData → Writer
  writer_ended : Writer

-- Where a `reader_thread` is: at the test of `sbuffer_remove`, in `pthread_cond_wait`, behind the
-- call with the record, at the insertion of
-- the marker with it, and past its end.
pub data Reader : Type 0 where
  removing waiting : Reader
  got : SensorData → Reader
  reinserting : SensorData → Reader
  reader_ended : Reader

-- `main` waits for the threads, has returned, or the program has left through `exit`.
pub data MainThread : Type 0 where
  joining returned left : MainThread

-- The rest of the input file, the output file and the rows in it, the static `eos_count`, and the
-- records whose insertion failed, which the code does not notice.
pub record World : Type 0 where
  pub main : MainThread
  pub shared : Shared
  pub writer : Writer
  pub readers : ReaderId → Reader
  pub file_in : List SensorData
  pub file_out : Text
  pub rows : List SensorData
  pub eos_count : ℕ
  pub lost : List SensorData

abbrev pub update : (ReaderId → Reader) → ReaderId → Reader → ReaderId → Reader
update readers one r one = r
update readers one r two = readers two
update readers two r one = readers one
update readers two r two = r

-- `main` up to the creation of the threads; the file is cleared by `clear_file` and by `fopen`.
abbrev pub started : Store SbufferNode → List SensorData → World
started nodes input = record {
  main = joining;
  shared = shared null null false nodes;
  writer = opening;
  readers = λ _. removing;
  file_in = input;
  file_out = [];
  rows = [];
  eos_count = 0;
  lost = [];
}

-- What `malloc` may return.
abbrev pub FromMalloc : Shared → Ptr → Type 0
FromMalloc s p = (p ≡ null) ⊎ ((p ≢ null) × (s.nodes p ≡ none))

-- What `pthread_cond_signal` does at the end of an insertion that succeeds: a reader that waits, if
-- there is one, goes back to its test. An insertion that fails has not come to it.
pub data Signals (st : Status) (readers : ReaderId → Reader) : (ReaderId → Reader) → Type 0 where
  no_signal : st ≢ success → Signals st readers readers
  none_waits : readers one ≢ waiting → readers two ≢ waiting → Signals st readers readers
  wakes : (t : ReaderId) → readers t ≡ waiting → Signals st readers (update readers t removing)

-- A call of `sbuffer_insert` that comes back.
pub record Insertion (s : Shared) (d : SensorData) (st : Status) (s' : Shared) : Type 0 where
  pub fresh : Ptr
  pub malloc : FromMalloc s fresh
  pub run : sbuffer_insert fresh d s ≡ ok st s'

abbrev pub lost_by : Status → SensorData → List SensorData → List SensorData
lost_by success d ds = ds
lost_by failure d ds = ds ++ d ∷ []
lost_by empty d ds = ds ++ d ∷ []

-- `record.id = 0`
abbrev pub marker : SensorData → SensorData
marker r = record r { id = 0 }

-- A reader at the marker: `eos_count++`, and whether it puts the marker back.
abbrev pub counted_reader : ℕ → SensorData → Reader
counted_reader eos_count d = if ltb (eos_count + 1) num_readers then reinserting d else reader_ended

module _ (fixed4 : ℕ → Text) where
  pub data Step : World → World → Type 0 where
    opens :
        (w : World) (r : SensorData)
        → w.main ≡ joining
        → w.writer ≡ opening
        → Step w (record w { writer = reading r })
    open_fails :
        (w : World) → w.main ≡ joining → w.writer ≡ opening → Step w (record w { main = left })
    -- `while (fread(…) == 1)`
    inserts :
        (w : World) (r d : SensorData) (rest : List SensorData) (st : Status) (s : Shared)
        (readers : ReaderId → Reader)
        → w.main ≡ joining
        → w.writer ≡ reading r
        → w.file_in ≡ d ∷ rest
        → Insertion w.shared d st s
        → Signals st w.readers readers
        → Step w (record w {
          shared = s;
          readers = readers;
          writer = reading d;
          file_in = rest;
          lost = lost_by st d w.lost;
        })
    inserts_marker :
        (w : World) (r : SensorData) (st : Status) (s : Shared) (readers : ReaderId → Reader)
        → w.main ≡ joining
        → w.writer ≡ reading r
        → w.file_in ≡ []
        → Insertion w.shared (marker r) st s
        → Signals st w.readers readers
        → Step w (record w {
          shared = s;
          readers = readers;
          writer = writer_ended;
          lost = lost_by st (marker r) w.lost;
        })
    -- `while (buffer->head == NULL)`
    waits :
        (w : World) (i : ReaderId) (old : SensorData)
        → w.main ≡ joining
        → w.readers i ≡ removing
        → sbuffer_remove old w.shared ≡ blocked
        → Step w (record w { readers = update w.readers i waiting })
    removes :
        (w : World) (i : ReaderId) (old d : SensorData) (st : Status) (s : Shared)
        → w.main ≡ joining
        → w.readers i ≡ removing
        → sbuffer_remove old w.shared ≡ ok (st, d) s
        → Step w (record w { shared = s; readers = update w.readers i (got d) })
    writes :
        (w : World) (i : ReaderId) (d : SensorData)
        → w.main ≡ joining
        → w.readers i ≡ got d
        → d.id ≢ 0
        → Step w (record w {
          readers = update w.readers i removing;
          file_out = w.file_out ++ csv_line fixed4 d;
          rows = w.rows ++ d ∷ [];
        })
    counts :
        (w : World) (i : ReaderId) (d : SensorData)
        → w.main ≡ joining
        → w.readers i ≡ got d
        → d.id ≡ 0
        → Step w (record w {
          readers = update w.readers i (counted_reader w.eos_count d);
          eos_count = w.eos_count + 1;
        })
    reinserts :
        (w : World) (i : ReaderId) (d : SensorData) (st : Status) (s : Shared)
        (readers : ReaderId → Reader)
        → w.main ≡ joining
        → w.readers i ≡ reinserting d
        → Insertion w.shared d st s
        → Signals st w.readers readers
        → Step w (record w {
          shared = s;
          readers = update readers i reader_ended;
          lost = lost_by st d w.lost;
        })
    -- `pthread_join` of the three threads, and `sbuffer_free`.
    joins :
        (w : World) (fuel : ℕ) (s : Shared)
        → w.main ≡ joining
        → w.writer ≡ writer_ended
        → w.readers one ≡ reader_ended
        → w.readers two ≡ reader_ended
        → sbuffer_free true fuel w.shared ≡ ok success s
        → Step w (record w { main = returned; shared = s })

  -- The worlds that `n` steps reach.
  pub data Reachable (nodes : Store SbufferNode) (input : List SensorData)
      : ℕ → World → Type 0 where
    starts : Reachable nodes input 0 (started nodes input)
    then_step :
        {n : ℕ} {w v : World}
        → Reachable nodes input n w
        → Step w v
        → Reachable nodes input (suc n) v
