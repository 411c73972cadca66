-- ===== src/System/Tests.antt =====
-- Both managers over one history of the buffer.
use osc_server.Base.{ℕ, ◌≡◌, refl, none, true, false, List, [], ◌∷◌, arith}
use osc_server.Base.Text.{Text, codes}
use osc_server.Memory.{ok}
use osc_server.Memory.Returns.{Returns}
use osc_server.Sbuffer.Readers.{Event, insert, read}
use osc_server.Sbuffer.Readers.Streams.{start}
use osc_server.Connmgr.Listen.{end_of_stream_record}
use osc_server.Connmgr.Listen.Samples.{all_done, all_done-Reachable}
use osc_server.Connmgr.Listen.Samples
use osc_server.Storage.{Db, open_db}
use osc_server.Dplist.Memory.{memory}
use osc_server.Datamgr.{Datamgr, data_manager_init}
use osc_server.Datamgr.Samples.{degrees, lines, sample}
use osc_server.System.{answers}
use osc_server.System.Splits.{drained}
use osc_server.System.Stored.{written, stored-inserted}
use osc_server.System.Measured.{kept, Summarised}
use osc_server.System.Whole.{managers_end}

-- Two clients, the storage manager as reader 0 and the data manager as reader 1.
abbrev history : List Event
history =
    read 0
    ∷ insert 64 (sample 15 90)
    ∷ read 1
    ∷ read 0
    ∷ insert 32 (sample 21 9)
    ∷ insert 96 (sample 0 0)
    ∷ read 1
    ∷ []

abbrev four : ℕ → Text
four value = codes "20.0000"

abbrev fresh : Db
fresh = record { file_out = codes "old"; log = []; inserted = []; locked = false; eos_count = 0 }

stored-inserted_example :
    open_db four true (answers 0 (start (sample 7 7)) (drained 0 history)) true true fresh
    ≡ ok tt (written four fresh (sample 15 90 ∷ sample 21 9 ∷ []))
stored-inserted_example =
    stored-inserted four (sample 7 7) history 0 (sample 15 90 ∷ sample 21 9 ∷ []) [] (sample 0 0)
      fresh (ground arith, refl, (ground arith, refl, (ground arith, refl, tt))) refl
      (omega arith, (omega arith, tt)) refl refl

abbrev one_client : List Event
one_client =
    read 0 ∷ insert 64 Samples.sample ∷ read 1 ∷ read 0 ∷ insert 32 end_of_stream_record ∷ []

abbrev unstarted : Datamgr
unstarted = record { data_list = memory none (λ a. none) (λ a. none); log = []; printed = [] }

managers_end_example :
    (open_db four true (answers 0 (start (sample 7 7)) (drained 0 one_client)) true true fresh
      ≡ ok tt (written four fresh (Samples.sample ∷ [])))
    × Returns (Summarised degrees lines (Samples.sample ∷ []) unstarted) (
        data_manager_init degrees 3 true lines
          (kept (answers 1 (start (sample 7 7)) (drained 1 one_client)))
          unstarted)
managers_end_example =
    managers_end degrees four 1 all_done (sample 7 7) one_client 0 1 3 fresh lines unstarted
      all_done-Reachable refl refl (ground arith, refl, (ground arith, refl, tt)) refl
      (omega arith, refl, omega arith, refl, refl, (omega arith, refl, omega arith, refl, refl, tt))
      (omega arith) (omega arith)
