-- ===== src/System/Stored.antt =====
-- What the storage manager makes of the records that clients insert.
use osc_server.Base.{ℕ, ◌+◌, ◌≡◌, true, false, List, [], ◌∷◌, ◌++◌, ap, sym, ◌∙◌, subst}
use osc_server.Base.Text.{Text}
use osc_server.Memory.{ok}
use osc_server.Config.{SensorData}
use osc_server.Sbuffer.Readers.{Event, Allocates}
use osc_server.Sbuffer.Readers.Streams.{start, records}
use osc_server.Storage.{Db, open_db}
use osc_server.Storage.Csv.{NoEnd, csv, run_messages, open_db-csv}
use osc_server.System.{answers}
use osc_server.System.Splits.{drained, answers-Splits}

-- A finished run over records.
abbrev pub written : (fixed4 : ℕ → Text) → Db → List SensorData → Db
written fixed4 s ds = record {
  file_out = csv fixed4 ds;
  log = s.log ++ run_messages;
  inserted = s.inserted;
  locked = false;
  eos_count = s.eos_count + 1;
}

module _ (fixed4 : ℕ → Text) where
  -- Clients insert records, the first of id 0 of which is `last`, while any readers read, in any
  -- order. The storage manager, as reader `i` that goes on reading, comes back, and sensor_db.csv
  -- is exactly the rows of the records before `last`, in the order in which they were inserted. Each
  -- insert gets a real address that is not in use, and the file can be written.
  pub stored-inserted :
      (d : SensorData) (es : List Event) (i : ℕ) (ds rest : List SensorData) (last : SensorData)
      (s : Db)
      → Allocates [] es
      → records es ≡ ds ++ last ∷ rest
      → NoEnd ds
      → last.id ≡ 0
      → s.locked ≡ false
      → open_db fixed4 true (answers i (start d) (drained i es)) true true s
        ≡ ok tt (written fixed4 s ds)
  stored-inserted d es i ds rest last s a r none_ends end free =
      let p = answers-Splits d es i ds rest last a r in
      rw p.whole (
        open_db-csv fixed4 p.before p.later p.status last s free
          (subst NoEnd (sym p.records_before) none_ends) p.found end
        ∙ ap (λ l. ok tt (written fixed4 s l)) p.records_before)
