-- ===== src/System/Whole.antt =====
-- connmgr.c, sensor_db.c and datamgr.c around the buffer, when the connection manager has ended.
use osc_server.Base.{
  ℕ, ◌<◌, ◌≡◌, refl, true, List, [], ◌∷◌, ◌++◌, ◌==◌, if◌then◌else◌, ap, ◌∙◌, length, inl, inr,
  false, Bool-cases, arith, ◌≢◌,
}
use osc_server.Base.Text.{Text}
use osc_server.Memory.{ok}
use osc_server.Memory.Returns.{Returns}
use osc_server.Config.{SensorData}
use osc_server.Sbuffer.Readers.{Event, Allocates}
use osc_server.Sbuffer.Readers.Streams.{start, records}
use osc_server.Storage.{Db, open_db}
use osc_server.Storage.Csv.{NoEnd}
use osc_server.Connmgr.Listen.{World, finished, end_of_stream_record, Reachable}
use osc_server.Connmgr.Listen.Ends.{finished-end_of_stream_record}
use osc_server.Datamgr.{Datamgr, MapEntry, data_manager_init}
use osc_server.Datamgr.RunningAvg.{Floats}
use osc_server.Datamgr.Load.{Fresh}
use osc_server.System.{answers}
use osc_server.System.Splits.{drained}
use osc_server.System.Stored.{written, stored-inserted}
use osc_server.System.Measured.{kept, Summarised, Summarised-inserted}

-- The records before the first of id 0.
abbrev pub until_end : List SensorData → List SensorData
until_end [] = []
until_end (d ∷ ds) = if d.id == 0 then [] else d ∷ until_end ds

record Cut (all before : List SensorData) : Type 0 where
  last : SensorData
  rest : List SensorData
  whole : all ≡ before ++ last ∷ rest
  none_ends : NoEnd before
  end : last.id ≡ 0

cut :
    (ds : List SensorData) (last : SensorData)
    → last.id ≡ 0
    → Cut (ds ++ last ∷ []) (until_end (ds ++ last ∷ []))
cut [] last end =
    let z : (last.id == 0) ≡ true = ground arith in
    rw z (record { last = last; rest = []; whole = refl; none_ends = tt; end = end })
cut (d ∷ ds) last end = elim (Bool-cases (d.id == 0)) [
  | inl here ↦
      let z : d.id ≡ 0 = ground arith in
      rw here (record { last = d; rest = ds ++ last ∷ []; whole = refl; none_ends = tt; end = z })
  | inr there ↦
      let c = cut ds last end in
      let nz : d.id ≢ 0 = ground arith in
      rw there (record {
        last = c.last;
        rest = c.rest;
        whole = ap (◌∷◌ d) c.whole;
        none_ends = (nz, c.none_ends);
        end = c.end;
      })
]

module _ (floats : Floats) (fixed4 : ℕ → Text) where
  -- When the listener has finished, in any order of its threads' steps, and the buffer was given
  -- exactly what it and its clients inserted, then the whole runs of the two managers, as readers
  -- that go on reading, both come back, whatever the order of the inserts and reads. They agree on
  -- the records, those before the first of id 0: these are the rows of sensor_db.csv, and each was
  -- measured and reported, in the order of their insertion; the data manager has printed its rooms and
  -- freed its list. Each insert gets a real address that is not in use, the file can be written, the
  -- sensor map has at least one line, and each line gets fresh addresses.
  pub managers_end :
      (max_conn : ℕ) (g : World) (d : SensorData) (es : List Event) (storage data_manager fuel : ℕ)
      (db : Db) (entries : List MapEntry) (s : Datamgr)
      → Reachable max_conn g
      → g.pc ≡ finished
      → records es ≡ g.inserted
      → Allocates [] es
      → db.locked ≡ false
      → Fresh s.data_list.nodes [] entries
      → 0 < length entries
      → length entries < fuel
      → (open_db fixed4 true (answers storage (start d) (drained storage es)) true true db
          ≡ ok tt (written fixed4 db (until_end g.inserted)))
        × Returns (Summarised floats entries (until_end g.inserted) s) (
            data_manager_init floats fuel true entries
              (kept (answers data_manager (start d) (drained data_manager es)))
              s)
  managers_end max_conn g d es storage data_manager fuel db entries s r at same a free fresh
        some_line enough =
      let (_, _, (ds, e)) = finished-end_of_stream_record max_conn g r at in
      let c = cut_inserted ds e in
      let whole = same ∙ c.whole in
      (
        stored-inserted fixed4 d es storage _ c.rest c.last db a whole c.none_ends c.end free,
        Summarised-inserted floats fuel d es data_manager _ c.rest c.last entries s a whole
            c.none_ends c.end fresh some_line enough,
      )
    where
      cut_inserted :
          (ds : List SensorData)
          → g.inserted ≡ ds ++ end_of_stream_record ∷ []
          → Cut g.inserted (until_end g.inserted)
      cut_inserted ds e = rw e (cut ds end_of_stream_record refl)
