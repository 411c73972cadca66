-- ===== src/System/Measured.antt =====
-- What the data manager makes of the records that clients insert.
use osc_server.Base.{
  ℕ, ◌<◌, ◌≡◌, refl, inr, none, Bool, true, false, List, [], ◌∷◌, ◌++◌, ap, sym, ◌∙◌, length, subst,
  ◌||◌, ◌==◌, arith,
}
use osc_server.Memory.{Ptr}
use osc_server.Memory.Returns.{Returns}
use osc_server.Config.{SensorData}
use osc_server.Sbuffer.{Status, success, failure, empty}
use osc_server.Sbuffer.Readers.{Event, Allocates}
use osc_server.Sbuffer.Readers.Streams.{start, records}
use osc_server.Storage.Csv.{delivered, NoEnd}
use osc_server.Dplist.Chain.{has}
use osc_server.Datamgr.{Datamgr, MapEntry, data_manager_init}
use osc_server.Datamgr.RunningAvg.{Floats}
use osc_server.Datamgr.Load.{Fresh, loaded_cells, loaded_rooms}
use osc_server.Datamgr.Init.{init_log, data_manager_init-init_log}
use osc_server.Datamgr.Finish.{summary}
use osc_server.Datamgr.Manager.{taken, GoesOn, measure_all}
use osc_server.System.{answers}
use osc_server.System.Splits.{drained, answers-Splits}

-- Reads after each of which the manager goes on.
abbrev pub kept : List (Status × SensorData) → List (Status × SensorData × Bool)
kept [] = []
kept ((status, d) ∷ reads) = (status, d, true) ∷ kept reads

module _ (floats : Floats) where
  taken-kept : (reads : List (Status × SensorData)) → taken floats (kept reads) ≡ delivered reads
  taken-kept [] = refl
  taken-kept ((empty, d) ∷ reads) = taken-kept reads
  taken-kept ((success, d) ∷ reads) = ap (◌∷◌ d) (taken-kept reads)
  taken-kept ((failure, d) ∷ reads) = ap (◌∷◌ d) (taken-kept reads)

  GoesOn-kept :
      (reads : List (Status × SensorData)) → NoEnd (delivered reads) → GoesOn floats (kept reads)
  GoesOn-kept [] n = tt
  GoesOn-kept ((empty, d) ∷ reads) n = (refl, λ e. absurd (cc), GoesOn-kept reads n)
  GoesOn-kept ((success, d) ∷ reads) (n, ns) = (refl, λ e. n, GoesOn-kept reads ns)
  GoesOn-kept ((failure, d) ∷ reads) (n, ns) = (refl, λ e. n, GoesOn-kept reads ns)

  kept-append : (a b : List (Status × SensorData)) → kept (a ++ b) ≡ kept a ++ kept b
  kept-append [] b = refl
  kept-append ((status, d) ∷ a) b = ap (◌∷◌ (status, d, true)) (kept-append a b)

  -- What a whole run of the data manager over records leaves: it is past its loop and has no list any
  -- more, every node of its list is freed, each record was measured and reported in order, and the
  -- rooms were printed.
  abbrev pub Summarised : List MapEntry → List SensorData → Datamgr → Bool → Datamgr → Type 0
  Summarised entries ds s b t =
      (b ≡ true)
      × (t.data_list.list ≡ none)
      × ((a : Ptr) → has a (loaded_cells entries []) ≡ true → t.data_list.nodes a ≡ none)
      × (t.log ≡ s.log ++ init_log floats entries ds)
      × (t.printed
          ≡ s.printed ++ summary floats (measure_all floats ds (loaded_rooms floats entries [])))

  -- In the same history the data manager, as reader `i` that goes on reading and that is not asked to
  -- stop, comes back from its whole run over the records before `last`. The sensor map has at least
  -- one line, and each line gets fresh addresses.
  pub Summarised-inserted :
      (fuel : ℕ) (d : SensorData) (es : List Event) (i : ℕ) (ds rest : List SensorData)
      (last : SensorData) (entries : List MapEntry) (s : Datamgr)
      → Allocates [] es
      → records es ≡ ds ++ last ∷ rest
      → NoEnd ds
      → last.id ≡ 0
      → Fresh s.data_list.nodes [] entries
      → 0 < length entries
      → length entries < fuel
      → Returns
          (Summarised entries ds s)
          (data_manager_init floats fuel true entries (kept (answers i (start d) (drained i es))) s)
  Summarised-inserted fuel d es i ds rest last entries s a r none_ends end fresh some_line enough =
      let p = answers-Splits d es i ds rest last a r in
      let e : kept (answers i (start d) (drained i es))
          ≡ kept p.before ++ (p.status, last, true) ∷ kept p.later =
        ap kept p.whole ∙ kept-append p.before ((p.status, last) ∷ p.later) in
      let z : (last.id == 0) ≡ true = ground arith in
      let same : taken floats (kept p.before) ≡ ds = taken-kept p.before ∙ p.records_before in
      let done =
        data_manager_init-init_log floats fuel entries (kept p.before) (p.status, last, true)
          (kept p.later) s fresh some_line enough
          (GoesOn-kept p.before (subst NoEnd (sym p.records_before) none_ends))
          (inr (p.found, ap (λ b. b || false) z)) p.found in
      rw e (
        subst
          (λ l. Returns (Summarised entries l s) (
            data_manager_init floats fuel true entries
              (kept p.before ++ (p.status, last, true) ∷ kept p.later) s))
          same done)
