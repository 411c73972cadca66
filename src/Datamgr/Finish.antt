-- ===== src/Datamgr/Finish.antt =====
-- The end of the data manager: the last averages are printed and the rooms are freed.
use osc_server.Base.{
  ℕ, zero, suc, ◌+◌, ◌<◌, ◌≡◌, refl, Bool, true, false, none, List, [], ◌∷◌, ◌++◌, map, arith, ◌==◌,
  ==-ne, ◌∙◌, ap, sym, length, drop, ltb,
}
use mathlib.Core.List.{append-nil, append_assoc}
use osc_server.Base.Text.{Text, codes}
use osc_server.Memory.{Ptr, null, Store, write, ok}
use osc_server.Memory.Returns
use osc_server.Memory.Returns.{Returns, returns}
use osc_server.Dplist.Memory.{DplistNode, memory}
use osc_server.Dplist.Chain.{Cells, has, Chain, IsList, IsList-memory}
use osc_server.Dplist.Walk.{holding, size-holding}
use osc_server.Dplist.Update.Free.{Freeable, dpl_free-released}
use osc_server.Datamgr.{
  Datamgr, sensor_line, print_element, print_loop, datamgr_print_sensors, datamgr_free, finish,
}
use osc_server.Datamgr.RunningAvg.{Floats}
use osc_server.Datamgr.Element.{ListElement, callbacks, element_free}
use osc_server.Datamgr.Stored.{Stored, IsRooms, load_element-ok, Stored-write_other}
use osc_server.Datamgr.Lookup.{at_drop, past_drop, element_there}

module _ (floats : Floats) (h : Store DplistNode) (es : Store ListElement) (fuel : ℕ) (xs : Cells)
    (chain : Chain h null null xs) (enough : length xs < fuel) (log : List Text) where
  abbrev printing : List Text → Datamgr
  printing printed = record { data_list = holding xs h es; log = log; printed = printed }

  pub print_loop-lines :
      (rounds i : ℕ) (zs : Cells) (rs : List ListElement) (printed : List Text)
      → drop i xs ≡ zs
      → Stored es zs rs
      → length zs < rounds
      → print_loop floats fuel rounds i (printing printed)
        ≡ ok tt (printing (printed ++ map (sensor_line floats) rs))
  unfolding print_loop print_element
  print_loop-lines zero i zs rs printed from st room = absurd (omega arith)
  print_loop-lines (suc rounds) i [] [] printed from st room =
      let past : ltb i (length xs) ≡ false = ground (arith, past_drop i xs from) in
      rw (size-holding h es fuel xs chain enough, past)
        (ap (λ p. ok tt (printing p)) (sym (append-nil printed)))
  print_loop-lines (suc rounds) i [] (r ∷ rs) printed from st room = absurd st
  print_loop-lines (suc rounds) i (z ∷ zs) [] printed from st room = absurd st
  print_loop-lines (suc rounds) i ((p, e) ∷ zs) (r ∷ rs) printed from (real, holds, new, rest)
        room =
      let (got, left, inside) = at_drop i xs (p, e) zs from in
      let below : ltb i (length xs) ≡ true = ground arith in
      rw
        (
          size-holding h es fuel xs chain enough,
          below,
          element_there h es fuel xs chain enough i p e got inside,
          ==-ne e null real,
          load_element-ok (holding xs h es) e r real holds,
        )
        (print_loop-lines rounds (i + 1) zs rs (printed ++ sensor_line floats r ∷ []) left rest
            (omega arith)
          ∙ ap (λ p. ok tt (printing p))
              (append_assoc printed (sensor_line floats r ∷ []) (map (sensor_line floats) rs)))

-- The rooms can be freed one after the other.
pub Stored-Freeable :
    (es : Store ListElement) (xs : Cells) (rs : List ListElement)
    → Stored es xs rs
    → Freeable (callbacks null) true (λ fs e. write fs e none) es xs
unfolding callbacks element_free
Stored-Freeable es [] rs st = tt
Stored-Freeable es (x ∷ xs) [] st = absurd st
Stored-Freeable es ((p, e) ∷ xs) (r ∷ rs) (real, holds, new, rest) = (
  λ ne l ns. (null, rw (==-ne e null real, load_element-ok (memory l ns es) e r real holds) refl),
  rw (==-ne e null real)
      (Stored-Freeable (write es e none) xs rs (Stored-write_other es e none xs rs new rest)),
)

module _ (floats : Floats) where
  print_sensors-lines :
      (fuel : ℕ) (s : Datamgr) (xs : Cells) (rs : List ListElement)
      → IsRooms s.data_list xs rs
      → length xs < fuel
      → 0 < length xs
      → datamgr_print_sensors floats fuel s
        ≡ ok tt (record s { printed = s.printed ++ map (sensor_line floats) rs })
  unfolding datamgr_print_sensors
  print_sensors-lines fuel s xs rs is enough some_room =
      let nodes = s.data_list.nodes in
      let es = s.data_list.elements in
      let n : (length xs == 0) ≡ false = ground arith in
      rw
        (
          IsList-memory s.data_list xs is.cells,
          size-holding nodes es fuel xs is.cells.chain enough,
          n,
        )
        (print_loop-lines floats nodes es fuel xs is.cells.chain enough s.log fuel 0 xs rs s.printed
          refl is.stored enough)

  -- What freeing leaves.
  abbrev Freed : Datamgr → Cells → Unit {0} → Datamgr → Type 0
  Freed s xs u t =
      (t.data_list.list ≡ none)
      × ((a : Ptr) → has a xs ≡ true → t.data_list.nodes a ≡ none)
      × (t.log ≡ s.log)
      × (t.printed ≡ s.printed)

  datamgr_free-Freed :
      (fuel : ℕ) (s : Datamgr) (xs : Cells) (rs : List ListElement)
      → IsRooms s.data_list xs rs
      → length xs < fuel
      → Returns (Freed s xs) (datamgr_free floats fuel s)
  unfolding datamgr_free
  datamgr_free-Freed fuel s xs rs is enough =
      let nodes = s.data_list.nodes in
      let es = s.data_list.elements in
      let cells : IsList (holding xs nodes es) xs = record {
        handle = refl;
        chain = is.cells.chain;
      } in
      let freed =
        dpl_free-released (callbacks null) (holding xs nodes es) xs fuel true
          (λ fs e. write fs e none) (Stored-Freeable es xs rs is.stored) cells enough in
      let (u, m, run, (gone, left, swept, others)) = Returns.to_ok freed in
      rw (IsList-memory s.data_list xs is.cells, run, gone) (returns (gone, swept, refl, refl))

  abbrev pub title : Text
  title = codes "\n\n\nFINAL RUNNING AVERAGES AND TIMESTAMPS:\n\n\n"

  abbrev pub bottom : Text
  bottom = codes "\n\n\n\n\n\n"

  -- What is printed at the end.
  abbrev pub summary : List ListElement → List Text
  summary rs = title ∷ (map (sensor_line floats) rs ++ bottom ∷ [])

  -- Without the list, and with the summary printed.
  abbrev pub Closed : Datamgr → Cells → List ListElement → Bool → Datamgr → Type 0
  Closed s xs rs b t =
      (b ≡ true)
      × (t.data_list.list ≡ none)
      × ((a : Ptr) → has a xs ≡ true → t.data_list.nodes a ≡ none)
      × (t.log ≡ s.log)
      × (t.printed ≡ s.printed ++ summary rs)

  pub finish-Closed :
      (fuel : ℕ) (s : Datamgr) (xs : Cells) (rs : List ListElement)
      → IsRooms s.data_list xs rs
      → length xs < fuel
      → 0 < length xs
      → Returns (Closed s xs rs) (finish floats fuel s)
  unfolding finish
  finish-Closed fuel s xs rs is enough some_room =
      let s1 : Datamgr = record s { printed = s.printed ++ title ∷ [] } in
      let s2 : Datamgr = record s {
        printed = ((s.printed ++ title ∷ []) ++ map (sensor_line floats) rs) ++ bottom ∷ [];
      } in
      rw (print_sensors-lines fuel s1 xs rs is enough some_room) (
        Returns.bind (datamgr_free-Freed fuel s2 xs rs is enough) λ u t (gone, swept, log, printed).
          returns (
            refl,
            gone,
            swept,
            log,
            printed
                ∙ append_assoc (s.printed ++ title ∷ []) (map (sensor_line floats) rs) (bottom ∷ [])
                ∙ append_assoc s.printed (title ∷ []) (map (sensor_line floats) rs ++ bottom ∷ []),
          ))
