-- ===== src/Datamgr/Load.antt =====
-- Reading the map file: one room for each line, the last line first.
use osc_server.Base.{
  ℕ, ◌+◌, ◌<◌, ◌≡◌, refl, ◌≢◌, false, none, some, List, [], ◌∷◌, arith, ==-ne, ◌∙◌, sym, subst,
  length,
}
use osc_server.Base.Int.{pos}
use osc_server.Memory.{Ptr, null, Store, write, write_self}
use osc_server.Memory.Returns
use osc_server.Memory.Returns.{Returns, returns}
use osc_server.Dplist.Memory.{DplistNode}
use osc_server.Dplist.Chain.{Cells, has, IsList}
use osc_server.Dplist.Update.{copied}
use osc_server.Dplist.Update.Insert.{insert-insert_at}
use osc_server.Datamgr.{Rooms, MapEntry, new_element, insert_room, load_map}
use osc_server.Datamgr.RunningAvg.{Floats}
use osc_server.Datamgr.Element.{ListElement, callbacks}
use osc_server.Datamgr.Stored.{Stored, IsRooms, has_element, Stored-write_other}

-- `malloc` gave each line addresses that nothing else uses, next to the cells `xs`.
abbrev pub Fresh : Store DplistNode → Cells → List MapEntry → Type 0
Fresh h xs [] = Unit {0}
Fresh h xs (m ∷ ms) =
    (m.element ≢ null)
    × (has_element m.element xs ≡ false)
    × (m.list_node ≢ null)
    × (h m.list_node ≡ none)
    × (has m.list_node xs ≡ false)
    × Fresh h ((m.list_node, m.element) ∷ xs) ms

abbrev pub loaded_cells : List MapEntry → Cells → Cells
loaded_cells [] xs = xs
loaded_cells (m ∷ ms) xs = loaded_cells ms ((m.list_node, m.element) ∷ xs)

Fresh-frame :
    (h g : Store DplistNode) (xs : Cells) (ms : List MapEntry)
    → ((c : Ptr) → has c xs ≡ false → g c ≡ h c)
    → Fresh h xs ms
    → Fresh g xs ms
Fresh-frame h g xs [] same fresh = tt
Fresh-frame h g xs (m ∷ ms) same (real, new, real_node, unused, out, fresh) = (
  real,
  new,
  real_node,
  same m.list_node out ∙ unused,
  out,
  Fresh-frame h g ((m.list_node, m.element) ∷ xs) ms (λ c o. same c (ground arith)) fresh,
)

module _ (floats : Floats) where
  abbrev pub loaded_rooms : List MapEntry → List ListElement → List ListElement
  loaded_rooms [] rs = rs
  loaded_rooms (m ∷ ms) rs = loaded_rooms ms (new_element floats m ∷ rs)

  -- One line.
  insert_room-IsRooms :
      (fuel : ℕ) (m : MapEntry) (s : Rooms) (xs : Cells) (rs : List ListElement)
      → IsRooms s xs rs
      → length xs < fuel
      → m.element ≢ null
      → has_element m.element xs ≡ false
      → m.list_node ≢ null
      → s.nodes m.list_node ≡ none
      → Returns
          (λ u t.
            IsRooms t ((m.list_node, m.element) ∷ xs) (new_element floats m ∷ rs)
            × ((c : Ptr) → has c ((m.list_node, m.element) ∷ xs) ≡ false → t.nodes c ≡ s.nodes c))
          (insert_room floats fuel m s)
  unfolding insert_room copied callbacks
  insert_room-IsRooms fuel m s xs rs is enough real new real_node unused =
      let es : Store ListElement = write s.elements m.element (some (new_element floats m)) in
      let there : Rooms = record s { elements = es } in
      let list : IsList there xs = record { handle = is.cells.handle; chain = is.cells.chain } in
      rw (==-ne m.element null real) (
        Returns.bind
          (insert-insert_at (callbacks null) there xs fuel m.list_node m.element m.element (pos 0)
            false es list enough real_node unused (λ l ns. refl))
          λ r t (same_list, cells, same, others). returns (
            record {
              cells = cells;
              stored =
                  subst (λ f. Stored f ((m.list_node, m.element) ∷ xs) (new_element floats m ∷ rs))
                    (sym same)
                    (
                      real,
                      write_self s.elements m.element (some (new_element floats m)),
                      new,
                      Stored-write_other s.elements m.element (some (new_element floats m)) xs rs
                          new is.stored,
                    );
            },
            others,
          ))

  -- With fresh addresses for every line, the list afterwards stands for one new room for each line,
  -- in front of those before, so that the last line comes first; the loop comes back.
  pub load_map-loaded_rooms :
      (fuel : ℕ) (ms : List MapEntry) (s : Rooms) (xs : Cells) (rs : List ListElement)
      → IsRooms s xs rs
      → length xs + length ms < fuel
      → Fresh s.nodes xs ms
      → Returns
          (λ u t. IsRooms t (loaded_cells ms xs) (loaded_rooms ms rs))
          (load_map floats fuel ms s)
  unfolding load_map
  load_map-loaded_rooms fuel [] s xs rs is enough fresh = returns is
  load_map-loaded_rooms fuel (m ∷ ms) s xs rs is enough (real, new, real_node, unused, out, fresh) =
      Returns.bind (insert_room-IsRooms fuel m s xs rs is (omega arith) real new real_node unused)
        λ u t (is', others).
          load_map-loaded_rooms fuel ms t ((m.list_node, m.element) ∷ xs)
            (new_element floats m ∷ rs) is' (omega arith)
            (Fresh-frame s.nodes t.nodes ((m.list_node, m.element) ∷ xs) ms others fresh)
