-- ===== src/Dplist/Tests.antt =====
-- Runs of dplist.c, and its theorems at concrete lists.
use osc_server.Base.{
  ℕ, ◌+◌, ◌≡◌, refl, false, true, none, some, [], ◌∷◌, arith, ◌==◌, if◌then◌else◌,
}
use osc_server.Base.Int.{pos, negsuc}
use osc_server.Memory.{Ptr, null, Store, write, ok}
use osc_server.Memory.Returns.{Returns}
use osc_server.Dplist.{
  Callbacks, dpl_create, dpl_get_element_at_reference, dpl_get_index_of_element,
}
use osc_server.Dplist.Memory.{DplistNode, node, headed, Mem, memory, this_list, load}
use osc_server.Dplist.Chain.{Cells, has, IsList}
use osc_server.Dplist.Update.{copied, dpl_insert_at_index, dpl_remove_at_index, dpl_free}
use osc_server.Dplist.Update.Insert.{insert-insert_at}
use osc_server.Dplist.Update.Remove.{Removed, remove-remove_at}
use osc_server.Dplist.Update.Free.{dpl_free-released}

-- A copy of the element at `e` goes to the address `e + 100`; a freed element leaves NULL.
abbrev copying : Callbacks ℕ
copying = record {
  element_copy =
      some λ e s. ok (e + 100) (record s { elements = write s.elements (e + 100) (s.elements e) });
  element_free = some λ e s. ok null (record s { elements = write s.elements e none });
  element_compare = λ a b s. ok (if a == b then pos 0 else pos 1) s;
}

-- Two nodes, at the addresses 64 and 32, with elements at 7 and 8.
abbrev two_nodes : Store DplistNode
two_nodes a =
    if a == 64 then some (node null 32 7) else if a == 32 then some (node 64 null 8) else none

abbrev two_elements : Store ℕ
two_elements a = if a == 7 then some 70 else if a == 8 then some 80 else none

abbrev two : Mem ℕ
two = memory (headed 64) two_nodes two_elements

abbrev two_cells : Cells
two_cells = (64, 7) ∷ (32, 8) ∷ []

two-IsList : IsList two two_cells
two-IsList = record {
  handle = refl;
  chain = (omega arith, refl, refl, (omega arith, refl, refl, tt));
}

insert-insert_at_example :
    Returns
      (λ r s.
        (r ≡ this_list)
        × IsList s ((64, 7) ∷ (96, 107) ∷ (32, 8) ∷ [])
        × (s.elements ≡ write two_elements 107 (some 70))
        × ((c : Ptr)
            → has c ((64, 7) ∷ (96, 107) ∷ (32, 8) ∷ []) ≡ false
            → s.nodes c ≡ two_nodes c))
      (dpl_insert_at_index copying 5 96 7 (pos 1) true two)
unfolding copied write
insert-insert_at_example =
    insert-insert_at copying two two_cells 5 96 7 107 (pos 1) true
      (write two_elements 107 (some 70)) two-IsList (omega arith) (omega arith) refl (λ l ns. refl)

remove-remove_at_example :
    Returns
      (λ l s.
        (l ≡ this_list) × Removed two_nodes (write two_elements 7 none) 64 ((32, 8) ∷ []) tt s)
      (dpl_remove_at_index copying 5 (negsuc 0) true two)
remove-remove_at_example =
    remove-remove_at copying two two_cells 5 (negsuc 0) true (write two_elements 7 none) 64 7
      two-IsList (omega arith) refl (λ l ns. (null, refl))

dpl_free-released_example :
    Returns
      (λ u s.
        (s.list ≡ none)
        × (s.elements ≡ write (write two_elements 7 none) 8 none)
        × ((a : Ptr) → has a two_cells ≡ true → s.nodes a ≡ none)
        × ((a : Ptr) → has a two_cells ≡ false → s.nodes a ≡ two_nodes a))
      (dpl_free copying 5 true two)
dpl_free-released_example =
    dpl_free-released copying two two_cells 5 true (λ es e. write es e none)
      ((λ ne l ns. (null, refl)), ((λ ne l ns. (null, refl)), tt)) two-IsList (omega arith)

create-size :
    dpl_create true (memory {E = ℕ} none two_nodes two_elements)
    ≡ ok tt (memory (headed null) two_nodes two_elements)
unfolding dpl_create
create-size = refl

index_of_second : dpl_get_index_of_element copying 5 8 two ≡ ok (pos 1) two
unfolding dpl_get_index_of_element load
index_of_second = refl

second_by_reference : dpl_get_element_at_reference 5 32 two ≡ ok 8 two
unfolding dpl_get_element_at_reference load
second_by_reference = refl
