-- ===== src/Dplist/Update.antt =====
-- The functions of dplist.c that change the list: insertion, removal and `dpl_free`.
pub mod Link
pub mod Insert
pub mod Unlink
pub mod Slot
pub mod Remove
pub mod Free
use osc_server.Base.{ℕ, zero, suc, Bool, true, false, not, Option, none, some, ◌==◌, if◌then◌else◌}
use osc_server.Base.Int.{ℤ, ltb_ℤ, nonpos, pos}
use osc_server.Memory.{Ptr, null, Cmd, out_of_fuel, pure, ◌>>=◌, ◌>>◌, exit_if}
use osc_server.Dplist.{Callbacks, dpl_size, dpl_get_reference_at_index, walk}
use osc_server.Dplist.Memory.{
  Mem, ListPtr, null_list, this_list, load, set_prev, set_next, set_element, get_head, set_head,
  put_list, allocate, free_node, is_null,
}

module _ {E : Type 0} where
  -- The cases of `dpl_insert_at_index` that find the list empty, or an index that is not positive.
  pub link_first : (list_node : Ptr) → Cmd (Mem E) (Unit {0})
  link_first list_node = do set_prev list_node null; set_next list_node null; set_head list_node

  pub link_front : (list_node : Ptr) → Cmd (Mem E) (Unit {0})
  link_front list_node = do
    set_prev list_node null
    h ← get_head
    set_next list_node h
    set_prev h list_node
    set_head list_node

  -- Before `ref_at_index`, and behind it.
  pub link_before : (list_node ref_at_index : Ptr) → Cmd (Mem E) (Unit {0})
  link_before list_node ref_at_index = do
    r ← load ref_at_index
    set_prev list_node r.prev
    set_next list_node ref_at_index
    r' ← load ref_at_index
    set_next r'.prev list_node
    set_prev ref_at_index list_node

  pub link_behind : (list_node ref_at_index : Ptr) → Cmd (Mem E) (Unit {0})
  link_behind list_node ref_at_index = do
    r ← load ref_at_index
    exit_if (not (r.next == null))
    set_next list_node null
    set_prev list_node ref_at_index
    set_next ref_at_index list_node

  link_at : (fuel : ℕ) (list_node : Ptr) (index : ℤ) → Cmd (Mem E) (Unit {0})
  unfolding link_before link_behind
  link_at fuel list_node index = do
    ref_at_index ← dpl_get_reference_at_index fuel index
    exit_if (ref_at_index == null)
    size ← dpl_size fuel
    if ltb_ℤ index size
        then link_before list_node ref_at_index
        else link_behind list_node ref_at_index

  link : (fuel : ℕ) (list_node : Ptr) (index : ℤ) → Cmd (Mem E) (Unit {0})
  unfolding link_first link_front link_at
  link fuel list_node index = do
    h ← get_head
    if h == null
        then link_first list_node
        else if nonpos index
        then link_front list_node
        else link_at fuel list_node index

  -- The node `curr` of `dpl_remove_at_index` leaves the list.
  pub unlink : (curr : Ptr) → Cmd (Mem E) (Unit {0})
  unlink curr = do
    c ← load curr
    if c.prev == null then pure tt else set_next c.prev c.next
    c' ← load curr
    if c'.next == null then pure tt else set_prev c'.next c'.prev
    h ← get_head
    c'' ← load curr
    if curr == h then set_head c''.next else pure tt
    free_node curr

module _ {E : Type 0} (cb : Callbacks E) where
  -- `(insert_copy && list->element_copy != NULL) ? list->element_copy(element) : element`
  unfoldable pub copied : (element : Ptr) (insert_copy : Bool) → Cmd (Mem E) Ptr
  copied element insert_copy =
      if insert_copy
      then elim cb.element_copy [ none ↦ pure element | some copy ↦ copy element ]
      else pure element

  -- `fresh` is what `malloc` returns.
  pub dpl_insert_at_index :
      (fuel : ℕ) (fresh element : Ptr) (index : ℤ) (insert_copy : Bool) → Cmd (Mem E) ListPtr
  unfolding copied link
  dpl_insert_at_index fuel fresh element index insert_copy = do
    missing ← is_null
    if missing then pure null_list else if fresh == null then pure null_list else do
      allocate fresh
      e ← copied element insert_copy
      set_element fresh e
      link fuel fresh index
      pure this_list

  -- `list->element_free(&curr->element)`
  pub release : (curr : Ptr) → (element_free : Ptr → Cmd (Mem E) Ptr) → Cmd (Mem E) (Unit {0})
  release curr element_free = do n ← load curr; e ← element_free n.element; set_element curr e

  -- `if (free_element && list->element_free) …`
  pub free_slot : (curr : Ptr) (free_element : Bool) → Cmd (Mem E) (Unit {0})
  unfolding release
  free_slot curr free_element =
      if free_element
      then elim cb.element_free [ none ↦ pure tt | some f ↦ release curr f ]
      else pure tt

  pub remove_head : (free_element : Bool) → Cmd (Mem E) (Unit {0})
  unfolding free_slot
  remove_head free_element = do
    curr ← get_head
    c ← load curr
    set_head c.next
    if c.next == null then pure tt else set_prev c.next null
    free_slot curr free_element
    free_node curr

  pub remove_inside : (fuel : ℕ) (index : ℤ) (free_element : Bool) → Cmd (Mem E) (Unit {0})
  unfolding free_slot unlink walk
  remove_inside fuel index free_element = do
    h ← get_head
    curr ← walk fuel h 0 index
    if curr == null then pure tt else do free_slot curr free_element; unlink curr

  pub dpl_remove_at_index : (fuel : ℕ) (index : ℤ) (free_element : Bool) → Cmd (Mem E) ListPtr
  unfolding remove_head remove_inside
  dpl_remove_at_index fuel index free_element = do
    missing ← is_null
    if missing then pure null_list else do
      h ← get_head
      if h == null then pure this_list else do
        if nonpos index then remove_head free_element else remove_inside fuel index free_element
        pure this_list

  pub free_loop : ℕ → (curr : Ptr) (free_element : Bool) → Cmd (Mem E) (Unit {0})
  unfolding free_slot
  free_loop zero curr free_element = λ _. out_of_fuel
  free_loop (suc fuel) curr free_element = if curr == null then pure tt else do
    c ← load curr
    if c.element == null then pure tt else free_slot curr free_element
    free_node curr
    free_loop fuel c.next free_element

  -- `list` itself is never NULL here.
  pub dpl_free : (fuel : ℕ) (free_element : Bool) → Cmd (Mem E) (Unit {0})
  unfolding free_loop
  dpl_free fuel free_element = do
    missing ← is_null
    if missing then pure tt else do h ← get_head; free_loop fuel h free_element; put_list none
