-- ===== src/Dplist.antt =====
-- TCP_SensorMonitoringSystem/project/lib/dplist.c: a doubly linked list of element pointers. One
-- list is live at a time. `fuel` bounds the rounds of each loop; one more than the length is enough.
pub mod Memory
pub mod Chain
pub mod Fields
pub mod Walk
pub mod Update
mod Tests
use osc_server.Base.{
  ℕ, zero, suc, ◌+◌, Bool, true, false, not, ◌&&◌, Option, none, some, ◌==◌, if◌then◌else◌,
}
use osc_server.Base.Int.{ℤ, pos, negsuc, ltb_ℤ, nonpos, is_zero}
use osc_server.Memory.{undefined, Ptr, null, Cmd, ok, out_of_fuel, pure, ◌>>=◌, ◌>>◌, exit_if}
use Memory.{
  Dplist, Mem, DplistNode, ListPtr, null_list, this_list, load, set_prev, set_next, set_element,
  get_head, set_head, put_list, allocate, free_node, is_null,
}

-- The functions that `dpl_create` stores in the list. A `void **` argument is the value of the slot;
-- the command returns what the slot holds afterwards.
pub record Callbacks (E : Type 0) : Type 0 where
  pub element_copy : Option (Ptr → Cmd (Mem E) Ptr)
  pub element_free : Option (Ptr → Cmd (Mem E) Ptr)
  pub element_compare : Ptr → Ptr → Cmd (Mem E) ℤ

module _ {E : Type 0} where
  -- The result of `malloc` is written to at once.
  unfoldable pub dpl_create : (allocated : Bool) → Cmd (Mem E) (Unit {0})
  dpl_create allocated = if allocated then put_list (some (record { head = null })) else undefined

  size_loop : ℕ → (current : Ptr) → (size : ℕ) → Cmd (Mem E) ℤ
  size_loop zero current size = λ _. out_of_fuel
  size_loop (suc fuel) current size =
      if current == null
      then pure (pos size)
      else do n ← load current; size_loop fuel n.next (size + 1)

  pub dpl_size : (fuel : ℕ) → Cmd (Mem E) ℤ
  unfolding size_loop
  dpl_size fuel = do
    missing ← is_null
    if missing then pure (negsuc 0) else do h ← get_head; size_loop fuel h 0

  -- `while (dummy->next != NULL && count < index)`, which `dpl_remove_at_index` repeats.
  pub walk : ℕ → (dummy : Ptr) → (count : ℕ) → (index : ℤ) → Cmd (Mem E) Ptr
  walk zero dummy count index = λ _. out_of_fuel
  walk (suc fuel) dummy count index = do
    n ← load dummy
    if n.next == null
        then pure dummy
        else if ltb_ℤ (pos count) index
        then walk fuel n.next (count + 1) index
        else pure dummy

  pub dpl_get_reference_at_index : (fuel : ℕ) (index : ℤ) → Cmd (Mem E) Ptr
  unfolding walk
  dpl_get_reference_at_index fuel index = do
    missing ← is_null
    if missing then pure null else do
      h ← get_head
      if h == null then pure null else if nonpos index then pure h else walk fuel h 0 index

  pub dpl_get_element_at_index : (fuel : ℕ) (index : ℤ) → Cmd (Mem E) Ptr
  unfolding dpl_get_reference_at_index
  dpl_get_element_at_index fuel index = do
    p ← dpl_get_reference_at_index fuel index
    if p == null then pure null else do n ← load p; pure n.element

  reference_loop : ℕ → (curr reference : Ptr) → Cmd (Mem E) Ptr
  reference_loop zero curr reference = λ _. out_of_fuel
  reference_loop (suc fuel) curr reference = if curr == null then pure null else do
    n ← load curr
    if curr == reference then pure n.element else reference_loop fuel n.next reference

  pub dpl_get_element_at_reference : (fuel : ℕ) (reference : Ptr) → Cmd (Mem E) Ptr
  unfolding reference_loop
  dpl_get_element_at_reference fuel reference = do
    missing ← is_null
    if missing
        then pure null
        else if reference == null
        then pure null
        else do h ← get_head; reference_loop fuel h reference

module _ {E : Type 0} (cb : Callbacks E) where
  index_loop : ℕ → (curr element : Ptr) → (index : ℕ) → Cmd (Mem E) ℤ
  index_loop zero curr element index = λ _. out_of_fuel
  index_loop (suc fuel) curr element index = if curr == null then pure (negsuc 0) else do
    n ← load curr
    order ← cb.element_compare n.element element
    if is_zero order then pure (pos index) else index_loop fuel n.next element (index + 1)

  pub dpl_get_index_of_element : (fuel : ℕ) (element : Ptr) → Cmd (Mem E) ℤ
  unfolding index_loop
  dpl_get_index_of_element fuel element = do
    missing ← is_null
    if missing then pure (negsuc 0) else do h ← get_head; index_loop fuel h element 0
