-- ===== src/Datamgr/Element.antt =====
-- `list_element` and the callbacks of the list.
use osc_server.Base.{ℕ, Option, none, some, ◌==◌, ltb, ◌||◌, if◌then◌else◌}
use osc_server.Base.Int.{ℤ, pos, negsuc}
use osc_server.Memory.{Ptr, null, write, Cmd, ok, fault, pure, exit_if, ◌>>=◌, ◌>>◌}
use osc_server.Dplist.{Callbacks}
use osc_server.Dplist.Memory.{Mem}
use osc_server.Datamgr.RunningAvg.{Window}

-- The last field is not set before the first measurement.
pub record ListElement : Type 0 where
  pub sensor_id : ℕ
  pub room_id : ℕ
  pub window_running_avg : Window
  pub last_modified : ℕ
  pub running_avg_value : Option ℕ

abbrev found : Option ListElement → Cmd (Mem ListElement) ListElement
found none s = fault
found (some e) s = ok e s

unfoldable pub load_element : Ptr → Cmd (Mem ListElement) ListElement
load_element p s = if p == null then fault else found (s.elements p) s

abbrev pub allocate_element : Ptr → ListElement → Cmd (Mem ListElement) (Unit {0})
allocate_element p e s = ok tt (record s { elements = write s.elements p (some e) })

unfoldable pub put_element : Ptr → ListElement → Cmd (Mem ListElement) (Unit {0})
put_element p e = load_element p >> allocate_element p e

unfoldable pub element_free : (element : Ptr) → Cmd (Mem ListElement) Ptr
element_free element = if element == null then pure element else do
  load_element element
  λ s. ok null (record s { elements = write s.elements element none })

pub element_compare : (x y : Ptr) → Cmd (Mem ListElement) ℤ
element_compare x y = if (x == null) || (y == null) then pure (pos 0) else do
  a ← load_element x
  b ← load_element y
  if ltb a.sensor_id b.sensor_id
      then pure (negsuc 0)
      else if ltb b.sensor_id a.sensor_id
      then pure (pos 1)
      else pure (pos 0)

-- `copy` is what `malloc` returns.
pub element_copy : (copy element : Ptr) → Cmd (Mem ListElement) Ptr
element_copy copy element =
    if element == null
    then pure null
    else do exit_if (copy == null); e ← load_element element; allocate_element copy e; pure copy

unfoldable pub callbacks : (copy : Ptr) → Callbacks ListElement
callbacks copy = record {
  element_copy = some (element_copy copy);
  element_free = some element_free;
  element_compare = element_compare;
}
