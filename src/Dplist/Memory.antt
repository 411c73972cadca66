-- ===== src/Dplist/Memory.antt =====
-- Nodes, elements and the list struct of dplist.c, and reads and writes of their fields.
use osc_server.Base.{Bool, true, false, Option, none, some, ◌==◌, if◌then◌else◌}
use osc_server.Memory.{Ptr, null, Store, write, Cmd, ok, fault, ◌>>◌}

pub record DplistNode : Type 0 where
  pub prev : Ptr
  pub next : Ptr
  pub element : Ptr

abbrev pub node : Ptr → Ptr → Ptr → DplistNode
node p q e = record { prev = p; next = q; element = e }

pub record Dplist : Type 0 where
  pub head : Ptr

abbrev pub headed : Ptr → Option Dplist
headed p = some (record { head = p })

-- `list` is what the caller's pointer refers to, if it is not NULL.
pub record Mem (E : Type 0) : Type 0 where
  pub list : Option Dplist
  pub nodes : Store DplistNode
  pub elements : Store E

-- A `dplist_t *` that a function returns: NULL or its argument.
pub data ListPtr : Type 0 where
  null_list this_list : ListPtr

-- The write of one field of a node.
unfoldable pub modify : Store DplistNode → Ptr → (DplistNode → DplistNode) → Store DplistNode
modify h p f a = if a == p then elim (h a) [ none ↦ none | some n ↦ some (f n) ] else h a

abbrev null_test : Option Dplist → Bool
null_test none = true
null_test (some d) = false

module _ {E : Type 0} where
  abbrev pub memory : Option Dplist → Store DplistNode → Store E → Mem E
  memory l ns es = record { list = l; nodes = ns; elements = es }

  abbrev found : Option DplistNode → Cmd (Mem E) DplistNode
  found none s = fault
  found (some n) s = ok n s

  unfoldable pub load : Ptr → Cmd (Mem E) DplistNode
  load p s = if p == null then fault else found (s.nodes p) s

  abbrev modifies : Ptr → (DplistNode → DplistNode) → Cmd (Mem E) (Unit {0})
  modifies p f s = ok tt (record s { nodes = modify s.nodes p f })

  -- `p->prev = q`, `p->next = q`, `p->element = e`
  unfoldable pub set_prev : Ptr → Ptr → Cmd (Mem E) (Unit {0})
  set_prev p q = load p >> modifies p (λ n. record n { prev = q })

  unfoldable pub set_next : Ptr → Ptr → Cmd (Mem E) (Unit {0})
  set_next p q = load p >> modifies p (λ n. record n { next = q })

  unfoldable pub set_element : Ptr → Ptr → Cmd (Mem E) (Unit {0})
  set_element p e = load p >> modifies p (λ n. record n { element = e })

  -- A node that `malloc` returned, before its fields are set.
  abbrev pub allocate : Ptr → Cmd (Mem E) (Unit {0})
  allocate p s = ok tt (record s { nodes = write s.nodes p (some (node null null null)) })

  unfoldable pub free_node : Ptr → Cmd (Mem E) (Unit {0})
  free_node p = load p >> λ s. ok tt (record s { nodes = write s.nodes p none })

  abbrev pub is_null : Cmd (Mem E) Bool
  is_null s = ok (null_test s.list) s

  abbrev head_of : Option Dplist → Cmd (Mem E) Ptr
  head_of none s = fault
  head_of (some d) s = ok d.head s

  -- `list->head`
  abbrev pub get_head : Cmd (Mem E) Ptr
  get_head s = head_of s.list s

  abbrev pub put_list : Option Dplist → Cmd (Mem E) (Unit {0})
  put_list l s = ok tt (record s { list = l })

  abbrev pub set_head : Ptr → Cmd (Mem E) (Unit {0})
  set_head p = get_head >> put_list (some (record { head = p }))
