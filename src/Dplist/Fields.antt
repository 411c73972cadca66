-- ===== src/Dplist/Fields.antt =====
-- Reads and writes of a node's fields, where the node is allocated.
use osc_server.Base.{◌≡◌, ◌≢◌, false, Option, none, some, arith, ◌==◌}
use osc_server.Memory.{Ptr, null, Store, write, ok}
use osc_server.Dplist.Memory.{
  DplistNode, modify, Dplist, memory, load, set_prev, set_next, set_element, free_node,
}

module _ {E : Type 0} (l : Option Dplist) (h : Store DplistNode) (es : Store E) where
  pub load-ok :
      (p : Ptr) (n : DplistNode)
      → p ≢ null
      → h p ≡ some n
      → load p (memory l h es) ≡ ok n (memory l h es)
  unfolding load
  load-ok p n ne holds = let e : (p == null) ≡ false = ground arith in rw (e, holds)

  pub set_prev-ok :
      (p q : Ptr) (n : DplistNode)
      → p ≢ null
      → h p ≡ some n
      → set_prev p q (memory l h es) ≡ ok tt (memory l (modify h p (λ m. record m { prev = q })) es)
  unfolding set_prev
  set_prev-ok p q n ne holds = rw (load-ok p n ne holds)

  pub set_next-ok :
      (p q : Ptr) (n : DplistNode)
      → p ≢ null
      → h p ≡ some n
      → set_next p q (memory l h es) ≡ ok tt (memory l (modify h p (λ m. record m { next = q })) es)
  unfolding set_next
  set_next-ok p q n ne holds = rw (load-ok p n ne holds)

  pub set_element-ok :
      (p e : Ptr) (n : DplistNode)
      → p ≢ null
      → h p ≡ some n
      → set_element p e (memory l h es)
        ≡ ok tt (memory l (modify h p (λ m. record m { element = e })) es)
  unfolding set_element
  set_element-ok p e n ne holds = rw (load-ok p n ne holds)

  pub free_node-ok :
      (p : Ptr) (n : DplistNode)
      → p ≢ null
      → h p ≡ some n
      → free_node p (memory l h es) ≡ ok tt (memory l (write h p none) es)
  unfolding free_node
  free_node-ok p n ne holds = rw (load-ok p n ne holds)
