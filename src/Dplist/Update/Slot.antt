-- ===== src/Dplist/Update/Slot.antt =====
-- `free_slot`: what the free callback does to a node.
use osc_server.Base.{◌≡◌, refl, ◌≢◌, Bool, true, false, Option, none, some, ◌∷◌, ◌++◌, arith, ◌==◌}
use osc_server.Memory.{Ptr, null, Store, Cmd, ok}
use osc_server.Memory.Returns.{Returns, returns}
use osc_server.Dplist.{Callbacks}
use osc_server.Dplist.Memory.{DplistNode, node, modify, Dplist, Mem, memory}
use osc_server.Dplist.Chain.{
  Cells, has, first_or, last_or, Chain, frame, modify-other, modify_self, has_ne, split, join,
  apart, not-has-left,
}
use osc_server.Dplist.Fields.{load-ok, set_element-ok}
use osc_server.Dplist.Update.{free_slot, release}

abbrev FreedBy :
    {E : Type 0} → Bool → Option (Ptr → Cmd (Mem E) Ptr) → Ptr → Store E → Store E → Type 0
FreedBy false f e es es' = es' ≡ es
FreedBy true none e es es' = es' ≡ es
FreedBy {E} true (some f) e es es' =
    (l : Option Dplist) (ns : Store DplistNode)
    → (e' : Ptr) × (f e (memory {E = E} l ns es) ≡ ok e' (memory l ns es'))

-- What the request to free element `e` does to the elements: nothing, if it is not made or the
-- list has no callback, and otherwise what the callback does, which leaves the list alone.
abbrev pub Frees : {E : Type 0} → Callbacks E → Bool → Ptr → Store E → Store E → Type 0
Frees cb free_element e es es' = FreedBy free_element cb.element_free e es es'

-- Only the element of node `p` may have changed.
abbrev pub SlotFreed :
    {E : Type 0}
    → Option Dplist
    → Store DplistNode
    → Store E
    → (p q r : Ptr) → Unit {0}
    → Mem E
    → Type 0
SlotFreed l h es' p q r u s =
    (g : Store DplistNode) × (e' : Ptr) × (s ≡ memory l g es')
    × (g p ≡ some (node q r e'))
    × ((c : Ptr) → (c == p) ≡ false → g c ≡ h c)

module _ {E : Type 0} (cb : Callbacks E) (l : Option Dplist) (h : Store DplistNode)
    (es es' : Store E) (p q r e : Ptr) (real : p ≢ null) (holds : h p ≡ some (node q r e)) where
  pub free_slot-SlotFreed :
      (free_element : Bool) (f : Option (Ptr → Cmd (Mem E) Ptr))
      → cb.element_free ≡ f
      → FreedBy free_element f e es es'
      → Returns (SlotFreed l h es' p q r) (free_slot cb p free_element (memory l h es))
  unfolding free_slot release
  free_slot-SlotFreed false f same gone = rw (← gone) (returns (h, e, refl, holds, λ c o. refl))
  free_slot-SlotFreed true none same gone =
      rw (same, ← gone) (returns (h, e, refl, holds, λ c o. refl))
  free_slot-SlotFreed true (some f) same gone =
      let (e', run) = gone l h in
      rw
        (
          same,
          load-ok l h es p (node q r e) real holds,
          run,
          set_element-ok l h es' p e' (node q r e) real holds,
        )
        (returns (
          modify h p (λ m. record m { element = e' }),
          e',
          refl,
          modify_self h p (λ m. record m { element = e' }) (node q r e) holds,
          λ c o. modify-other h p c (λ m. record m { element = e' }) o,
        ))

-- A chain in which one node's element changed.
pub slot-Chain :
    (h g : Store DplistNode) (r e e' : Ptr) (ys zs : Cells)
    → Chain h null null (ys ++ (r, e) ∷ zs)
    → g r ≡ some (node (last_or null ys) (first_or null zs) e')
    → ((c : Ptr) → (c == r) ≡ false → g c ≡ h c)
    → Chain g null null (ys ++ (r, e') ∷ zs)
slot-Chain h g r e e' ys zs k holds other =
    let parts : Chain h null r ys × Chain h (last_or null ys) null ((r, e) ∷ zs) =
      split h null null ys ((r, e) ∷ zs) k in
    let behind = parts.1 in
    let r_in : has r ((r, e) ∷ zs) ≡ true = ground arith in
    let r_out = not-has-left h null null r ys ((r, e) ∷ zs) k r_in in
    join g null null ys ((r, e') ∷ zs)
      (frame h g null r ys parts.0 (λ c i. other c (has_ne c r ys i r_out)))
      (
        behind.0,
        holds,
        behind.2,
        frame h g r null zs behind.3 (λ c i. other c (has_ne c r zs i behind.2)),
      )
      (λ c i. ground (arith, apart h null null c ys ((r, e) ∷ zs) k i))
