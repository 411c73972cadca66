-- ===== src/Dplist/Update/Free.antt =====
-- `dpl_free`: every node of the list is freed, and the list itself.
use osc_server.Base.{
  ℕ, zero, suc, ◌<◌, ◌≡◌, refl, ◌≢◌, Bool, true, false, Option, none, some, [], ◌∷◌, arith, ◌==◌,
  ==-ne, ◌∙◌, length, Bool-cases, inl, inr, ◌⊎◌, if◌then◌else◌,
}
use osc_server.Memory.{Ptr, null, Store, write, write-other, pure}
use osc_server.Memory.Returns
use osc_server.Memory.Returns.{Returns, returns}
use osc_server.Dplist.{Callbacks}
use osc_server.Dplist.Memory.{DplistNode, node, headed, Dplist, Mem, memory}
use osc_server.Dplist.Chain.{
  Cells, has, first_or, Chain, IsList, IsList-memory, frame, has_ne, frame-write, ne_head, outside,
}
use osc_server.Dplist.Fields.{load-ok, free_node-ok}
use osc_server.Dplist.Update.{free_slot, free_loop, dpl_free}
use osc_server.Dplist.Update.Slot.{Frees, SlotFreed, free_slot-SlotFreed}

-- The elements after freeing those of the cells in order; a null element is left out.
abbrev pub released : {E : Type 0} → (Store E → Ptr → Store E) → Store E → Cells → Store E
released gone es [] = es
released gone es ((p, e) ∷ xs) = released gone (if e == null then es else gone es e) xs

write-same :
    (h : Store DplistNode) (p a : Ptr) (c : Option DplistNode) → (a == p) ≡ true → write h p c a ≡ c
unfolding write
write-same h p a c e = rw e

-- A cell is the first, or one of the others.
none_swept :
    (p e a : Ptr) (xs : Cells)
    → has a ((p, e) ∷ xs) ≡ true
    → (has a xs ≡ true) ⊎ ((has a xs ≡ false) × ((a == p) ≡ true))
none_swept p e a xs i = elim (Bool-cases (has a xs)) [
  | inl there ↦ inl there
  | inr out ↦ inr (out, ground arith)
]

cell_swept :
    (t g : Store DplistNode) (p a : Ptr) (xs : Cells)
    → (has a xs ≡ true) ⊎ ((has a xs ≡ false) × ((a == p) ≡ true))
    → ((b : Ptr) → has b xs ≡ true → t b ≡ none)
    → ((b : Ptr) → has b xs ≡ false → t b ≡ write g p none b)
    → t a ≡ none
cell_swept t g p a xs (inl there) swept others = swept a there
cell_swept t g p a xs (inr (out, same)) swept others = others a out ∙ write-same g p a none same

module _ {E : Type 0} (cb : Callbacks E) (free_element : Bool)
    (gone : Store E → Ptr → Store E) where
  -- Each element that is not null can be freed when its turn comes.
  abbrev pub Freeable : Store E → Cells → Type 0
  Freeable es [] = Unit {0}
  Freeable es ((p, e) ∷ xs) =
      (e ≢ null → Frees cb free_element e es (gone es e))
      × Freeable (if e == null then es else gone es e) xs

  slot-SlotFreed :
      (l : Option Dplist) (h : Store DplistNode) (es : Store E) (p q r e : Ptr)
      → p ≢ null
      → h p ≡ some (node q r e)
      → (e ≢ null → Frees cb free_element e es (gone es e))
      → Returns
          (SlotFreed l h (if e == null then es else gone es e) p q r)
          ((if e == null then pure tt else free_slot cb p free_element) (memory l h es))
  slot-SlotFreed l h es p q r e real holds frees = elim (Bool-cases (e == null)) [
    | inl none_there ↦ rw none_there (returns (h, e, refl, holds, λ c o. refl))
    | inr there ↦ rw there (
        free_slot-SlotFreed cb l h es (gone es e) p q r e real holds free_element cb.element_free
          refl (frees (ground arith)))
  ]

  -- What is left of the nodes.
  abbrev Swept : Option Dplist → Store DplistNode → Store E → Cells → Unit {0} → Mem E → Type 0
  Swept l h es xs u s =
      (s.list ≡ l)
      × (s.elements ≡ released gone es xs)
      × ((a : Ptr) → has a xs ≡ true → s.nodes a ≡ none)
      × ((a : Ptr) → has a xs ≡ false → s.nodes a ≡ h a)

  free_loop-Swept :
      (fuel : ℕ) (l : Option Dplist) (h : Store DplistNode) (es : Store E) (prev : Ptr) (xs : Cells)
      → Chain h prev null xs
      → length xs < fuel
      → Freeable es xs
      → Returns
          (Swept l h es xs)
          (free_loop cb fuel (first_or null xs) free_element (memory l h es))
  unfolding free_loop
  free_loop-Swept zero l h es prev xs k enough can = absurd (omega arith)
  free_loop-Swept (suc fuel) l h es prev [] k enough can =
      returns (refl, refl, λ a i. absurd (cc), λ a o. refl)
  free_loop-Swept (suc fuel) l h es prev ((p, e) ∷ xs) (real, holds, new, rest) enough
        (frees, can) =
      let left : Store E = if e == null then es else gone es e in
      rw (==-ne p null real, load-ok l h es p _ real holds)
        (Returns.bind (slot-SlotFreed l h es p prev (first_or null xs) e real holds frees)
          λ u s (g, e', same, now, other).
            let k1 = frame h g p null xs rest (λ c i. other c (has_ne c p xs i new)) in
            rw (same, free_node-ok l g left p _ real now)
              (Returns.mono
                (free_loop-Swept fuel l (write g p none) left p xs
                  (frame-write g p null p none xs k1 new) (omega arith) can)
                λ v t (list, els, swept, others). (
                  list,
                  els,
                  λ a i. cell_swept t.nodes g p a xs (none_swept p e a xs i) swept others,
                  λ a o.
                      let out = outside a ((p, e) ∷ []) xs o in
                      let ne = ne_head a p e xs o in
                      others a out.1 ∙ write-other g p a none ne ∙ other a ne,
                )))

-- `dpl_free` on a list whose elements can be freed one after the other comes back without a list: all its
-- nodes are freed and no other, and the elements are those that freeing the elements in order
-- leaves, where a null element is left out.
pub dpl_free-released :
    {E : Type 0} (cb : Callbacks E) (s : Mem E) (xs : Cells) (fuel : ℕ) (free_element : Bool)
    (gone : Store E → Ptr → Store E)
    → Freeable cb free_element gone s.elements xs
    → IsList s xs
    → length xs < fuel
    → Returns
        (λ u s'.
          (s'.list ≡ none)
          × (s'.elements ≡ released gone s.elements xs)
          × ((a : Ptr) → has a xs ≡ true → s'.nodes a ≡ none)
          × ((a : Ptr) → has a xs ≡ false → s'.nodes a ≡ s.nodes a))
        (dpl_free cb fuel free_element s)
unfolding dpl_free
dpl_free-released cb s xs fuel free_element gone frees is enough = rw (IsList-memory s xs is) (
    Returns.bind
      (free_loop-Swept cb free_element gone fuel (headed (first_or null xs)) s.nodes s.elements null
        xs is.chain enough frees)
      λ u s' (list, els, swept, others). returns (refl, els, swept, others))
