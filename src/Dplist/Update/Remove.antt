-- ===== src/Dplist/Update/Remove.antt =====
-- `dpl_remove_at_index`: the node that the index means is unlinked and freed.
use osc_server.Base.{if◌then◌else◌}
use osc_server.Base.Int.{nonpos}
use osc_server.Dplist.{walk}
use osc_server.Base.{
  some_injective, ℕ, zero, suc, ◌<◌, ◌≡◌, refl, ◌≢◌, Bool, false, none, some, [], ◌∷◌, ◌++◌, arith,
  ◌==◌, ==-ne, ◌∙◌, ap, sym, length, length-append, take, drop, cut, get_elem?, nil_of_length,
  lt_of_get_elem?, get_elem?-middle,
}
use mathlib.Core.List.{append-nil}
use osc_server.Base.Int.{ℤ, pos, negsuc}
use osc_server.Memory.{Ptr, null, Store, write_self, write-other, ok, ◌>>◌}
use osc_server.Memory.Returns
use osc_server.Memory.Returns.{Returns, returns}
use osc_server.Dplist.{Callbacks}
use osc_server.Dplist.Memory.{DplistNode, node, modify, headed, Mem, this_list}
use osc_server.Dplist.Chain.{
  Cells, has, first_or, last_or, Chain, IsList, IsList-memory, frame, frame-write, modify-other,
  has_ne, ne_head, split, reprev,
}
use osc_server.Dplist.Fields.{load-ok, set_prev-ok, free_node-ok}
use osc_server.Dplist.Walk.{holding, position, walk-reference_at, node_of}
use osc_server.Dplist.Update.{free_slot, remove_head, unlink, remove_inside, dpl_remove_at_index}
use osc_server.Dplist.Update.Unlink.{Unlinked, unlink-only, unlink-last, unlink-middle}
use osc_server.Dplist.Update.Slot.{Frees, free_slot-SlotFreed, slot-Chain}
use osc_server.Dplist.Memory.{free_node}

-- The cells without the one at a position.
abbrev pub remove_at : ℕ → Cells → Cells
remove_at n xs = take n xs ++ drop (suc n) xs

first_same :
    (r e e' : Ptr) (ys zs : Cells)
    → first_or null (ys ++ (r, e) ∷ zs) ≡ first_or null (ys ++ (r, e') ∷ zs)
first_same r e e' [] zs = refl
first_same r e e' ((p, f) ∷ ys) zs = refl

unlink-Unlinked :
    {E : Type 0} (h : Store DplistNode) (es : Store E) (ys : Cells) (r e : Ptr) (zs : Cells)
    → Chain h null null (ys ++ (r, e) ∷ zs)
    → (ys ≡ [] → zs ≡ [])
    → Returns (Unlinked h es r (ys ++ zs)) (unlink r (holding (ys ++ (r, e) ∷ zs) h es))
unlink-Unlinked h es [] r e [] k alone = unlink-only h es r e k
unlink-Unlinked h es [] r e ((t, g) ∷ zs) k alone = absurd (cons-ne-nil (alone refl))
  where
    cons-ne-nil : (t, g) ∷ zs ≡ [] → ⊥
    cons-ne-nil e = cc
unlink-Unlinked h es ((p, f) ∷ ys) r e [] k alone =
    rw (append-nil ys) (unlink-last h es p f ys r e k)
unlink-Unlinked h es ((p, f) ∷ ys) r e ((t, g) ∷ zs) k alone =
    unlink-middle h es p f ys r e t g zs k

remove_at-middle :
    (ys : Cells) (c : Ptr × Ptr) (zs : Cells) → remove_at (length ys) (ys ++ c ∷ zs) ≡ ys ++ zs
remove_at-middle [] c zs = refl
remove_at-middle (y ∷ ys) c zs = ap (λ l. y ∷ l) (remove_at-middle ys c zs)

-- What a removal of node `r` leaves.
abbrev pub Removed :
    {E : Type 0} → Store DplistNode → Store E → Ptr → Cells → Unit {0} → Mem E → Type 0
Removed h es' r ys u s =
    IsList s ys
    × (s.elements ≡ es')
    × (s.nodes r ≡ none)
    × ((c : Ptr) → has c ys ≡ false → (c == r) ≡ false → s.nodes c ≡ h c)

-- Freeing the element of a node, and then the node.
module _ {E : Type 0} (cb : Callbacks E) (h : Store DplistNode) (es es' : Store E) where
  inside-Removed :
      (free_element : Bool) (ys : Cells) (r e : Ptr) (zs : Cells)
      → Chain h null null (ys ++ (r, e) ∷ zs)
      → (ys ≡ [] → zs ≡ [])
      → Frees cb free_element e es es'
      → Returns
          (Removed h es' r (ys ++ zs))
          ((free_slot cb r free_element >> unlink r) (holding (ys ++ (r, e) ∷ zs) h es))
  inside-Removed free_element ys r e zs k alone gone =
      let parts : Chain h null r ys × Chain h (last_or null ys) null ((r, e) ∷ zs) =
        split h null null ys ((r, e) ∷ zs) k in
      Returns.bind
        (free_slot-SlotFreed cb (headed (first_or null (ys ++ (r, e) ∷ zs))) h es es' r _ _ e
          parts.1.0 parts.1.1 free_element cb.element_free refl gone)
        λ u s (g, e', same, holds, other).
          rw (same, first_same r e e' ys zs)
            (Returns.mono
              (unlink-Unlinked g es' ys r e' zs (slot-Chain h g r e e' ys zs k holds other) alone)
              λ v t (list, els, free, others). (list, els, free, λ c o n. others c o n ∙ other c n))

  -- The same for the first node, once the list starts behind it.
  front-Removed :
      (free_element : Bool) (p q e : Ptr) (zs : Cells)
      → p ≢ null
      → h p ≡ some (node null q e)
      → has p zs ≡ false
      → Chain h null null zs
      → Frees cb free_element e es es'
      → Returns
          (Removed h es' p zs)
          ((free_slot cb p free_element >> free_node p) (holding zs h es))
  front-Removed free_element p q e zs real holds new k gone =
      Returns.bind
        (free_slot-SlotFreed cb (headed (first_or null zs)) h es es' p null q e real holds
          free_element cb.element_free refl gone)
        λ u s (g, e', same, now, other).
          let k' = frame h g null null zs k (λ c i. other c (has_ne c p zs i new)) in
          rw (same, free_node-ok (headed (first_or null zs)) g es' p _ real now)
            (returns (
              record { handle = refl; chain = frame-write g null null p none zs k' new },
              refl,
              write_self g p none,
              λ c o n. write-other g p c none n ∙ other c n,
            ))

module _ {E : Type 0} (cb : Callbacks E) (h : Store DplistNode) (es es' : Store E)
    (free_element : Bool) where
  remove_head-Removed :
      (p e : Ptr) (zs : Cells)
      → Chain h null null ((p, e) ∷ zs)
      → Frees cb free_element e es es'
      → Returns (Removed h es' p zs) (remove_head cb free_element (holding ((p, e) ∷ zs) h es))
  unfolding remove_head
  remove_head-Removed p e [] (real, holds, new, rest) gone =
      rw (load-ok (headed p) h es p _ real holds)
        (front-Removed cb h es es' free_element p null e [] real holds new tt gone)
  remove_head-Removed p e ((t, f) ∷ zs) (real, holds, new, rest) gone =
      let h1 = modify h t (λ m. record m { prev = null }) in
      let apart_from : (p == t) ≡ false = ne_head p t f zs new in
      let holds1 : h1 p ≡ some (node null t e) =
        modify-other h t p (λ m. record m { prev = null }) apart_from ∙ holds in
      rw
        (
          load-ok (headed p) h es p _ real holds,
          ==-ne t null rest.0,
          set_prev-ok (headed t) h es t null _ rest.0 rest.1,
        )
        (Returns.mono
          (front-Removed cb h1 es es' free_element p t e ((t, f) ∷ zs) real holds1 new
            (reprev h p null null t f zs rest) gone)
          λ u s (list, els, free, others). (
            list,
            els,
            free,
            λ c o n.
                others c o n
                ∙ modify-other h t c (λ m. record m { prev = null }) (ne_head c t f zs o),
          ))

  inside_cut :
      (fuel n : ℕ) (ys : Cells) (c : Ptr × Ptr) (zs : Cells) (r e : Ptr)
      → Chain h null null (ys ++ c ∷ zs)
      → length (ys ++ c ∷ zs) < fuel
      → length ys ≡ position (pos (suc n)) (ys ++ c ∷ zs)
      → c ≡ (r, e)
      → Frees cb free_element e es es'
      → Returns
          (Removed h es' r (remove_at (length ys) (ys ++ c ∷ zs)))
          (remove_inside cb fuel (pos (suc n)) free_element (holding (ys ++ c ∷ zs) h es))
  unfolding remove_inside
  inside_cut fuel n ys (p, d) zs r e k enough here got gone =
      let size = length-append ys ((p, d) ∷ zs) in
      let there : 0 < length (ys ++ (p, d) ∷ zs) = omega (arith, size) in
      let behind = (split h null null ys ((p, d) ∷ zs) k).1 in
      let stop : walk fuel (first_or null (ys ++ (p, d) ∷ zs)) 0 (pos (suc n))
            (holding (ys ++ (p, d) ∷ zs) h es)
          ≡ ok p (holding (ys ++ (p, d) ∷ zs) h es) =
        walk-reference_at h es fuel (suc n) (ys ++ (p, d) ∷ zs) there k enough
        ∙ ap (λ o. ok (node_of o) (holding (ys ++ (p, d) ∷ zs) h es))
            (ap (get_elem? (ys ++ (p, d) ∷ zs)) (sym here) ∙ get_elem?-middle ys (p, d) zs) in
      rw (stop, ==-ne p null behind.0, remove_at-middle ys (p, d) zs, ← ap (λ c. c.0) got)
        (inside-Removed cb h es es' free_element ys p d zs k only (rw (ap (λ c. c.1) got) gone))
    where
      only : ys ≡ [] → zs ≡ []
      only none_before =
          let no : length ys ≡ 0 = ap length none_before in
          nil_of_length zs (omega (arith, length-append ys ((p, d) ∷ zs), here, no))

  remove_inside-Removed :
      (fuel n : ℕ) (xs : Cells) (r e : Ptr)
      → Chain h null null xs
      → length xs < fuel
      → get_elem? xs (position (pos (suc n)) xs) ≡ some (r, e)
      → Frees cb free_element e es es'
      → Returns
          (Removed h es' r (remove_at (position (pos (suc n)) xs) xs))
          (remove_inside cb fuel (pos (suc n)) free_element (holding xs h es))
  remove_inside-Removed fuel n xs r e k enough got gone =
      cut
        (λ l.
          Chain h null null l
          → length l < fuel
          → position (pos (suc n)) xs ≡ position (pos (suc n)) l
          → get_elem? l (position (pos (suc n)) xs) ≡ some (r, e)
          → Returns (Removed h es' r (remove_at (position (pos (suc n)) xs) l))
              (remove_inside cb fuel (pos (suc n)) free_element (holding l h es)))
        (position (pos (suc n)) xs)
        (λ ys c zs at k' enough' same got'. rw (← at) (
          inside_cut fuel n ys c zs r e k' enough' (at ∙ same)
            (some_injective
              (sym (get_elem?-middle ys c zs) ∙ ap (get_elem? (ys ++ c ∷ zs)) at ∙ got'))
            gone))
        xs (lt_of_get_elem? (position (pos (suc n)) xs) xs (r, e) got) k enough refl got

-- `dpl_remove_at_index` on a list whose cell at the index is node `r` with element `e`, where
-- freeing the element, if it is asked for, changes only the elements, comes back with the list
-- without that cell. An index that is negative means the first node and one past the end the last.
-- The node is freed, and no node that is not in the list any more has changed otherwise.
pub remove-remove_at :
    {E : Type 0} (cb : Callbacks E) (s : Mem E) (xs : Cells) (fuel : ℕ) (i : ℤ)
    (free_element : Bool) (es' : Store E) (r e : Ptr)
    → IsList s xs
    → length xs < fuel
    → get_elem? xs (position i xs) ≡ some (r, e)
    → Frees cb free_element e s.elements es'
    → Returns
        (λ l s'. (l ≡ this_list) × Removed s.nodes es' r (remove_at (position i xs) xs) tt s')
        (dpl_remove_at_index cb fuel i free_element s)
unfolding dpl_remove_at_index
remove-remove_at cb s [] fuel i free_element es' r e is enough got gone = cc
remove-remove_at {E} cb s ((p, d) ∷ xs) fuel i free_element es' r e is enough got gone =
    rw (IsList-memory s ((p, d) ∷ xs) is, ==-ne p null is.chain.0)
      (Returns.bind (removes i got) λ u s' removed. returns (refl, removed))
  where
    front :
        (m : ℕ)
        → m ≡ 0
        → get_elem? ((p, d) ∷ xs) m ≡ some (r, e)
        → Returns
            (Removed s.nodes es' r (remove_at m ((p, d) ∷ xs)))
            (remove_head cb free_element (holding ((p, d) ∷ xs) s.nodes s.elements))
    front zero start at =
        let same : (p, d) ≡ (r, e) = some_injective at in
        rw (← ap (λ c. c.0) same) (
          remove_head-Removed cb s.nodes s.elements es' free_element p d xs is.chain
            (rw (ap (λ c. c.1) same) gone))
    front (suc m) start at = absurd (omega arith)

    removes :
        (j : ℤ)
        → get_elem? ((p, d) ∷ xs) (position j ((p, d) ∷ xs)) ≡ some (r, e)
        → Returns (Removed s.nodes es' r (remove_at (position j ((p, d) ∷ xs)) ((p, d) ∷ xs))) (
            (if nonpos j then remove_head cb free_element else remove_inside cb fuel j free_element)
              (holding ((p, d) ∷ xs) s.nodes s.elements))
    removes (negsuc n) at = front _ (omega arith) at
    removes (pos zero) at = front _ (omega arith) at
    removes (pos (suc n)) at =
        let b : (suc n == 0) ≡ false = ground arith in
        rw b (
          remove_inside-Removed cb s.nodes s.elements es' free_element fuel n ((p, d) ∷ xs) r e
            is.chain enough at gone)
