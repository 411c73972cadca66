-- ===== src/Dplist/Update/Insert.antt =====
-- `dpl_insert_at_index`: the node goes to the position that the index means.
use osc_server.Base.{
  ℕ, zero, suc, ◌<◌, ◌≤◌, ◌≡◌, refl, ◌≢◌, Bool, true, false, Option, none, some, [], ◌∷◌, ◌++◌,
  arith, ◌==◌, ◌∙◌, length, length-append, take, drop, get_elem?, get_elem?-middle, take-middle,
  drop-middle, take-all_le, drop-all_le, Bool-cases, inl, inr, ltb→lt, ltb, cut,
}
use osc_server.Base.Int.{ℤ, pos, negsuc, to_ℕ}
use osc_server.Memory.{Ptr, null, Store, write, write_self, write-other, ok}
use osc_server.Memory.Returns
use osc_server.Memory.Returns.{Returns, returns}
use osc_server.Dplist.Memory.{DplistNode, node, modify, headed, Dplist, Mem, memory, this_list}
use osc_server.Dplist.Chain.{
  Cells, has, first_or, last_or, Chain, IsList, IsList-memory, frame-write, frame-modify,
  modify-other, modify_self, split, last-holds, outside, not-has_of_none,
}
use osc_server.Dplist.Fields.{set_element-ok}
use osc_server.Dplist.Walk.{holding, position, reference-holding, size-holding}
use osc_server.Dplist.{Callbacks}
use osc_server.Dplist.Update.{copied, dpl_insert_at_index, link_at, link}
use osc_server.Dplist.Update.Link.{
  Linked, link_first-Linked, link_front-Linked, link_before-Linked, link_behind-Linked,
}

-- The cells with the new one at a position; past the end means at the end.
abbrev pub insert_at : ℕ → Ptr × Ptr → Cells → Cells
insert_at n c xs = take n xs ++ c ∷ drop n xs

insert_at-nil : (n : ℕ) (c : Ptr × Ptr) → insert_at n c [] ≡ c ∷ []
insert_at-nil zero c = refl
insert_at-nil (suc n) c = refl

last_element : Ptr → Cells → Ptr
last_element e [] = e
last_element e ((p, f) ∷ xs) = last_element f xs

get_elem?-last :
    (p f : Ptr) (ys : Cells)
    → get_elem? ((p, f) ∷ ys) (length ys) ≡ some (last_or p ys, last_element f ys)
unfolding last_element
get_elem?-last p f [] = refl
get_elem?-last p f ((q, g) ∷ ys) = get_elem?-last q g ys

module _ {E : Type 0} (h : Store DplistNode) (es : Store E) (fresh a b e : Ptr)
    (real : fresh ≢ null) (new : h fresh ≡ some (node a b e)) where
  link_at-before :
      (fuel n : ℕ) (p f : Ptr) (ys : Cells) (r g : Ptr) (zs : Cells)
      → Chain h null null (((p, f) ∷ ys) ++ (r, g) ∷ zs)
      → has fresh (((p, f) ∷ ys) ++ (r, g) ∷ zs) ≡ false
      → length (((p, f) ∷ ys) ++ (r, g) ∷ zs) < fuel
      → length ((p, f) ∷ ys) ≡ n
      → Returns
          (Linked h es (((p, f) ∷ ys) ++ (fresh, e) ∷ (r, g) ∷ zs))
          (link_at fuel fresh (pos n) (holding (((p, f) ∷ ys) ++ (r, g) ∷ zs) h es))
  unfolding link_at
  link_at-before fuel n p f ys r g zs k out enough at =
      let xs : Cells = (p, f) ∷ ys in
      let size = length-append xs ((r, g) ∷ zs) in
      let here : position (pos n) (xs ++ (r, g) ∷ zs) ≡ length xs = omega (arith, size, at) in
      let behind : Chain h (last_or p ys) null ((r, g) ∷ zs) =
        (split h null null xs ((r, g) ∷ zs) k).1 in
      let not_null : (r == null) ≡ false = ground (arith, behind.0) in
      let t : ltb n (length (xs ++ (r, g) ∷ zs)) ≡ true = ground (arith, size, at) in
      rw
        (
          reference-holding h es fuel (pos n) (xs ++ (r, g) ∷ zs) k enough,
          here,
          get_elem?-middle xs (r, g) zs,
          not_null,
          size-holding h es fuel (xs ++ (r, g) ∷ zs) k enough,
          t,
        )
        (link_before-Linked h es fresh a b e real new p f r g ys zs k out)

  link_at-behind :
      (fuel n : ℕ) (p f : Ptr) (ys : Cells)
      → Chain h null null ((p, f) ∷ ys)
      → has fresh ((p, f) ∷ ys) ≡ false
      → length ((p, f) ∷ ys) < fuel
      → length ((p, f) ∷ ys) ≤ n
      → Returns
          (Linked h es (((p, f) ∷ ys) ++ (fresh, e) ∷ []))
          (link_at fuel fresh (pos n) (holding ((p, f) ∷ ys) h es))
  unfolding link_at
  link_at-behind fuel n p f ys k out enough past =
      let here : position (pos n) ((p, f) ∷ ys) ≡ length ys = omega (arith, past) in
      let end = last-holds h null null p f ys k in
      let not_null : (last_or p ys == null) ≡ false = ground (arith, end.2) in
      let t : ltb n (length ((p, f) ∷ ys)) ≡ false = ground (arith, past) in
      rw
        (
          reference-holding h es fuel (pos n) ((p, f) ∷ ys) k enough,
          here,
          get_elem?-last p f ys,
          not_null,
          size-holding h es fuel ((p, f) ∷ ys) k enough,
          t,
        )
        (link_behind-Linked h es fresh a b e real new p f ys k out)

  -- `cut` gives the cells before the position as a list that is not empty.
  link_at-inside :
      (fuel n : ℕ) (xs : Cells)
      → Chain h null null xs
      → has fresh xs ≡ false
      → length xs < fuel
      → suc n < length xs
      → Returns
          (Linked h es (insert_at (suc n) (fresh, e) xs))
          (link_at fuel fresh (pos (suc n)) (holding xs h es))
  link_at-inside fuel n xs k out enough inside =
      cut
        (λ l.
          Chain h null null l
          → has fresh l ≡ false
          → length l < fuel
          → Returns (Linked h es (insert_at (suc n) (fresh, e) l))
              (link_at fuel fresh (pos (suc n)) (holding l h es)))
        (suc n) (λ ys c zs at. at_cut ys c zs at) xs inside k out enough
    where
      at_cut :
          (ys : Cells) (c : Ptr × Ptr) (zs : Cells)
          → length ys ≡ suc n
          → Chain h null null (ys ++ c ∷ zs)
          → has fresh (ys ++ c ∷ zs) ≡ false
          → length (ys ++ c ∷ zs) < fuel
          → Returns
              (Linked h es (insert_at (suc n) (fresh, e) (ys ++ c ∷ zs)))
              (link_at fuel fresh (pos (suc n)) (holding (ys ++ c ∷ zs) h es))
      at_cut [] c zs at k' o' en' = absurd (omega arith)
      at_cut ((p, f) ∷ ys) (r, g) zs at k' o' en' =
          let there : length ys ≡ n = omega arith in
          rw (← there, take-middle ys ((r, g) ∷ zs), drop-middle ys ((r, g) ∷ zs))
            (link_at-before fuel (suc (length ys)) p f ys r g zs k' o' en' refl)

  link-Linked :
      (fuel : ℕ) (i : ℤ) (xs : Cells)
      → Chain h null null xs
      → has fresh xs ≡ false
      → length xs < fuel
      → Returns
          (Linked h es (insert_at (to_ℕ i) (fresh, e) xs))
          (link fuel fresh i (holding xs h es))
  unfolding link
  link-Linked fuel i [] k out enough =
      rw (insert_at-nil (to_ℕ i) (fresh, e)) (link_first-Linked h es fresh a b e real new)
  link-Linked fuel (negsuc n) ((p, f) ∷ xs) k out enough =
      let not_null : (p == null) ≡ false = ground (arith, k.0) in
      rw not_null (link_front-Linked h es fresh a b e real new p f xs k out)
  link-Linked fuel (pos zero) ((p, f) ∷ xs) k out enough =
      let not_null : (p == null) ≡ false = ground (arith, k.0) in
      rw not_null (link_front-Linked h es fresh a b e real new p f xs k out)
  link-Linked fuel (pos (suc n)) ((p, f) ∷ xs) k out enough =
      let not_null : (p == null) ≡ false = ground (arith, k.0) in
      let b : (suc n == 0) ≡ false = ground arith in
      rw (not_null, b)
        (elim (Bool-cases (ltb (suc n) (length ((p, f) ∷ xs)))) [
          | inl inside ↦
              link_at-inside fuel n ((p, f) ∷ xs) k out enough
                (ltb→lt (suc n) (length ((p, f) ∷ xs)) inside)
          | inr past ↦
              let over : length ((p, f) ∷ xs) ≤ suc n = ground arith in
              rw (take-all_le n xs (omega (arith, over)), drop-all_le n xs (omega (arith, over)))
                (link_at-behind fuel (suc n) p f xs k out enough over)
        ])

-- `copied` changes at most the elements: it is `element` itself, or the result of the callback.
abbrev pub Copies : {E : Type 0} → Callbacks E → Ptr → Bool → Store E → Ptr → Store E → Type 0
Copies {E} cb element insert_copy es e es' =
    (l : Option Dplist) (ns : Store DplistNode)
    → copied cb element insert_copy (memory {E = E} l ns es) ≡ ok e (memory l ns es')

-- `dpl_insert_at_index` at a fresh address, where the copy of the element (if one is asked for)
-- changes only the elements, comes back with the list; its cells are those of before with the new
-- node at the index, at the front if that is negative and at the end if it is too large; no other
-- node changes.
pub insert-insert_at :
    {E : Type 0} (cb : Callbacks E) (s : Mem E) (xs : Cells) (fuel : ℕ) (fresh element e : Ptr)
    (i : ℤ) (insert_copy : Bool) (es' : Store E)
    → IsList s xs
    → length xs < fuel
    → fresh ≢ null
    → s.nodes fresh ≡ none
    → Copies cb element insert_copy s.elements e es'
    → Returns
        (λ r s'.
          (r ≡ this_list)
          × IsList s' (insert_at (to_ℕ i) (fresh, e) xs)
          × (s'.elements ≡ es')
          × ((c : Ptr) → has c (insert_at (to_ℕ i) (fresh, e) xs) ≡ false → s'.nodes c ≡ s.nodes c))
        (dpl_insert_at_index cb fuel fresh element i insert_copy s)
unfolding dpl_insert_at_index
insert-insert_at cb s xs fuel fresh element e i insert_copy es' is enough real unused copies =
    let out = not-has_of_none s.nodes null null fresh xs is.chain unused in
    let h0 = write s.nodes fresh (some (node null null null)) in
    let h1 = modify h0 fresh (λ m. record m { element = e }) in
    let a : (fresh == null) ≡ false = ground arith in
    let new : h0 fresh ≡ some (node null null null) = write_self s.nodes fresh _ in
    let k0 = frame-write s.nodes null null fresh (some (node null null null)) xs is.chain out in
    let k1 = frame-modify h0 null null fresh (λ m. record m { element = e }) xs k0 out in
    rw
      (
        IsList-memory s xs is,
        a,
        copies (headed (first_or null xs)) h0,
        set_element-ok (headed (first_or null xs)) h0 es' fresh e _ real new,
      )
      (Returns.bind
        (link-Linked h1 es' fresh null null e real
          (modify_self h0 fresh (λ m. record m { element = e }) _ new) fuel i xs k1 out enough)
        λ r s' (list, same, others). returns (
          refl,
          list,
          same,
          λ c o.
              let (left, right) = outside c (take (to_ℕ i) xs) ((fresh, e) ∷ drop (to_ℕ i) xs) o in
              let apart_from : (c == fresh) ≡ false = ground arith in
              others c o
              ∙ modify-other h0 fresh c (λ m. record m { element = e }) apart_from
              ∙ write-other s.nodes fresh c _ apart_from,
        ))
