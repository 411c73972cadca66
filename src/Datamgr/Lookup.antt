-- ===== src/Datamgr/Lookup.antt =====
-- The search of a sensor in the list of rooms.
use osc_server.Base.{
  ℕ, zero, suc, ◌+◌, ◌<◌, ◌≤◌, ◌≡◌, refl, inl, inr, true, false, some, List, [], ◌∷◌, arith, ◌==◌,
  ◌∙◌, ap, ltb, length, get_elem?, drop, length-drop, Bool-cases,
}
use osc_server.Base.Int.{pos}
use osc_server.Memory.{Ptr, null, Store, ok}
use osc_server.Dplist.{dpl_get_element_at_index}
use osc_server.Dplist.Memory.{DplistNode}
use osc_server.Dplist.Chain.{Cells, Chain}
use osc_server.Dplist.Walk.{holding, position, element_of, size-holding, element-holding}
use osc_server.Datamgr.{lookup_loop}
use osc_server.Datamgr.Element.{ListElement}
use osc_server.Datamgr.Stored.{Stored, first_of, load_element-ok}

-- The cell at an index, when the cells from there on are known.
pub at_drop :
    (i : ℕ) (xs : Cells) (x : Ptr × Ptr) (zs : Cells)
    → drop i xs ≡ x ∷ zs
    → (get_elem? xs i ≡ some x) × (drop (i + 1) xs ≡ zs) × (i < length xs)
at_drop i [] x zs e = absurd (no_cell i e)
  where
    no_cell : (n : ℕ) → drop n [] ≡ x ∷ zs → ⊥
    no_cell zero d = cc
    no_cell (suc n) d = cc
at_drop zero (y ∷ ys) x zs e = (cc, cc, omega arith)
at_drop (suc i) (y ∷ ys) x zs e =
    let (got, left, inside) = at_drop i ys x zs e in
    let later : suc i + 1 ≡ suc (i + 1) = omega arith in
    (got, ap (λ m. drop m (y ∷ ys)) later ∙ left, omega arith)

pub past_drop : (i : ℕ) (xs : Cells) → drop i xs ≡ [] → length xs ≤ i
past_drop i xs e =
    let none_left : length (drop i xs) ≡ 0 = ap length e in
    omega (arith, length-drop i xs, none_left)

module _ (h : Store DplistNode) (es : Store ListElement) (fuel : ℕ) (xs : Cells)
    (chain : Chain h null null xs) (enough : length xs < fuel) where
  pub element_there :
      (i : ℕ) (p e : Ptr)
      → get_elem? xs i ≡ some (p, e)
      → i < length xs
      → dpl_get_element_at_index fuel (pos i) (holding xs h es) ≡ ok e (holding xs h es)
  element_there i p e got inside =
      let here : position (pos i) xs ≡ i = omega (arith, inside) in
      element-holding h es fuel (pos i) xs chain enough
      ∙ ap (λ o. ok (element_of o) (holding xs h es)) (ap (get_elem? xs) here ∙ got)

  pub lookup-first_of :
      (rounds i id : ℕ) (zs : Cells) (rs : List ListElement)
      → drop i xs ≡ zs
      → Stored es zs rs
      → length zs < rounds
      → lookup_loop fuel rounds i id (holding xs h es) ≡ ok (first_of id zs rs) (holding xs h es)
  unfolding lookup_loop
  lookup-first_of zero i id zs rs from st room = absurd (omega arith)
  lookup-first_of (suc rounds) i id [] [] from st room =
      let past : ltb i (length xs) ≡ false = ground (arith, past_drop i xs from) in
      rw (size-holding h es fuel xs chain enough, past) refl
  lookup-first_of (suc rounds) i id [] (r ∷ rs) from st room = absurd st
  lookup-first_of (suc rounds) i id (z ∷ zs) [] from st room = absurd st
  lookup-first_of (suc rounds) i id ((p, e) ∷ zs) (r ∷ rs) from (real, holds, new, rest) room =
      let (got, left, inside) = at_drop i xs (p, e) zs from in
      let below : ltb i (length xs) ≡ true = ground arith in
      rw
        (
          size-holding h es fuel xs chain enough,
          below,
          element_there i p e got inside,
          load_element-ok (holding xs h es) e r real holds,
        )
        (elim (Bool-cases (r.sensor_id == id)) [
          | inl here ↦ rw here refl
          | inr later ↦ rw later (lookup-first_of rounds (i + 1) id zs rs left rest (omega arith))
        ])
