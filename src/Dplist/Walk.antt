-- ===== src/Dplist/Walk.antt =====
-- The functions of dplist.c that read the list, as functions of the cells.
use osc_server.Base.{
  ℕ, zero, suc, ◌+◌, min, ◌-◌, ◌<◌, ◌≤◌, ◌≡◌, refl, ◌≢◌, ◌⊎◌, inl, inr, true, false, Option, none,
  some, [], ◌∷◌, ◌++◌, arith, ◌==◌, ◌∙◌, ap, sym, ltb, length, get_elem?, cut, get_elem?-middle,
  Bool-cases, ltb→lt, length-append, nil_of_length,
}
use osc_server.Base.Int.{ℤ, pos, negsuc, to_ℕ}
use osc_server.Memory.{Ptr, null, Store, ok}
use osc_server.Dplist.{
  dpl_size, dpl_get_reference_at_index, dpl_get_element_at_index, size_loop, walk,
}
use osc_server.Dplist.Memory.{DplistNode, node, headed, Dplist, Mem, memory}
use osc_server.Dplist.Fields.{load-ok}
use osc_server.Dplist.Chain.{Cells, first_or, Chain, IsList, IsList-memory}

first-middle :
    (h : Store DplistNode) (prev stop r e : Ptr) (ys zs : Cells)
    → Chain h prev stop (ys ++ (r, e) ∷ zs)
    → (first_or stop (ys ++ (r, e) ∷ zs) == null) ≡ false
first-middle h prev stop r e [] zs k = ground (arith, k.0)
first-middle h prev stop r e ((p, f) ∷ ys) zs k = ground (arith, k.0)

module _ {E : Type 0} (l : Option Dplist) (h : Store DplistNode) (es : Store E) where
  size_loop-length :
      (fuel n : ℕ) (prev : Ptr) (xs : Cells)
      → Chain h prev null xs
      → length xs < fuel
      → size_loop fuel (first_or null xs) n (memory l h es)
        ≡ ok (pos (n + length xs)) (memory l h es)
  unfolding size_loop
  size_loop-length zero n prev xs k enough = absurd (omega arith)
  size_loop-length (suc fuel) n prev [] k enough =
      ap (λ m. ok (pos m) (memory l h es)) (omega arith)
  size_loop-length (suc fuel) n prev ((p, e) ∷ xs) (ne, holds, new, rest) enough =
      let e' : (p == null) ≡ false = ground arith in
      rw (e', load-ok l h es p _ ne holds)
        (size_loop-length fuel (n + 1) p xs rest (omega arith)
          ∙ ap (λ m. ok (pos m) (memory l h es)) (omega arith))

  -- From the first of `ys` the walk stops at `r` when the index is reached there, or the list ends.
  pub walk-stops :
      (fuel c n : ℕ) (prev r e : Ptr) (ys zs : Cells)
      → Chain h prev null (ys ++ (r, e) ∷ zs)
      → length ys < fuel
      → ((c + length ys ≡ n) ⊎ ((zs ≡ []) × (c + length ys ≤ n)))
      → walk fuel (first_or null (ys ++ (r, e) ∷ zs)) c (pos n) (memory l h es)
        ≡ ok r (memory l h es)
  unfolding walk
  walk-stops zero c n prev r e ys zs k enough at = absurd (omega arith)
  walk-stops (suc fuel) c n prev r e [] [] (ne, holds, new, rest) enough at =
      rw (load-ok l h es r _ ne holds)
  walk-stops (suc fuel) c n prev r e [] ((q, f) ∷ zs) (ne, holds, new, rest) enough at =
      let e' : (q == null) ≡ false = ground (arith, rest.0) in
      let t : ltb c n ≡ false = ground arith in rw (load-ok l h es r _ ne holds, e', t)
  walk-stops (suc fuel) c n prev r e ((p, f) ∷ ys) zs (ne, holds, new, rest) enough at =
      let e' : (first_or null (ys ++ (r, e) ∷ zs) == null) ≡ false =
        first-middle h p null r e ys zs rest in
      let t : ltb c n ≡ true = ground arith in
      rw (load-ok l h es p _ ne holds, e', t)
        (walk-stops fuel (c + 1) n p r e ys zs rest (omega arith) (ground arith))

-- An index before the front means the first node, and one past the end the last.
abbrev pub position : ℤ → Cells → ℕ
position i xs = min (to_ℕ i) (length xs - 1)

abbrev pub node_of : Option (Ptr × Ptr) → Ptr
node_of none = null
node_of (some (p, e)) = p

abbrev pub element_of : Option (Ptr × Ptr) → Ptr
element_of none = null
element_of (some (p, e)) = e

-- The node and the element that an index means; NULL in an empty list.
abbrev pub reference_at : Cells → ℤ → Ptr
reference_at xs i = node_of (get_elem? xs (position i xs))

abbrev pub element_at : Cells → ℤ → Ptr
element_at xs i = element_of (get_elem? xs (position i xs))

-- The state of the live list `xs`.
abbrev pub holding : {E : Type 0} → Cells → Store DplistNode → Store E → Mem E
holding xs h es = memory (headed (first_or null xs)) h es

module _ {E : Type 0} (h : Store DplistNode) (es : Store E) where
  pub size-holding :
      (fuel : ℕ) (xs : Cells)
      → Chain h null null xs
      → length xs < fuel
      → dpl_size fuel (holding xs h es) ≡ ok (pos (length xs)) (holding xs h es)
  unfolding dpl_size
  size-holding fuel xs k enough =
      let sum : 0 + length xs ≡ length xs = omega arith in
      size_loop-length (headed (first_or null xs)) h es fuel 0 null xs k enough
      ∙ ap (λ m. ok (pos m) (holding xs h es)) sum

  walk-middle :
      (fuel n : ℕ) (ys : Cells) (c : Ptr × Ptr) (zs : Cells)
      → Chain h null null (ys ++ c ∷ zs)
      → length (ys ++ c ∷ zs) < fuel
      → length ys ≡ position (pos n) (ys ++ c ∷ zs)
      → walk fuel (first_or null (ys ++ c ∷ zs)) 0 (pos n) (holding (ys ++ c ∷ zs) h es)
        ≡ ok (reference_at (ys ++ c ∷ zs) (pos n)) (holding (ys ++ c ∷ zs) h es)
  walk-middle fuel n ys (r, e) zs k enough here =
      let size = length-append ys ((r, e) ∷ zs) in
      walk-stops (headed (first_or null (ys ++ (r, e) ∷ zs))) h es fuel 0 n null r e ys zs k
        (omega (arith, size)) (stop_here size)
      ∙ ap (λ o. ok (node_of o) (holding (ys ++ (r, e) ∷ zs) h es))
          (sym (get_elem?-middle ys (r, e) zs) ∙ ap (get_elem? (ys ++ (r, e) ∷ zs)) here)
    where
      stop_here :
          length (ys ++ (r, e) ∷ zs) ≡ length ys + suc (length zs)
          → (0 + length ys ≡ n) ⊎ ((zs ≡ []) × (0 + length ys ≤ n))
      stop_here size = elim (Bool-cases (ltb n (length (ys ++ (r, e) ∷ zs)))) [
        | inl below ↦ inl (omega (arith, here, ltb→lt n (length (ys ++ (r, e) ∷ zs)) below))
        | inr above ↦
            let over : length (ys ++ (r, e) ∷ zs) ≤ n = ground arith in
            inr
              (nil_of_length zs (omega (arith, here, size, over)), omega (arith, here, size, over))
      ]

  -- A walk from the head of a list that is not empty.
  pub walk-reference_at :
      (fuel n : ℕ) (xs : Cells)
      → 0 < length xs
      → Chain h null null xs
      → length xs < fuel
      → walk fuel (first_or null xs) 0 (pos n) (holding xs h es)
        ≡ ok (reference_at xs (pos n)) (holding xs h es)
  walk-reference_at fuel n xs some_node k enough =
      cut
        (λ l.
          Chain h null null l
          → length l < fuel
          → position (pos n) xs ≡ position (pos n) l
          → walk fuel (first_or null l) 0 (pos n) (holding l h es)
            ≡ ok (reference_at l (pos n)) (holding l h es))
        (position (pos n) xs)
        (λ ys c zs at k' enough' same. walk-middle fuel n ys c zs k' enough' (at ∙ same)) xs
        (omega arith) k enough refl

  first_position :
      (p e : Ptr) (xs : Cells)
      → ok p (holding ((p, e) ∷ xs) h es)
        ≡ ok
            (node_of (get_elem? ((p, e) ∷ xs) (min 0 (suc (length xs) - 1))))
            (holding ((p, e) ∷ xs) h es)
  first_position p e xs =
      let here : 0 ≡ min 0 (suc (length xs) - 1) = omega arith in
      ap (λ m. ok (node_of (get_elem? ((p, e) ∷ xs) m)) (holding ((p, e) ∷ xs) h es)) here

  pub reference-holding :
      (fuel : ℕ) (i : ℤ) (xs : Cells)
      → Chain h null null xs
      → length xs < fuel
      → dpl_get_reference_at_index fuel i (holding xs h es)
        ≡ ok (reference_at xs i) (holding xs h es)
  unfolding dpl_get_reference_at_index
  reference-holding fuel i [] k enough = refl
  reference-holding fuel (negsuc n) ((p, e) ∷ xs) k enough =
      let a : (p == null) ≡ false = ground (arith, k.0) in rw a (first_position p e xs)
  reference-holding fuel (pos zero) ((p, e) ∷ xs) k enough =
      let a : (p == null) ≡ false = ground (arith, k.0) in rw a (first_position p e xs)
  reference-holding fuel (pos (suc n)) ((p, e) ∷ xs) k enough =
      let a : (p == null) ≡ false = ground (arith, k.0) in
      let b : (suc n == 0) ≡ false = ground arith in
      rw (a, b) (walk-reference_at fuel (suc n) ((p, e) ∷ xs) (omega arith) k enough)

  -- The node that `reference_at` names holds the element that `element_at` names.
  Chain-get_elem? :
      (prev stop : Ptr) (n : ℕ) (xs : Cells)
      → Chain h prev stop xs
      → (get_elem? xs n ≡ none)
        ⊎ ((p e q r : Ptr) × (get_elem? xs n ≡ some (p, e))
            × (p ≢ null)
            × (h p ≡ some (node q r e)))
  Chain-get_elem? prev stop n [] k = inl refl
  Chain-get_elem? prev stop zero ((p, e) ∷ xs) (ne, holds, new, rest) =
      inr (p, e, prev, first_or stop xs, refl, ne, holds)
  Chain-get_elem? prev stop (suc n) ((p, e) ∷ xs) (ne, holds, new, rest) =
      Chain-get_elem? p stop n xs rest

  pub element-holding :
      (fuel : ℕ) (i : ℤ) (xs : Cells)
      → Chain h null null xs
      → length xs < fuel
      → dpl_get_element_at_index fuel i (holding xs h es) ≡ ok (element_at xs i) (holding xs h es)
  unfolding dpl_get_element_at_index
  element-holding fuel i xs k enough =
      rw (reference-holding fuel i xs k enough)
        (elim (Chain-get_elem? null null (position i xs) xs k) [
          | inl out ↦ rw out refl
          | inr (p, e, q, r, got, ne, holds) ↦
              let a : (p == null) ≡ false = ground arith in
              rw (got, a, load-ok (headed (first_or null xs)) h es p _ ne holds) refl
        ])

-- The functions that only read the list, on a list with cells `xs`: the size is the number of
-- nodes; an index that is negative means the first node, one past the end the last, and in an empty
-- list both results are NULL. No node changes.
pub reads-IsList :
    {E : Type 0} (s : Mem E) (xs : Cells) (fuel : ℕ) (i : ℤ)
    → IsList s xs
    → length xs < fuel
    → (dpl_size fuel s ≡ ok (pos (length xs)) s)
      × (dpl_get_reference_at_index fuel i s ≡ ok (reference_at xs i) s)
      × (dpl_get_element_at_index fuel i s ≡ ok (element_at xs i) s)
reads-IsList s xs fuel i is enough = rw (IsList-memory s xs is) (
  size-holding s.nodes s.elements fuel xs is.chain enough,
  reference-holding s.nodes s.elements fuel i xs is.chain enough,
  element-holding s.nodes s.elements fuel i xs is.chain enough,
)

-- Without a list the size is -1 and the results are NULL.
pub reads_null :
    {E : Type 0} (s : Mem E) (fuel : ℕ) (i : ℤ)
    → s.list ≡ none
    → (dpl_size fuel s ≡ ok (negsuc 0) s)
      × (dpl_get_reference_at_index fuel i s ≡ ok null s)
      × (dpl_get_element_at_index fuel i s ≡ ok null s)
unfolding dpl_size dpl_get_element_at_index
reads_null s fuel i e = (rw e refl, rw e refl, rw e refl)
