-- ===== src/Dplist/Update/Link.antt =====
-- The four ways in which `dpl_insert_at_index` links a new node into the list.
use osc_server.Base.{◌≡◌, refl, ◌≢◌, true, false, Option, some, [], ◌∷◌, ◌++◌, arith, ◌==◌, ◌∙◌}
use osc_server.Memory.{Ptr, null, Store, ok}
use osc_server.Memory.Returns.{Returns, returns}
use osc_server.Dplist.Memory.{
  DplistNode, node, modify, headed, Dplist, Mem, memory, set_prev, set_next,
}
use osc_server.Dplist.Chain.{
  Cells, has, last_or, Chain, IsList, frame, frame-modify, modify-other, has_ne, modify_self, split,
  join, restop, reprev, last-holds, apart, has-last, not-has-left, outside, last-other,
}
use osc_server.Dplist.Fields.{load-ok, set_prev-ok, set_next-ok}
use osc_server.Dplist.Walk.{holding}
use osc_server.Dplist.Update.{link_first, link_front, link_before, link_behind}

abbrev prev_is : Ptr → DplistNode → DplistNode
prev_is q n = record n { prev = q }

abbrev next_is : Ptr → DplistNode → DplistNode
next_is q n = record n { next = q }

-- Afterwards the list has the cells `ys`, the elements are `es`, and no node outside `ys` has
-- changed.
abbrev pub Linked : {E : Type 0} → Store DplistNode → Store E → Cells → Unit {0} → Mem E → Type 0
Linked h es ys r s =
    IsList s ys × (s.elements ≡ es) × ((c : Ptr) → has c ys ≡ false → s.nodes c ≡ h c)

module _ {E : Type 0} (h : Store DplistNode) (es : Store E) (fresh a b e : Ptr)
    (real : fresh ≢ null) (new : h fresh ≡ some (node a b e)) where
  -- `g` has `fresh` between `q` and `r`, and is `h` elsewhere.
  abbrev Placed : Ptr → Ptr → Store DplistNode → Type 0
  Placed q r g = (g fresh ≡ some (node q r e)) × ((c : Ptr) → (c == fresh) ≡ false → g c ≡ h c)

  Placed-Chain :
      (q r : Ptr) (g : Store DplistNode) (prev stop : Ptr) (xs : Cells)
      → Placed q r g
      → Chain h prev stop xs
      → has fresh xs ≡ false
      → Chain g prev stop xs
  Placed-Chain q r g prev stop xs (here, other) k out =
      frame h g prev stop xs k (λ c i. other c (has_ne c fresh xs i out))

  -- The two links, `prev` first, and the store that they leave.
  abbrev prev_next : Ptr → Ptr → Store DplistNode
  prev_next q r = modify (modify h fresh (prev_is q)) fresh (next_is r)

  prev_next-Placed : (q r : Ptr) → Placed q r (prev_next q r)
  prev_next-Placed q r = (
    modify_self (modify h fresh (prev_is q)) fresh (next_is r) (node q b e)
        (modify_self h fresh (prev_is q) (node a b e) new),
    λ c o.
        modify-other (modify h fresh (prev_is q)) fresh c (next_is r) o
        ∙ modify-other h fresh c (prev_is q) o,
  )

  first_link :
      (l : Option Dplist) (q : Ptr)
      → set_prev fresh q (memory l h es) ≡ ok tt (memory l (modify h fresh (prev_is q)) es)
  first_link l q = set_prev-ok l h es fresh q (node a b e) real new

  second_link :
      (l : Option Dplist) (q r : Ptr)
      → set_next fresh r (memory l (modify h fresh (prev_is q)) es)
        ≡ ok tt (memory l (prev_next q r) es)
  second_link l q r =
      set_next-ok l (modify h fresh (prev_is q)) es fresh r (node q b e) real
        (modify_self h fresh (prev_is q) (node a b e) new)

  pub link_first-Linked :
      Returns (Linked h es ((fresh, e) ∷ [])) (link_first fresh (holding [] h es))
  unfolding link_first
  link_first-Linked =
      let (here, other) = prev_next-Placed null null in
      rw (first_link (headed null) null, second_link (headed null) null null)
        (returns (
          record { handle = refl; chain = (real, here, refl, tt) },
          refl,
          λ c out. other c (ground arith),
        ))

  pub link_front-Linked :
      (p f : Ptr) (xs : Cells)
      → Chain h null null ((p, f) ∷ xs)
      → has fresh ((p, f) ∷ xs) ≡ false
      → Returns
          (Linked h es ((fresh, e) ∷ (p, f) ∷ xs))
          (link_front fresh (holding ((p, f) ∷ xs) h es))
  unfolding link_front
  link_front-Linked p f xs k out =
      let placed = prev_next-Placed null p in
      let k' = Placed-Chain null p (prev_next null p) null null ((p, f) ∷ xs) placed k out in
      rw
        (
          first_link (headed p) null,
          second_link (headed p) null p,
          set_prev-ok (headed p) (prev_next null p) es p fresh _ k'.0 k'.1,
        )
        (returns (
          record {
            handle = refl;
            chain = (
              real,
              modify-other (prev_next null p) p fresh (prev_is fresh) (ground arith) ∙ placed.0,
              out,
              reprev (prev_next null p) null fresh null p f xs k',
            );
          },
          refl,
          λ c o.
              modify-other (prev_next null p) p c (prev_is fresh) (ground arith)
              ∙ placed.1 c (ground arith),
        ))

  -- The node `r` behind the cells `ys`, the last of which is `q`.
  pub link_before-Linked :
      (p f r g : Ptr) (ys zs : Cells)
      → Chain h null null (((p, f) ∷ ys) ++ (r, g) ∷ zs)
      → has fresh (((p, f) ∷ ys) ++ (r, g) ∷ zs) ≡ false
      → Returns
          (Linked h es (((p, f) ∷ ys) ++ (fresh, e) ∷ (r, g) ∷ zs))
          (link_before fresh r (holding (((p, f) ∷ ys) ++ (r, g) ∷ zs) h es))
  unfolding link_before
  link_before-Linked p f r g ys zs k out =
      let xs : Cells = (p, f) ∷ ys in
      let q = last_or p ys in
      let placed = prev_next-Placed q r in
      let g1 = prev_next q r in
      let k1 = Placed-Chain q r g1 null null (xs ++ (r, g) ∷ zs) placed k out in
      let front : Chain g1 null r xs × Chain g1 q null ((r, g) ∷ zs) =
        split g1 null null xs ((r, g) ∷ zs) k1 in
      let behind : Chain h q null ((r, g) ∷ zs) = (split h null null xs ((r, g) ∷ zs) k).1 in
      let end = last-holds g1 null r p f ys front.0 in
      let g2 = modify g1 q (next_is fresh) in
      let q_out = apart h null null q xs ((r, g) ∷ zs) k (has-last p f ys) in
      let g3 = modify g2 r (prev_is fresh) in
      let parts = outside fresh xs ((r, g) ∷ zs) out in
      let r_in : has r ((r, g) ∷ zs) ≡ true = ground arith in
      let r_out = not-has-left h null null r xs ((r, g) ∷ zs) k r_in in
      let front2 = restop g1 null r fresh p f ys front.0 in
      let behind2 = frame-modify g1 q null q (next_is fresh) ((r, g) ∷ zs) front.1 q_out in
      rw
        (
          load-ok (headed p) h es r _ behind.0 behind.1,
          first_link (headed p) q,
          second_link (headed p) q r,
          load-ok (headed p) g1 es r _ front.1.0 front.1.1,
          set_next-ok (headed p) g1 es q fresh _ end.2 end.3,
          set_prev-ok (headed p) g2 es r fresh _ behind2.0 behind2.1,
        )
        (returns (
          record {
            handle = refl;
            chain =
                join g3 null null xs ((fresh, e) ∷ (r, g) ∷ zs)
                  (frame-modify g2 null fresh r (prev_is fresh) xs front2 r_out)
                  (
                    real,
                    modify-other g2 r fresh (prev_is fresh) (ground (arith, parts))
                        ∙ modify-other g1 q fresh (next_is fresh) (last-other fresh p f ys parts.0)
                        ∙ placed.0,
                    parts.1,
                    reprev g2 q fresh null r g zs behind2,
                  )
                  (λ c i.
                    ground (
                      arith,
                      apart h null null c xs ((r, g) ∷ zs) k i,
                      has_ne c fresh xs i parts.0,
                    ));
          },
          refl,
          λ c o.
              let (left, right) = outside c xs ((fresh, e) ∷ (r, g) ∷ zs) o in
              modify-other g2 r c (prev_is fresh) (ground arith)
              ∙ modify-other g1 q c (next_is fresh) (last-other c p f ys left)
              ∙ placed.1 c (ground arith),
        ))

  -- The two links in the other order.
  abbrev next_prev : Ptr → Ptr → Store DplistNode
  next_prev q r = modify (modify h fresh (next_is r)) fresh (prev_is q)

  next_prev-Placed : (q r : Ptr) → Placed q r (next_prev q r)
  next_prev-Placed q r = (
    modify_self (modify h fresh (next_is r)) fresh (prev_is q) (node a r e)
        (modify_self h fresh (next_is r) (node a b e) new),
    λ c o.
        modify-other (modify h fresh (next_is r)) fresh c (prev_is q) o
        ∙ modify-other h fresh c (next_is r) o,
  )

  pub link_behind-Linked :
      (p f : Ptr) (ys : Cells)
      → Chain h null null ((p, f) ∷ ys)
      → has fresh ((p, f) ∷ ys) ≡ false
      → Returns
          (Linked h es (((p, f) ∷ ys) ++ (fresh, e) ∷ []))
          (link_behind fresh (last_or p ys) (holding ((p, f) ∷ ys) h es))
  unfolding link_behind
  link_behind-Linked p f ys k out =
      let xs : Cells = (p, f) ∷ ys in
      let q = last_or p ys in
      let placed = next_prev-Placed q null in
      let g1 = next_prev q null in
      let k1 = Placed-Chain q null g1 null null xs placed k out in
      let end = last-holds h null null p f ys k in
      let end1 = last-holds g1 null null p f ys k1 in
      rw
        (
          load-ok (headed p) h es q _ end.2 end.3,
          set_next-ok (headed p) h es fresh null (node a b e) real new,
          set_prev-ok (headed p) (modify h fresh (next_is null)) es fresh q (node a null e) real
              (modify_self h fresh (next_is null) (node a b e) new),
          set_next-ok (headed p) g1 es q fresh _ end1.2 end1.3,
        )
        (returns (
          record {
            handle = refl;
            chain =
                join (modify g1 q (next_is fresh)) null null xs ((fresh, e) ∷ [])
                  (restop g1 null null fresh p f ys k1)
                  (
                    real,
                    modify-other g1 q fresh (next_is fresh) (last-other fresh p f ys out)
                        ∙ placed.0,
                    refl,
                    tt,
                  )
                  (λ c i. ground (arith, has_ne c fresh xs i out));
          },
          refl,
          λ c o.
              let (left, right) = outside c xs ((fresh, e) ∷ []) o in
              modify-other g1 q c (next_is fresh) (last-other c p f ys left)
              ∙ placed.1 c (ground arith),
        ))
