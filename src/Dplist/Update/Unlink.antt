-- ===== src/Dplist/Update/Unlink.antt =====
-- How `dpl_remove_at_index` takes a node out of the list.
use osc_server.Base.{
  ◌≡◌, refl, true, false, ◌||◌, none, some, [], ◌∷◌, ◌++◌, arith, ◌==◌, ==-ne, ◌∙◌,
}
use osc_server.Memory.{Ptr, null, Store, write_self, write-other}
use osc_server.Memory.Returns.{Returns, returns}
use osc_server.Dplist.Memory.{DplistNode, node, modify, headed, Mem}
use osc_server.Dplist.Chain.{
  Cells, has, last_or, Chain, IsList, frame-write, frame-modify, modify-other, ne_head, split, join,
  restop, reprev, last-holds, apart, has-last, not-has-left, outside, last-other, has-append,
}
use osc_server.Dplist.Fields.{load-ok, set_prev-ok, set_next-ok, free_node-ok}
use osc_server.Dplist.Walk.{holding}
use osc_server.Dplist.Update.{unlink}

module _ {E : Type 0} (h : Store DplistNode) (es : Store E) where
  -- Afterwards the list has the cells `ys`, the elements are `es`, the address `r` is free, and no
  -- node outside `ys` but that has changed.
  abbrev pub Unlinked : Ptr → Cells → Unit {0} → Mem E → Type 0
  Unlinked r ys u s =
      IsList s ys
      × (s.elements ≡ es)
      × (s.nodes r ≡ none)
      × ((c : Ptr) → has c ys ≡ false → (c == r) ≡ false → s.nodes c ≡ h c)

  -- The only node.
  pub unlink-only :
      (r e : Ptr)
      → Chain h null null ((r, e) ∷ [])
      → Returns (Unlinked r []) (unlink r (holding ((r, e) ∷ []) h es))
  unfolding unlink
  unlink-only r e (ne, holds, new, rest) =
      let same : (r == r) ≡ true = ground arith in
      let read = load-ok (headed r) h es r _ ne holds in
      rw (read, read, read, same, free_node-ok (headed null) h es r _ ne holds)
        (returns (
          record { handle = refl; chain = tt },
          refl,
          write_self h r none,
          λ c o n. write-other h r c none n,
        ))

  -- The last node, which is not the first.
  pub unlink-last :
      (p f : Ptr) (ys : Cells) (r e : Ptr)
      → Chain h null null (((p, f) ∷ ys) ++ (r, e) ∷ [])
      → Returns (Unlinked r ((p, f) ∷ ys)) (unlink r (holding (((p, f) ∷ ys) ++ (r, e) ∷ []) h es))
  unfolding unlink
  unlink-last p f ys r e k =
      let xs : Cells = (p, f) ∷ ys in
      let q = last_or p ys in
      let parts : Chain h null r xs × Chain h q null ((r, e) ∷ []) =
        split h null null xs ((r, e) ∷ []) k in
      let end = last-holds h null r p f ys parts.0 in
      let g = modify h q (λ m. record m { next = null }) in
      let r_in : has r ((r, e) ∷ []) ≡ true = ground arith in
      let r_out = not-has-left h null null r xs ((r, e) ∷ []) k r_in in
      let front = restop h null r null p f ys parts.0 in
      let q_ne = ==-ne q null end.2 in
      let r_ne : (r == p) ≡ false = ne_head r p f ys r_out in
      let still : g r ≡ some (node q null e) =
        modify-other h q r (λ m. record m { next = null }) (last-other r p f ys r_out)
        ∙ parts.1.1 in
      rw
        (
          load-ok (headed p) h es r _ parts.1.0 parts.1.1,
          q_ne,
          set_next-ok (headed p) h es q null _ end.2 end.3,
          load-ok (headed p) g es r _ parts.1.0 still,
          load-ok (headed p) g es r _ parts.1.0 still,
          r_ne,
          free_node-ok (headed p) g es r _ parts.1.0 still,
        )
        (returns (
          record { handle = refl; chain = frame-write g null null r none xs front r_out },
          refl,
          write_self g r none,
          λ c o n.
              write-other g r c none n
              ∙ modify-other h q c (λ m. record m { next = null }) (last-other c p f ys o),
        ))

  -- A node between two others.
  pub unlink-middle :
      (p f : Ptr) (ys : Cells) (r e t g : Ptr) (zs : Cells)
      → Chain h null null (((p, f) ∷ ys) ++ (r, e) ∷ (t, g) ∷ zs)
      → Returns
          (Unlinked r (((p, f) ∷ ys) ++ (t, g) ∷ zs))
          (unlink r (holding (((p, f) ∷ ys) ++ (r, e) ∷ (t, g) ∷ zs) h es))
  unfolding unlink
  unlink-middle p f ys r e t g zs k =
      let xs : Cells = (p, f) ∷ ys in
      let q = last_or p ys in
      let rest : Cells = (t, g) ∷ zs in
      let parts : Chain h null r xs × Chain h q null ((r, e) ∷ rest) =
        split h null null xs ((r, e) ∷ rest) k in
      let behind : Chain h r null rest = parts.1.3 in
      let end = last-holds h null r p f ys parts.0 in
      let h1 = modify h q (λ m. record m { next = t }) in
      let h2 = modify h1 t (λ m. record m { prev = q }) in
      let r_in : has r ((r, e) ∷ rest) ≡ true = ground arith in
      let r_out = not-has-left h null null r xs ((r, e) ∷ rest) k r_in in
      let q_out : (q == r) ≡ false × has q rest ≡ false =
        both q r rest (apart h null null q xs ((r, e) ∷ rest) k (has-last p f ys)) in
      let t_in : has t ((r, e) ∷ rest) ≡ true = t_there t r g zs in
      let t_out = not-has-left h null null t xs ((r, e) ∷ rest) k t_in in
      let front1 = restop h null r t p f ys parts.0 in
      let front2 = frame-modify h1 null t t (λ m. record m { prev = q }) xs front1 t_out in
      let behind1 : Chain h1 r null rest =
        frame-modify h r null q (λ m. record m { next = t }) rest behind q_out.1 in
      let behind2 = reprev h1 r q null t g zs behind1 in
      let still1 : h1 r ≡ some (node q t e) =
        modify-other h q r (λ m. record m { next = t }) (last-other r p f ys r_out) ∙ parts.1.1 in
      let still2 : h2 r ≡ some (node q t e) =
        modify-other h1 t r (λ m. record m { prev = q }) (ne_head r t g zs parts.1.2) ∙ still1 in
      let full = join h2 null null xs rest front2 behind2 (λ c i. right_out c i) in
      let r_rest = both_out r xs rest r_out parts.1.2 in
      rw
        (
          load-ok (headed p) h es r _ parts.1.0 parts.1.1,
          ==-ne q null end.2,
          set_next-ok (headed p) h es q t _ end.2 end.3,
          load-ok (headed p) h1 es r _ parts.1.0 still1,
          ==-ne t null behind.0,
          set_prev-ok (headed p) h1 es t q _ behind1.0 behind1.1,
          load-ok (headed p) h2 es r _ parts.1.0 still2,
          ne_head r p f ys r_out,
          free_node-ok (headed p) h2 es r _ parts.1.0 still2,
        )
        (returns (
          record {
            handle = refl;
            chain = frame-write h2 null null r none (xs ++ rest) full r_rest;
          },
          refl,
          write_self h2 r none,
          λ c o n.
              let (left, right) = outside c xs rest o in
              write-other h2 r c none n
              ∙ modify-other h1 t c (λ m. record m { prev = q }) (ne_head c t g zs right)
              ∙ modify-other h q c (λ m. record m { next = t }) (last-other c p f ys left),
        ))
    where
      both :
          (a b : Ptr) (ws : Cells)
          → ((a == b) || has a ws) ≡ false
          → (a == b) ≡ false × has a ws ≡ false
      both a b ws o = (ground arith, ground arith)

      right_out : (c : Ptr) → has c ((p, f) ∷ ys) ≡ true → has c ((t, g) ∷ zs) ≡ false
      right_out c i =
          (both c r ((t, g) ∷ zs) (apart h null null c ((p, f) ∷ ys) ((r, e) ∷ (t, g) ∷ zs) k i)).1

      both_out :
          (c : Ptr) (vs ws : Cells) → has c vs ≡ false → has c ws ≡ false → has c (vs ++ ws) ≡ false
      both_out c vs ws o n = rw (has-append c vs ws, o) n

      t_there : (a b c : Ptr) (ws : Cells) → ((a == b) || ((a == a) || has a ws)) ≡ true
      t_there a b c ws = ground arith
