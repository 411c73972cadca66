-- ===== src/Sbuffer/Readers/Inv.antt =====
-- What holds between the calls of a history, and each call keeps it.
use osc_server.Base.{
  ℕ, zero, suc, ◌≤◌, ◌≡◌, refl, ◌≢◌, inl, inr, true, false, Option, none, some, [], ◌∷◌, ◌++◌,
  arith, ◌==◌, if◌then◌else◌, length, take, get_elem?, ap, sym, ◌∙◌, Bool-cases, Option-cases,
  length-append, ltb, length-take, take-append_le, take-suc, lt_of_get_elem?, le_of_get_elem?-none,
}
use osc_server.Memory.{Ptr, null, ok}
use osc_server.Memory.Returns.{to_ok}
use osc_server.Config.{SensorData}
use osc_server.Sbuffer.Chain.{Cells, payloads, has, IsBuffer, has-append}
use osc_server.Sbuffer.Insert.{insert-appends}
use osc_server.Sbuffer.Read.{place, outcome, read-get_elem?}
use osc_server.Sbuffer.Readers.{Reader, World, insert, read, insert_into, read_into, update, step}

-- A reader has taken the first `count` records of the buffer.
pub record Reading (xs : Cells) (r : Reader) : Type 0 where
  pub count : ℕ
  pub fits : count ≤ length xs
  pub at : r.node ≡ place xs count
  pub taken : r.got ≡ take count (payloads xs)

pub record Inv (w : World) (xs : Cells) : Type 0 where
  pub buffer : IsBuffer w.shared xs
  pub only : (a : Ptr) → has a xs ≡ false → w.shared.nodes a ≡ none
  pub reading : (i : ℕ) → Reading xs (w.readers i)

pub length-payloads : (xs : Cells) → length (payloads xs) ≡ length xs
length-payloads [] = refl
length-payloads ((p, d) ∷ xs) = ap suc (length-payloads xs)

pub payloads-append : (xs ys : Cells) → payloads (xs ++ ys) ≡ payloads xs ++ payloads ys
payloads-append [] ys = refl
payloads-append ((p, d) ∷ xs) ys = ap (◌∷◌ d) (payloads-append xs ys)

place-append : (xs ys : Cells) (n : ℕ) → n ≤ length xs → place (xs ++ ys) n ≡ place xs n
place-append xs ys zero h = refl
place-append [] ys (suc n) h = absurd (omega arith)
place-append ((p, d) ∷ xs) ys (suc zero) h = refl
place-append ((p, d) ∷ xs) ys (suc (suc n)) h = place-append xs ys (suc n) (omega arith)

-- More nodes behind those that are there do not disturb a reader.
Reading-append : (xs ys : Cells) (r : Reader) → Reading xs r → Reading (xs ++ ys) r
Reading-append xs ys r g = record {
  count = g.count;
  fits = omega (arith, length-append xs ys, g.fits);
  at = g.at ∙ sym (place-append xs ys g.count g.fits);
  taken =
      g.taken
      ∙ sym (
          ap (take g.count) (payloads-append xs ys)
          ∙ take-append_le g.count (payloads xs) (payloads ys)
              (omega (arith, length-payloads xs, g.fits)));
}

pub insert-Inv :
    (w : World) (xs : Cells) (fresh : Ptr) (d : SensorData)
    → Inv w xs
    → fresh ≢ null
    → has fresh xs ≡ false
    → (w' : World) × (step w (insert fresh d) ≡ some w') × Inv w' (xs ++ (fresh, d) ∷ [])
unfolding step
insert-Inv w xs fresh d v real new =
    let (st, s, e, post) =
      to_ok (insert-appends w.shared xs fresh d v.buffer real (v.only fresh new)) in
    (
      record w { shared = s },
      ap (insert_into w) e,
      record {
        buffer = post.1;
        only = λ a o. post.2 a o ∙ v.only a (ground (arith, has-append a xs ((fresh, d) ∷ [])));
        reading = λ i. Reading-append xs ((fresh, d) ∷ []) (w.readers i) (v.reading i);
      },
    )

-- What one read makes of a reader that has taken `n` records.
abbrev after_read : Cells → ℕ → Reader → Option SensorData → Reader
after_read xs n r none = record { node = place xs n; current = r.current; got = r.got }
after_read xs n r (some d) = record { node = place xs (suc n); current = d; got = r.got ++ d ∷ [] }

-- The records taken after a read of reader `j`: one more, unless all were taken.
abbrev bumped : Cells → ℕ → ℕ
bumped xs n = if ltb n (length xs) then suc n else n

after_read-Reading :
    (xs : Cells) (r : Reader) (g : Reading xs r)
    → Reading xs (after_read xs g.count r (get_elem? (payloads xs) g.count))
after_read-Reading xs r g = elim (Option-cases (get_elem? (payloads xs) g.count)) [
  | inl e ↦ rw e (record { count = g.count; fits = g.fits; at = refl; taken = g.taken })
  | inr (d, e) ↦ rw e (record {
    count = suc g.count;
    fits = omega (arith, lt_of_get_elem? g.count (payloads xs) d e, length-payloads xs);
    at = refl;
    taken = ap (λ l. l ++ d ∷ []) g.taken ∙ sym (take-suc g.count (payloads xs) d e);
  })
]

length-got : (xs : Cells) (r : Reader) (g : Reading xs r) → length r.got ≡ g.count
length-got xs r g =
    ap length g.taken
    ∙ length-take g.count (payloads xs) (omega (arith, g.fits, length-payloads xs))

length-after_read :
    (xs : Cells) (r : Reader) (g : Reading xs r)
    → length (after_read xs g.count r (get_elem? (payloads xs) g.count)).got
      ≡ bumped xs (length r.got)
length-after_read xs r g = elim (Option-cases (get_elem? (payloads xs) g.count)) [
  | inl e ↦
      let over = le_of_get_elem?-none g.count (payloads xs) e in
      rw e (ground (arith, over, length-payloads xs, length-got xs r g))
  | inr (d, e) ↦
      let under = lt_of_get_elem? g.count (payloads xs) d e in
      rw e
        (ground (arith, under, length-payloads xs, length-got xs r g, length-append r.got (d ∷ [])))
]

-- What a read gives back, written as a world.
read_into-outcome :
    (w : World) (xs : Cells) (j n : ℕ) (o : Option SensorData)
    → read_into w j (ok (outcome xs n (w.readers j).current o) w.shared)
      ≡ some (record w { readers = update w.readers j (after_read xs n (w.readers j) o) })
read_into-outcome w xs j n none = refl
read_into-outcome w xs j n (some d) = refl

update_self : (f : ℕ → Reader) (j : ℕ) (r : Reader) → update f j r j ≡ r
update_self f j r = let e : (j == j) ≡ true = ground arith in rw e

-- A read comes back; the reader takes one record more unless it has them all, and the buffer and
-- the other readers are as they were.
pub read-Inv :
    (w : World) (xs : Cells) (j : ℕ)
    → Inv w xs
    → (w' : World) × (step w (read j) ≡ some w')
      × Inv w' xs
      × (length (w'.readers j).got ≡ bumped xs (length (w.readers j).got))
unfolding step
read-Inv w xs j v = (
  record w { readers = update w.readers j r },
  rw (g.at, read-get_elem? w.shared xs g.count (w.readers j).current v.buffer g.fits)
      (read_into-outcome w xs j g.count (get_elem? (payloads xs) g.count)),
  record {
    buffer = v.buffer;
    only = v.only;
    reading = λ i. elim (Bool-cases (i == j)) [
      | inl e ↦ rw e (after_read-Reading xs (w.readers j) g)
      | inr e ↦ rw e (v.reading i)
    ];
  },
  ap (λ (q : Reader). length q.got) (update_self w.readers j r)
      ∙ length-after_read xs (w.readers j) g,
)
  where
    g : Reading xs (w.readers j)
    g = v.reading j

    r : Reader
    r = after_read xs g.count (w.readers j) (get_elem? (payloads xs) g.count)
