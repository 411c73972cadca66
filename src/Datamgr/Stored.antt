-- ===== src/Datamgr/Stored.antt =====
-- The rooms that the list of the data manager stands for, and how a measurement changes them.
use osc_server.Base.{
  ℕ, ◌≡◌, ◌≢◌, refl, inl, inr, Bool, true, false, ◌||◌, Option, none, some, List, [], ◌∷◌, arith,
  ◌==◌, ◌∙◌, ap, sym, Bool-cases, if_true, if_false, some_injective, if◌then◌else◌,
}
use osc_server.Memory.{Ptr, null, Store, write, write_self, write-other, ok}
use osc_server.Dplist.Memory.{Mem}
use osc_server.Dplist.Chain.{Cells, IsList}
use osc_server.Datamgr.Element.{ListElement, load_element, put_element}

abbrev pub has_element : Ptr → Cells → Bool
has_element a [] = false
has_element a ((p, e) ∷ xs) = (a == e) || has_element a xs

-- The elements of the cells are the rooms `rs`, at distinct addresses.
abbrev pub Stored : Store ListElement → Cells → List ListElement → Type 0
Stored es [] [] = Unit {0}
Stored es [] (r ∷ rs) = ⊥
Stored es (x ∷ xs) [] = ⊥
Stored es ((p, e) ∷ xs) (r ∷ rs) =
    (e ≢ null) × (es e ≡ some r) × (has_element e xs ≡ false) × Stored es xs rs

pub record IsRooms (s : Mem ListElement) (xs : Cells) (rs : List ListElement) : Type 0 where
  pub cells : IsList s xs
  pub stored : Stored s.elements xs rs

-- The first room with a sensor: its element, and itself.
abbrev pub first_of : (id : ℕ) → Cells → List ListElement → Option Ptr
first_of id [] rs = none
first_of id ((p, e) ∷ xs) [] = none
first_of id ((p, e) ∷ xs) (r ∷ rs) = if r.sensor_id == id then some e else first_of id xs rs

abbrev pub find_room : (id : ℕ) → List ListElement → Option ListElement
find_room id [] = none
find_room id (r ∷ rs) = if r.sensor_id == id then some r else find_room id rs

abbrev pub update_first :
    (id : ℕ) → (ListElement → ListElement) → List ListElement → List ListElement
update_first id f [] = []
update_first id f (r ∷ rs) = if r.sensor_id == id then f r ∷ rs else r ∷ update_first id f rs

pub load_element-ok :
    (s : Mem ListElement) (p : Ptr) (e : ListElement)
    → p ≢ null
    → s.elements p ≡ some e
    → load_element p s ≡ ok e s
unfolding load_element
load_element-ok s p e real holds = let a : (p == null) ≡ false = ground arith in rw (a, holds) refl

pub put_element-ok :
    (s : Mem ListElement) (p : Ptr) (e e' : ListElement)
    → p ≢ null
    → s.elements p ≡ some e
    → put_element p e' s ≡ ok tt (record s { elements = write s.elements p (some e') })
unfolding put_element
put_element-ok s p e e' real holds = rw (load_element-ok s p e real holds) refl

pub Stored-write_other :
    (es : Store ListElement) (a : Ptr) (c : Option ListElement) (xs : Cells) (rs : List ListElement)
    → has_element a xs ≡ false
    → Stored es xs rs
    → Stored (write es a c) xs rs
Stored-write_other es a c [] [] out st = tt
Stored-write_other es a c [] (r ∷ rs) out st = absurd st
Stored-write_other es a c (x ∷ xs) [] out st = absurd st
Stored-write_other es a c ((p, e) ∷ xs) (r ∷ rs) out (real, holds, new, rest) = (
  real,
  write-other es a e c (ground arith) ∙ holds,
  new,
  Stored-write_other es a c xs rs (ground arith) rest,
)

has_element-first_of :
    (id a : ℕ) (xs : Cells) (rs : List ListElement)
    → first_of id xs rs ≡ some a
    → has_element a xs ≡ true
has_element-first_of id a [] rs e = cc
has_element-first_of id a ((p, f) ∷ xs) [] e = cc
has_element-first_of id a ((p, f) ∷ xs) (r ∷ rs) e = elim (Bool-cases (r.sensor_id == id)) [
  | inl here ↦
      let same : f ≡ a =
        some_injective (sym (if_true (r.sensor_id == id) (some f) (first_of id xs rs) here) ∙ e) in
      ground arith
  | inr later ↦
      let there =
        has_element-first_of id a xs rs
          (sym (if_false (r.sensor_id == id) (some f) (first_of id xs rs) later) ∙ e) in
      ground arith
]

distinct :
    (a g : Ptr) (xs : Cells) → has_element a xs ≡ true → has_element g xs ≡ false → (g == a) ≡ false
distinct a g [] i o = cc
distinct a g ((p, f) ∷ xs) i o = ground (arith, distinct a g xs)

-- The element that was found, and what writing it makes of the rooms.
pub Stored-update_first :
    (es : Store ListElement) (id a : ℕ) (f : ListElement → ListElement) (xs : Cells)
    (rs : List ListElement)
    → Stored es xs rs
    → first_of id xs rs ≡ some a
    → (r : ListElement) × (find_room id rs ≡ some r)
      × (a ≢ null)
      × (es a ≡ some r)
      × Stored (write es a (some (f r))) xs (update_first id f rs)
Stored-update_first es id a f [] rs st e = cc
Stored-update_first es id a f ((p, g) ∷ xs) [] st e = cc
Stored-update_first es id a f ((p, g) ∷ xs) (r ∷ rs) (real, holds, new, rest) e =
    elim (Bool-cases (r.sensor_id == id)) [
      | inl here ↦
          let same : g ≡ a =
            some_injective
              (sym (if_true (r.sensor_id == id) (some g) (first_of id xs rs) here) ∙ e) in
          rw (← same, here)
            (
              r,
              refl,
              real,
              holds,
              (
                real,
                write_self es g (some (f r)),
                new,
                Stored-write_other es g (some (f r)) xs rs new rest,
              ),
            )
      | inr later ↦
          let there = sym (if_false (r.sensor_id == id) (some g) (first_of id xs rs) later) ∙ e in
          let (q, found, real', holds', stored) = Stored-update_first es id a f xs rs rest there in
          let apart_from = distinct a g xs (has_element-first_of id a xs rs there) new in
          rw later (
            q,
            found,
            real',
            holds',
            (real, write-other es a g (some (f q)) apart_from ∙ holds, new, stored),
          )
    ]

pub not-find_room :
    (es : Store ListElement) (id : ℕ) (f : ListElement → ListElement) (xs : Cells)
    (rs : List ListElement)
    → Stored es xs rs
    → first_of id xs rs ≡ none
    → (find_room id rs ≡ none) × (update_first id f rs ≡ rs)
not-find_room es id f [] [] st e = (refl, refl)
not-find_room es id f [] (r ∷ rs) st e = absurd st
not-find_room es id f (x ∷ xs) [] st e = absurd st
not-find_room es id f ((p, g) ∷ xs) (r ∷ rs) (real, holds, new, rest) e =
    elim (Bool-cases (r.sensor_id == id)) [
      | inl here ↦
          absurd (none_ne (sym (if_true (r.sensor_id == id) (some g) (first_of id xs rs) here) ∙ e))
      | inr later ↦
          let there = sym (if_false (r.sensor_id == id) (some g) (first_of id xs rs) later) ∙ e in
          let (found, same) = not-find_room es id f xs rs rest there in
          rw later (found, ap (λ l. r ∷ l) same)
    ]
  where
    none_ne : some g ≡ none → ⊥
    none_ne x = cc
