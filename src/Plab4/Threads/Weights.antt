-- ===== src/Plab4/Threads/Weights.antt =====
-- Weights of records, readers and worlds.
use osc_server.Base.{
  ℕ, ◌+◌, ◌*◌, ◌≤◌, ◌≢◌, ◌≡◌, refl, ◌==◌, ltb, if◌then◌else◌, List, [], ◌∷◌, ◌++◌, inl, inr, arith,
  ap, Bool-cases,
}
use osc_server.Base.Tally.{tally}
use osc_server.Config.{SensorData}
use osc_server.Sbuffer.Chain.{Cells, payloads}
use osc_server.Plab4.Threads.{
  MainThread, joining, returned, left, ReaderId, one, two, Reader, removing, waiting, got,
  reinserting, reader_ended, Writer, opening, reading, writer_ended, World, update, counted_reader,
}

-- A record with id 0 marks the end.
abbrev pub mark : SensorData → ℕ
mark d = if d.id == 0 then 1 else 0

abbrev pub plain : SensorData → ℕ
plain d = if d.id == 0 then 0 else 1

abbrev pub real : (SensorData → ℕ) → SensorData → ℕ
real f d = if d.id == 0 then 0 else f d

abbrev pub held : (SensorData → ℕ) → Reader → ℕ
held g removing = 0
held g waiting = 0
held g (got d) = g d
held g (reinserting d) = g d
held g reader_ended = 0

-- The reader has counted itself in `eos_count`.
abbrev pub passed : Reader → ℕ
passed removing = 0
passed waiting = 0
passed (got d) = 0
passed (reinserting d) = 1
passed reader_ended = 1

-- A record with another id that a reader is about to put back.
abbrev pub stray : Reader → ℕ
stray removing = 0
stray waiting = 0
stray (got d) = 0
stray (reinserting d) = plain d
stray reader_ended = 0

-- A reader at its test, and one that waits for a signal.
abbrev pub awake : Reader → ℕ
awake removing = 1
awake waiting = 0
awake (got d) = 0
awake (reinserting d) = 0
awake reader_ended = 0

abbrev pub asleep : Reader → ℕ
asleep removing = 0
asleep waiting = 1
asleep (got d) = 0
asleep (reinserting d) = 0
asleep reader_ended = 0

pub asleep-waiting : (r : Reader) → r ≢ waiting → asleep r ≡ 0
asleep-waiting removing ne = refl
asleep-waiting waiting ne = absurd (ne refl)
asleep-waiting (got d) ne = refl
asleep-waiting (reinserting d) ne = refl
asleep-waiting reader_ended ne = refl

abbrev pub over : (Reader → ℕ) → (ReaderId → Reader) → ℕ
over h readers = h (readers one) + h (readers two)

-- The writer has made the marker.
abbrev pub sent : Writer → ℕ
sent opening = 0
sent (reading r) = 0
sent writer_ended = 1

-- The last reader has dropped the marker.
abbrev pub spent : ℕ → ℕ
spent n = if ltb n 2 then 0 else 1

-- How many steps a thread can take at most, where a record in the buffer is good for four more.
abbrev pub reader_left : Reader → ℕ
reader_left removing = 4
reader_left waiting = 3
reader_left (got d) = 7
reader_left (reinserting d) = 6
reader_left reader_ended = 0

abbrev pub writer_left : Writer → ℕ
writer_left opening = 7
writer_left (reading r) = 6
writer_left writer_ended = 0

abbrev pub main_left : MainThread → ℕ
main_left joining = 1
main_left returned = 0
main_left left = 0

abbrev pub unit : SensorData → ℕ
unit d = 1

abbrev pub steps_left : Cells → World → ℕ
steps_left xs w =
    6 * tally unit w.file_in
    + writer_left w.writer
    + 4 * tally unit (payloads xs)
    + over reader_left w.readers
    + main_left w.main

-- All records that are somewhere.
abbrev pub total : (SensorData → ℕ) → Cells → World → ℕ
total g xs w =
    tally g w.rows
    + over (held g) w.readers
    + tally g (payloads xs)
    + tally g w.lost
    + tally g w.file_in

-- Nothing follows a marker.
abbrev pub MarkLast : List SensorData → Type 0
MarkLast [] = Unit {0}
MarkLast (d ∷ ds) = (d.id ≡ 0 → ds ≡ []) × MarkLast ds

pub over-update :
    (h : Reader → ℕ) (rs : ReaderId → Reader) (i : ReaderId) (r : Reader)
    → over h (update rs i r) + h (rs i) ≡ over h rs + h r
over-update h rs one r = omega arith
over-update h rs two r = omega arith

pub MarkLast-append :
    (ds : List SensorData) (d : SensorData) → tally mark ds ≡ 0 → MarkLast (ds ++ d ∷ [])
MarkLast-append [] d clean = (λ z. refl, tt)
MarkLast-append (e ∷ ds) d clean =
    (λ z. ground (arith, clean), MarkLast-append ds d (omega (arith, clean)))

pub tally-real :
    (f : SensorData → ℕ) (ds : List SensorData) → tally mark ds ≡ 0 → tally (real f) ds ≡ tally f ds
tally-real f [] clean = refl
tally-real f (d ∷ ds) clean = ground (arith, tally-real f ds)

pub nil_of_weights : (ds : List SensorData) → tally mark ds ≡ 0 → tally plain ds ≡ 0 → ds ≡ []
nil_of_weights [] no_marks no_plain = refl
nil_of_weights (d ∷ ds) no_marks no_plain = ground arith

-- No plain record is left behind a marker, nor where there was none.
pub plain_rest :
    (d : SensorData) (ds : List SensorData)
    → MarkLast (d ∷ ds)
    → (mark d ≡ 0 → tally plain (d ∷ ds) ≡ 0)
    → tally plain ds ≡ 0
plain_rest d ds (at_mark, rest) else_none = elim (Bool-cases (d.id == 0)) [
  | inl z ↦ ap (tally plain) (at_mark (ground arith))
  | inr nz ↦ omega (arith, else_none (rw nz refl))
]

pub le-over : (h : Reader → ℕ) (rs : ReaderId → Reader) (t : ReaderId) → h (rs t) ≤ over h rs
le-over h rs one = omega arith
le-over h rs two = omega arith

passed-le : (r : Reader) → passed r ≤ 1
passed-le removing = omega arith
passed-le waiting = omega arith
passed-le (got d) = omega arith
passed-le (reinserting d) = omega arith
passed-le reader_ended = omega arith

pub over-passed_le :
    (rs : ReaderId → Reader) (t : ReaderId) → passed (rs t) ≡ 0 → over passed rs ≤ 1
over-passed_le rs one e = omega (arith, passed-le (rs two))
over-passed_le rs two e = omega (arith, passed-le (rs one))

-- What a reader at the marker becomes: it keeps the marker, or it is the last one.
pub counted_reader_weights :
    (n : ℕ) (d : SensorData)
    → d.id ≡ 0
    → n ≤ 1
    → (held mark (counted_reader n d) + spent (n + 1) ≡ 1)
      × (spent n ≡ 0)
      × (passed (counted_reader n d) ≡ 1)
      × (stray (counted_reader n d) ≡ 0)
      × (reader_left (counted_reader n d) ≤ 6)
      × ((f : SensorData → ℕ) → held (real f) (counted_reader n d) ≡ 0)
counted_reader_weights n d z le = elim (Bool-cases (ltb (n + 1) 2)) [
  | inl more ↦
      rw more (ground arith, ground arith, refl, ground arith, omega arith, λ f. ground arith)
  | inr none_left ↦ rw none_left (refl, ground arith, refl, refl, omega arith, λ f. refl)
]

pub counted_reader_awake : (n : ℕ) (d : SensorData) → asleep (counted_reader n d) ≡ 0
counted_reader_awake n d = elim (Bool-cases (ltb (n + 1) 2)) [
  | inl more ↦ rw more refl
  | inr none_left ↦ rw none_left refl
]

pub held_real_mark : (f : SensorData → ℕ) (d : SensorData) → d.id ≡ 0 → real f d ≡ 0
held_real_mark f d z = ground arith

pub mark-add-plain : (d : SensorData) → mark d + plain d ≡ 1
mark-add-plain d = ground arith

pub sent-le : (w : Writer) → sent w ≤ 1
sent-le opening = omega arith
sent-le (reading r) = omega arith
sent-le writer_ended = omega arith
