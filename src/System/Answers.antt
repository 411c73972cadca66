-- ===== src/System/Answers.antt =====
-- The records in the results of a reader's calls are those that it took.
use osc_server.Base.{
  ℕ, ◌≡◌, refl, inl, inr, Option, none, some, List, [], ◌∷◌, ◌++◌, ◌==◌, ap, sym, ◌∙◌, Bool-cases,
  some_injective, get_elem?, arith, if◌then◌else◌,
}
use mathlib.Core.List.{append-nil, append_assoc}
use osc_server.Memory.{Ptr, Run, ok, fault, exited, blocked, out_of_fuel}
use osc_server.Config.{SensorData}
use osc_server.Sbuffer.{Status, success, failure, empty, Shared, sbuffer_insert, sbuffer_read}
use osc_server.Sbuffer.Chain.{Cells, payloads}
use osc_server.Sbuffer.Read.{outcome, read-get_elem?}
use osc_server.Sbuffer.Readers.{
  World, Event, insert, read, insert_into, read_into, next, step, run, Allocates,
}
use osc_server.Sbuffer.Readers.Inv.{Inv, insert-Inv, read-Inv}
use osc_server.Storage.Csv.{delivered}
use osc_server.System.{given, answered, answers}

pub delivered-append :
    (a b : List (Status × SensorData)) → delivered (a ++ b) ≡ delivered a ++ delivered b
delivered-append [] b = refl
delivered-append ((empty, d) ∷ a) b = delivered-append a b
delivered-append ((success, d) ∷ a) b = ap (◌∷◌ d) (delivered-append a b)
delivered-append ((failure, d) ∷ a) b = ap (◌∷◌ d) (delivered-append a b)

-- What a read that gave `o` makes of the world.
read_one :
    (w v : World) (xs : Cells) (i j n : ℕ) (o : Option SensorData)
    → read_into w j (ok (outcome xs n (w.readers j).current o) w.shared) ≡ some v
    → (v.readers i).got
      ≡ (w.readers i).got
        ++ delivered
            (if i == j then given (ok (outcome xs n (w.readers j).current o) w.shared) else [])
read_one w v xs i j n none e =
    ap (λ (u : World). (u.readers i).got) (sym (some_injective e)) ∙ elim (Bool-cases (i == j)) [
      | inl here ↦
          let same : j ≡ i = ground arith in
          rw here (ap (λ k. (w.readers k).got) same ∙ sym (append-nil (w.readers i).got))
      | inr there ↦ rw there (sym (append-nil (w.readers i).got))
    ]
read_one w v xs i j n (some d) e =
    ap (λ (u : World). (u.readers i).got) (sym (some_injective e)) ∙ elim (Bool-cases (i == j)) [
      | inl here ↦
          let same : j ≡ i = ground arith in rw here (ap (λ k. (w.readers k).got ++ d ∷ []) same)
      | inr there ↦ rw there (sym (append-nil (w.readers i).got))
    ]

read-delivered :
    (w v : World) (xs : Cells) (i j : ℕ)
    → Inv w xs
    → step w (read j) ≡ some v
    → (v.readers i).got ≡ (w.readers i).got ++ delivered (answered i w (read j))
unfolding step
read-delivered w v xs i j is e =
    let g = is.reading j in
    let q = w.readers j in
    let r =
      ap (λ p. sbuffer_read p q.current w.shared) g.at
      ∙ read-get_elem? w.shared xs g.count q.current is.buffer g.fits in
    rw r (
      read_one w v xs i j g.count (get_elem? (payloads xs) g.count)
        (sym (ap (read_into w j) r) ∙ e))

insert_into-readers :
    (w v : World) (r : Run Shared Status) → insert_into w r ≡ some v → v.readers ≡ w.readers
insert_into-readers w v (ok st s) e = ap (λ (u : World). u.readers) (sym (some_injective e))
insert_into-readers w v fault e = absurd (cc)
insert_into-readers w v exited e = absurd (cc)
insert_into-readers w v out_of_fuel e = absurd (cc)
insert_into-readers w v blocked e = absurd (cc)

insert-got :
    (w v : World) (p : Ptr) (d : SensorData) (i : ℕ)
    → step w (insert p d) ≡ some v
    → (v.readers i).got ≡ (w.readers i).got
unfolding step
insert-got w v p d i e =
    ap (λ f. (f i).got) (insert_into-readers w v (sbuffer_insert p d w.shared) e)

-- Over a history: the records in the results are those that the reader took.
pub run-delivered :
    (w v : World) (xs : Cells) (i : ℕ) (es : List Event)
    → Inv w xs
    → Allocates xs es
    → run w es ≡ some v
    → (v.readers i).got ≡ (w.readers i).got ++ delivered (answers i w es)
unfolding run answers
run-delivered w v xs i [] is a r =
    ap (λ (u : World). (u.readers i).got) (sym (some_injective r))
    ∙ sym (append-nil (w.readers i).got)
run-delivered w v xs i (insert p d ∷ es) is (real, new, a) r =
    let (u, s, is') = insert-Inv w xs p d is real new in
    rw s (
      run-delivered u v _ i es is' a (sym (ap (λ o. next o (λ x. run x es)) s) ∙ r)
      ∙ ap (λ l. l ++ delivered (answers i u es)) (insert-got w u p d i s))
run-delivered w v xs i (read j ∷ es) is a r =
    let (u, s, is', more) = read-Inv w xs j is in
    rw s (
      run-delivered u v xs i es is' a (sym (ap (λ o. next o (λ x. run x es)) s) ∙ r)
      ∙ ap (λ l. l ++ delivered (answers i u es)) (read-delivered w u xs i j is s)
      ∙ append_assoc (w.readers i).got (delivered (answered i w (read j))) _
      ∙ ap (λ l. (w.readers i).got ++ l)
          (sym (delivered-append (answered i w (read j)) (answers i u es))))
