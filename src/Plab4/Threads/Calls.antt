-- ===== src/Plab4/Threads/Calls.antt =====
-- What the calls of the buffer do to the weights of its records.
use osc_server.Base.{
  ℕ, ◌+◌, ◌≤◌, ◌≡◌, refl, List, [], ◌∷◌, ◌++◌, inl, inr, arith, ap, sym, subst, ◌∙◌,
}
use osc_server.Base.Tally.{tally, tally-append}
use osc_server.Memory.{Ptr, null, ok, blocked}
use osc_server.Memory.Returns
use osc_server.Memory.Returns.{Returns, returns}
use osc_server.Config.{SensorData}
use osc_server.Sbuffer.{Shared, Status, success, failure}
use osc_server.Sbuffer.Chain.{Cells, payloads, IsBuffer, IsBuffer-shared}
use osc_server.Sbuffer.Insert.{insert-appends}
use osc_server.Sbuffer.Remove.{remove-cons, remove_waits}
use osc_server.Plab4.{sbuffer_insert, sbuffer_remove}
use osc_server.Plab4.Threads.{Insertion, lost_by}
use osc_server.Plab4.Threads.Weights.{mark, MarkLast, MarkLast-append}

payloads-append :
    (xs : Cells) (p : Ptr) (d : SensorData) → payloads (xs ++ (p, d) ∷ []) ≡ payloads xs ++ d ∷ []
payloads-append [] p d = refl
payloads-append ((q, e) ∷ xs) p d = ap (λ l. e ∷ l) (payloads-append xs p d)

-- A call of `sbuffer_insert` puts the record into the buffer, or loses it.
pub record Grown (d : SensorData) (st : Status) (lost : List SensorData) (xs ys : Cells)
    (s : Shared) : Type 0 where
  pub buffer : IsBuffer s ys
  pub moved :
      (g : SensorData → ℕ)
      → tally g (payloads ys) + tally g (lost_by st d lost)
        ≡ tally g (payloads xs) + g d + tally g lost
  pub most : (g : SensorData → ℕ) → tally g (payloads ys) ≤ tally g (payloads xs) + g d
  pub ordered : MarkLast (payloads xs) → tally mark (payloads xs) ≡ 0 → MarkLast (payloads ys)

appended :
    (d : SensorData) (lost : List SensorData) (xs : Cells) (p : Ptr) (s : Shared)
    → IsBuffer s (xs ++ (p, d) ∷ [])
    → Grown d success lost xs (xs ++ (p, d) ∷ []) s
appended d lost xs p s is = record {
  buffer = is;
  moved = λ g. rw (payloads-append xs p d) (omega (arith, tally-append g (payloads xs) (d ∷ [])));
  most = λ g. rw (payloads-append xs p d) (omega (arith, tally-append g (payloads xs) (d ∷ [])));
  ordered = λ o clean. rw (payloads-append xs p d) (MarkLast-append (payloads xs) d clean);
}

dropped :
    (d : SensorData) (lost : List SensorData) (xs : Cells) (s : Shared)
    → IsBuffer s xs
    → Grown d failure lost xs xs s
dropped d lost xs s is = record {
  buffer = is;
  moved = λ g. omega (arith, tally-append g lost (d ∷ []));
  most = λ g. omega arith;
  ordered = λ o clean. o;
}

insert-null :
    (s : Shared) (xs : Cells) (d : SensorData)
    → IsBuffer s xs
    → Returns (λ st s'. (st ≡ failure) × IsBuffer s' xs) (sbuffer_insert null d s)
unfolding sbuffer_insert
insert-null s xs d is =
    rw (IsBuffer-shared s xs is) (returns (refl, record { handle = refl; chain = is.chain }))

pub Insertion-Grown :
    (s s' : Shared) (xs : Cells) (d : SensorData) (st : Status) (lost : List SensorData)
    → IsBuffer s xs
    → Insertion s d st s'
    → (ys : Cells) × Grown d st lost xs ys s'
unfolding sbuffer_insert
Insertion-Grown s s' xs d st lost is call = elim call.malloc [
  | inl none_left ↦
      let run = subst (λ p. sbuffer_insert p d s ≡ ok st s') none_left call.run in
      let (e, same) = Returns.of_ok (insert-null s xs d is) run in
      (xs, rw e (dropped d lost xs s' same))
  | inr (real_address, unused) ↦
      let (e, new, rest) =
        Returns.of_ok (insert-appends s xs call.fresh d is real_address unused) call.run in
      (xs ++ (call.fresh, d) ∷ [], rw e (appended d lost xs call.fresh s' new))
]

-- A call of `sbuffer_remove` that comes back hands out the first record of the buffer.
pub removal_lem :
    (s s' : Shared) (xs : Cells) (old d : SensorData) (st : Status)
    → IsBuffer s xs
    → sbuffer_remove old s ≡ ok (st, d) s'
    → (p : Ptr) × (ys : Cells) × (xs ≡ (p, d) ∷ ys) × IsBuffer s' ys
unfolding sbuffer_remove
removal_lem s s' [] old d st is run =
    absurd (let e : blocked ≡ ok (st, d) s' = sym (remove_waits s old is).0 ∙ run in cc)
removal_lem s s' ((p, e) ∷ ys) old d st is run =
    let (good, same, gone, rest) = Returns.of_ok (remove-cons s p e old ys is) run in
    (p, ys, ap (λ x. (p, x) ∷ ys) (sym same), rest)

-- It waits only on an empty buffer.
pub waits-nil :
    (s : Shared) (xs : Cells) (old : SensorData)
    → IsBuffer s xs
    → sbuffer_remove old s ≡ blocked
    → xs ≡ []
unfolding sbuffer_remove
waits-nil s [] old is run = refl
waits-nil s ((p, e) ∷ ys) old is run =
    let ((st, d), s', good, _) = Returns.to_ok (remove-cons s p e old ys is) in
    absurd (let e : ok (st, d) s' ≡ blocked = sym good ∙ run in cc)
