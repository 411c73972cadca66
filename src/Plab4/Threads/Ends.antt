-- ===== src/Plab4/Threads/Ends.antt =====
-- What the threads leave when they have ended.
use osc_server.Base.{ℕ, ◌+◌, ◌*◌, ◌≤◌, ◌≡◌, refl, List, [], ◌∷◌, ◌++◌, arith, ap, length, subst}
use mathlib.Core.List.{Perm}
use osc_server.Base.Tally.{tally, tally-append, Perm_of_tally}
use osc_server.Base.Text.{Text}
use osc_server.Memory.{Store}
use osc_server.Config.{SensorData, SensorData-discrete}
use osc_server.Sbuffer.{SbufferNode}
use osc_server.Sbuffer.Chain.{Cells, payloads, IsBuffer}
use osc_server.Storage.Csv.{csv, NoEnd}
use osc_server.Plab4.Threads.{joining, one, two, reader_ended, writer_ended, World, Reachable}
use osc_server.Plab4.Threads.Weights.{
  mark, real, unit, held, passed, sent, spent, total, tally-real, nil_of_weights,
}
use osc_server.Plab4.Threads.Inv.{Inv, is_joining}
use osc_server.Plab4.Threads.Inv.Steps.{Inv-Reachable}

pub mark-NoEnd : (ds : List SensorData) → NoEnd ds → tally mark ds ≡ 0
mark-NoEnd [] e = refl
mark-NoEnd (d ∷ ds) e = ground (arith, mark-NoEnd ds e.1)

pub unit-length : (ds : List SensorData) → tally unit ds ≡ length ds
unit-length [] = refl
unit-length (d ∷ ds) = omega (arith, unit-length ds)

payloads-nil : (xs : Cells) → payloads xs ≡ [] → xs ≡ []
payloads-nil [] e = refl
payloads-nil ((p, d) ∷ xs) e = absurd (cc)

-- All three threads have ended.
pub record AllEnded (w : World) : Type 0 where
  pub writer : w.writer ≡ writer_ended
  pub first : w.readers one ≡ reader_ended
  pub second : w.readers two ≡ reader_ended

module _ (fixed4 : ℕ → Text) (nodes : Store SbufferNode) (input : List SensorData) where
  module _ {n : ℕ} {w : World} (clean : NoEnd input) (r : Reachable fixed4 nodes input n w) where
    pub inv : Inv fixed4 input n w
    inv = Inv-Reachable fixed4 input nodes (mark-NoEnd input clean) r

    all_counted : AllEnded w → w.eos_count ≡ 2
    all_counted e = omega (arith, inv.counted, ap passed e.first, ap passed e.second)

    no_marker : AllEnded w → total mark inv.cells w ≡ 0
    no_marker e =
        let two_now : spent w.eos_count ≡ 1 = ap spent (all_counted e) in
        omega (arith, inv.markers, two_now, ap sent e.writer)

    pub nothing_left : AllEnded w → inv.cells ≡ []
    nothing_left e = payloads-nil inv.cells (
        nil_of_weights (payloads inv.cells) (omega (arith, no_marker e))
          (inv.quiet (omega (arith, all_counted e))))

  -- However the writer and the two readers take turns: when all three have ended, the output file
  -- is the rows of the records that were written, these and the records for which there was no
  -- memory are exactly the records of the input file, none twice, and the buffer is empty as long
  -- as `main` has not freed it. The input file has no record with id 0.
  pub ended-conserved :
      (n : ℕ) (w : World)
      → NoEnd input
      → Reachable fixed4 nodes input n w
      → AllEnded w
      → (w.file_out ≡ csv fixed4 w.rows)
        × Perm (w.rows ++ w.lost) input
        × (w.main ≡ joining → IsBuffer w.shared [])
  ended-conserved n w clean r e =
      let i = inv clean r in
      let empty_now = nothing_left clean r e in
      let in_data = λ (f : SensorData → ℕ). tally-real f input (mark-NoEnd input clean) in
      let rows_data = λ (f : SensorData → ℕ). tally-real f w.rows i.clean_rows in
      let lost_data =
        λ (f : SensorData → ℕ). tally-real f w.lost (omega (arith, no_marker clean r e)) in
      (
        i.text,
        Perm_of_tally SensorData-discrete (w.rows ++ w.lost) input (λ f. omega (
          arith,
          i.kept f,
          in_data f,
          rows_data f,
          lost_data f,
          tally-append f w.rows w.lost,
          ap (λ xs. tally (real f) (payloads xs)) empty_now,
          ap (tally (real f)) (i.all_read (ap sent e.writer)),
          ap (held (real f)) e.first,
          ap (held (real f)) e.second,
        )),
        λ j. subst (IsBuffer w.shared) empty_now (i.buffer (ap is_joining j)),
      )

  -- If the input file has no record with id 0, and there is no memory when the marker is to be
  -- inserted, by the writer or again by the first reader, then the threads never all end.
  pub marker_lost-not_ended :
      (n : ℕ) (w : World) (front back : List SensorData) (m : SensorData)
      → NoEnd input
      → Reachable fixed4 nodes input n w
      → w.lost ≡ front ++ m ∷ back
      → m.id ≡ 0
      → ¬ AllEnded w
  marker_lost-not_ended n w front back m clean r lost zero_id e =
      let is_mark : mark m ≡ 1 = ground arith in
      omega (
        arith,
        no_marker clean r e,
        ap (tally mark) lost,
        tally-append mark front (m ∷ back),
        is_mark,
      )

  -- If the input file has no record with id 0, no run is longer than six steps for each of its records
  -- and 16 more, however the threads take turns.
  pub Reachable-length :
      (n : ℕ) (w : World)
      → NoEnd input
      → Reachable fixed4 nodes input n w
      → n ≤ 6 * length input + 16
  Reachable-length n w clean r = omega (arith, (inv clean r).budget, unit-length input)
