-- ===== src/Plab4/Threads/Inv/Readers.antt =====
-- The readers keep the invariant.
use osc_server.Base.{ℕ, suc, ◌+◌, ◌≤◌, ◌≡◌, ◌≢◌, List, [], ◌∷◌, ◌++◌, arith, ap, subst, ◌∙◌}
use osc_server.Base.Tally.{tally, tally-append}
use osc_server.Base.Text.{Text}
use osc_server.Config.{SensorData}
use osc_server.Sbuffer.Chain.{Cells, payloads, IsBuffer}
use osc_server.Storage.{csv_line}
use osc_server.Plab4.Threads.{
  ReaderId, Reader, removing, waiting, got, World, update, counted_reader,
}
use osc_server.Plab4.Threads.Weights.{
  unit, reader_left, mark, plain, real, held, passed, MarkLast, over-update, plain_rest, le-over,
  over-passed_le, counted_reader_weights, counted_reader_awake, awake, asleep, held_real_mark,
  stray,
}
use osc_server.Plab4.Threads.Inv.{Inv, csv-append}

module _ (fixed4 : ℕ → Text) (input : List SensorData) where
  module _ (w : World) (t : ReaderId) (d : SensorData) (n : ℕ) (i : Inv fixed4 input n w) where
    pub Inv-removes :
        w.readers t ≡ removing
        → (s : _) (p : _) (ys : Cells) → i.cells ≡ (p, d) ∷ ys
        → IsBuffer s ys
        → Inv fixed4 input (suc n) (record w { shared = s; readers = update w.readers t (got d) })
    Inv-removes at s p ys cut is =
        let all = λ (h : Reader → ℕ). over-update h w.readers t (got d) in
        let was = λ (h : Reader → ℕ). ap h at in
        let less = λ (h : SensorData → ℕ). ap (λ xs. tally h (payloads xs)) cut in
        let in_order = subst (λ xs. MarkLast (payloads xs)) cut i.ordered in
        record {
          cells = ys;
          buffer = λ j. is;
          kept =
              λ f. omega (arith, i.kept f, all (held (real f)), was (held (real f)), less (real f));
          markers = omega (arith, i.markers, all (held mark), was (held mark), less mark);
          all_read = i.all_read;
          clean = i.clean;
          clean_rows = i.clean_rows;
          counted = omega (arith, i.counted, all passed, was passed);
          put_back = omega (arith, i.put_back, all stray, was stray);
          begun = i.begun;
          ordered = in_order.1;
          quiet = λ h. plain_rest d (payloads ys) in_order (λ no_mark. omega (
            arith,
            i.quiet (omega (arith, h, no_mark, all (held mark), was (held mark))),
            less plain,
          ));
          rested = λ h. omega (
            arith,
            i.rested (omega (arith, h, all asleep, was asleep)),
            all awake,
            was awake,
            less unit,
          );
          text = i.text;
          budget = omega (arith, i.budget, all reader_left, was reader_left, less unit);
        }

    pub Inv-waits :
        w.readers t ≡ removing
        → i.cells ≡ []
        → Inv fixed4 input (suc n) (record w { readers = update w.readers t waiting })
    Inv-waits at nil =
        let all = λ (h : Reader → ℕ). over-update h w.readers t waiting in
        let was = λ (h : Reader → ℕ). ap h at in
        record {
          cells = i.cells;
          buffer = i.buffer;
          kept = λ f. omega (arith, i.kept f, all (held (real f)), was (held (real f)));
          markers = omega (arith, i.markers, all (held mark), was (held mark));
          all_read = i.all_read;
          clean = i.clean;
          clean_rows = i.clean_rows;
          counted = omega (arith, i.counted, all passed, was passed);
          put_back = omega (arith, i.put_back, all stray, was stray);
          begun = i.begun;
          ordered = i.ordered;
          quiet = λ h. i.quiet (omega (arith, h, all (held mark), was (held mark)));
          rested = λ h. omega (arith, ap (λ xs. tally unit (payloads xs)) nil);
          text = i.text;
          budget = omega (arith, i.budget, all reader_left, was reader_left);
        }

    pub Inv-writes :
        w.readers t ≡ got d
        → d.id ≢ 0
        → Inv fixed4 input (suc n) (record w {
          readers = update w.readers t removing;
          file_out = w.file_out ++ csv_line fixed4 d;
          rows = w.rows ++ d ∷ [];
        })
    Inv-writes at data_record =
        let all = λ (h : Reader → ℕ). over-update h w.readers t removing in
        let was = λ (h : Reader → ℕ). ap h at in
        let row = λ (h : SensorData → ℕ). tally-append h w.rows (d ∷ []) in
        let no_mark : mark d ≡ 0 = ground arith in
        record {
          cells = i.cells;
          buffer = i.buffer;
          kept =
              λ f. omega (arith, i.kept f, all (held (real f)), was (held (real f)), row (real f));
          markers = omega (arith, i.markers, all (held mark), was (held mark), row mark);
          all_read = i.all_read;
          clean = i.clean;
          clean_rows = omega (arith, i.clean_rows, row mark, no_mark);
          counted = omega (arith, i.counted, all passed, was passed);
          put_back = omega (arith, i.put_back, all stray, was stray);
          begun = i.begun;
          ordered = i.ordered;
          quiet = λ h. i.quiet (omega (arith, h, all (held mark), was (held mark)));
          rested = λ h.
              omega
                (arith, i.rested (omega (arith, h, all asleep, was asleep)), all awake, was awake);
          text = ap (λ x. x ++ csv_line fixed4 d) i.text ∙ csv-append fixed4 input w.rows d;
          budget = omega (arith, i.budget, all reader_left, was reader_left);
        }

    pub Inv-counts :
        w.readers t ≡ got d
        → d.id ≡ 0
        → Inv fixed4 input (suc n) (record w {
          readers = update w.readers t (counted_reader w.eos_count d);
          eos_count = w.eos_count + 1;
        })
    Inv-counts at zero_id =
        let r = counted_reader w.eos_count d in
        let all = λ (h : Reader → ℕ). over-update h w.readers t r in
        let was = λ (h : Reader → ℕ). ap h at in
        let is_mark : mark d ≡ 1 = ground arith in
        let at_least = le-over (held mark) w.readers t in
        let early : w.eos_count ≤ 1 =
          omega (arith, i.counted, over-passed_le w.readers t (was passed)) in
        let (in_hand, unspent, has_passed, harmless, fewer, no_data) =
          counted_reader_weights w.eos_count d zero_id early in
        let no_sleep : asleep r ≡ 0 = counted_reader_awake w.eos_count d in
        let not_real = λ (f : SensorData → ℕ). held_real_mark f d zero_id in
        record {
          cells = i.cells;
          buffer = i.buffer;
          kept = λ f.
              omega
                (arith, i.kept f, all (held (real f)), was (held (real f)), no_data f, not_real f);
          markers =
              omega (arith, i.markers, all (held mark), was (held mark), is_mark, in_hand, unspent);
          all_read = i.all_read;
          clean = i.clean;
          clean_rows = i.clean_rows;
          counted = omega (arith, i.counted, all passed, was passed, has_passed);
          put_back = omega (arith, i.put_back, all stray, was stray, harmless);
          begun = omega (arith, i.markers, at_least, was (held mark), is_mark, early);
          ordered = i.ordered;
          quiet = λ h. i.quiet (omega (arith, at_least, was (held mark), is_mark));
          rested = λ h. omega (
            arith,
            i.rested (omega (arith, h, all asleep, was asleep, no_sleep)),
            all awake,
            was awake,
          );
          text = i.text;
          budget = omega (arith, i.budget, all reader_left, was reader_left, fewer);
        }
