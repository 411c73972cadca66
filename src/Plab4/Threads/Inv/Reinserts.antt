-- ===== src/Plab4/Threads/Inv/Reinserts.antt =====
-- A reader that puts the marker back keeps the invariant.
use osc_server.Base.{ℕ, suc, refl, ◌≡◌, List, arith, ap}
use osc_server.Base.Text.{Text}
use osc_server.Config.{SensorData}
use osc_server.Sbuffer.{Status}
use osc_server.Sbuffer.Chain.{Cells}
use osc_server.Plab4.Threads.{
  ReaderId, Reader, removing, waiting, Signals, reinserting, reader_ended, World, update, lost_by,
}
use osc_server.Plab4.Threads.Weights.{
  unit, reader_left, mark, plain, real, held, passed, over-update, le-over, awake, asleep, stray,
  mark-add-plain, sent-le,
}
use osc_server.Plab4.Threads.Signalled.{
  over-Signals, over-reader_left, reinserting-Signals, Signals-Rested,
}
use osc_server.Plab4.Threads.Calls.{Grown}
use osc_server.Plab4.Threads.Inv.{Inv}

module _ (fixed4 : ℕ → Text) (input : List SensorData) where
  module _ (w : World) (t : ReaderId) (d : SensorData) (n : ℕ) (i : Inv fixed4 input n w) where
    pub Inv-reinserts :
        w.readers t ≡ reinserting d
        → (st : Status) (s : _) (ys : Cells) (rs : ReaderId → Reader)
        → Grown d st w.lost i.cells ys s
        → Signals st w.readers rs
        → Inv fixed4 input (suc n) (record w {
          shared = s;
          readers = update rs t reader_ended;
          lost = lost_by st d w.lost;
        })
    Inv-reinserts at st s ys rs g woke =
        let at' = reinserting-Signals st t d woke at in
        let still = λ (h : Reader → ℕ) (e : h waiting ≡ h removing). over-Signals h st e woke in
        let all = λ (h : Reader → ℕ). over-update h rs t reader_ended in
        let now = λ (h : Reader → ℕ). ap h at' in
        let was = λ (h : Reader → ℕ). ap h at in
        let at_least = le-over passed w.readers t in
        let in_hand = le-over (held mark) w.readers t in
        let is_marker = le-over stray w.readers t in
        record {
          cells = ys;
          buffer = λ j. g.buffer;
          kept = λ f. omega (
            arith,
            i.kept f,
            all (held (real f)),
            now (held (real f)),
            still (held (real f)) refl,
            g.moved (real f),
          );
          markers = omega (
            arith,
            i.markers,
            all (held mark),
            now (held mark),
            still (held mark) refl,
            g.moved mark,
          );
          all_read = i.all_read;
          clean = i.clean;
          clean_rows = i.clean_rows;
          counted = omega (arith, i.counted, all passed, now passed, still passed refl);
          put_back = omega (arith, i.put_back, all stray, now stray, still stray refl);
          begun = i.begun;
          ordered = g.ordered i.ordered (
              omega (
                arith,
                i.markers,
                i.put_back,
                in_hand,
                is_marker,
                was (held mark),
                was stray,
                mark-add-plain d,
                sent-le w.writer,
              ));
          quiet = λ h. omega (
            arith,
            i.quiet (omega (arith, i.counted, at_least, was passed)),
            g.most plain,
            i.put_back,
            is_marker,
            was stray,
          );
          rested = λ h.
              let before = Signals-Rested st d w.lost i.cells ys s g woke i.rested in
              omega
                (arith, before (omega (arith, h, all asleep, now asleep)), all awake, now awake);
          text = i.text;
          budget = omega (
            arith,
            i.budget,
            all reader_left,
            now reader_left,
            over-reader_left st woke,
            g.most unit,
          );
        }
