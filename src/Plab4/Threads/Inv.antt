-- ===== src/Plab4/Threads/Inv.antt =====
-- The invariant of the two readers and the writer, and that the writer keeps it.
pub mod Readers
pub mod Reinserts
pub mod Steps
use osc_server.Base.{
  ℕ, suc, ◌+◌, ◌*◌, ◌≤◌, ◌<◌, ◌≡◌, refl, ◌≢◌, Bool, true, false, ◌==◌, ltb, if◌then◌else◌, List, [],
  ◌∷◌, ◌++◌, inl, inr, arith, ap, sym, subst, ◌∙◌, Bool-cases, map,
}
use mathlib.Core.List.{append-nil, append_assoc}
use osc_server.Base.Tally.{tally, tally-append}
use osc_server.Base.Text.{Text, flatten}
use osc_server.Memory.{Store}
use osc_server.Config.{SensorData}
use osc_server.Sbuffer.{SbufferNode, Status, success, failure, empty}
use osc_server.Sbuffer.Chain.{Cells, payloads, IsBuffer}
use osc_server.Storage.{csv_line}
use osc_server.Storage.Csv.{csv}
use osc_server.Plab4.Threads.{
  MainThread, joining, returned, left, ReaderId, Reader, waiting, Signals, removing, got,
  reinserting, reader_ended, Writer, opening, reading, writer_ended, World, update, started,
  lost_by, marker, counted_reader, Insertion, Step, opens, open_fails, inserts, inserts_marker,
  removes, writes, counts, reinserts, joins, Reachable, starts, then_step,
}
use osc_server.Plab4.Threads.Weights.{
  steps_left, unit, writer_left, reader_left, main_left, mark, plain, real, held, passed, over,
  sent, spent, total, MarkLast, over-update, plain_rest, le-over, over-passed_le,
  counted_reader_weights, held_real_mark, stray, mark-add-plain, sent-le,
}
use osc_server.Plab4.Threads.Signalled.{over-Signals, over-reader_left, Rested, Signals-Rested}
use osc_server.Plab4.Threads.Calls.{Grown, Insertion-Grown, removal_lem}

abbrev pub is_joining : MainThread → Bool
is_joining joining = true
is_joining returned = false
is_joining left = false

joining_left : (m : MainThread) → is_joining m ≡ true → main_left m ≡ 1
joining_left joining e = refl
joining_left returned e = cc
joining_left left e = cc

module _ (fixed4 : ℕ → Text) (input : List SensorData) where
  pub record Inv (n : ℕ) (w : World) : Type 0 where
    pub cells : Cells
    pub buffer : is_joining w.main ≡ true → IsBuffer w.shared cells
    -- No record is lost from sight or doubled.
    pub kept : (f : SensorData → ℕ) → total (real f) cells w ≡ tally (real f) input
    -- There is one marker from the writer's end to the last reader's.
    pub markers : total mark cells w + spent w.eos_count ≡ sent w.writer
    pub all_read : sent w.writer ≡ 1 → w.file_in ≡ []
    pub clean : tally mark w.file_in ≡ 0
    pub clean_rows : tally mark w.rows ≡ 0
    pub counted : w.eos_count ≡ over passed w.readers
    -- What a reader is about to put back is the marker.
    pub put_back : over stray w.readers ≡ 0
    pub begun : w.eos_count ≤ 2 * sent w.writer
    pub ordered : MarkLast (payloads cells)
    -- Once a reader has met the marker only the marker can be in the buffer.
    pub quiet : 0 < over (held mark) w.readers + w.eos_count → tally plain (payloads cells) ≡ 0
    -- A reader waits only as long as those at their test can empty the buffer.
    pub rested : Rested cells w.readers
    pub text : w.file_out ≡ csv fixed4 w.rows
    -- After `n` steps.
    pub budget : n + steps_left cells w ≤ 6 * tally unit input + 16

  pub Inv-started : (nodes : Store SbufferNode) → tally mark input ≡ 0 → Inv 0 (started nodes input)
  Inv-started nodes clean = record {
    cells = [];
    buffer = λ j. record { handle = refl; chain = tt };
    kept = λ f. omega arith;
    markers = omega (arith, clean);
    all_read = λ h. absurd (omega (arith, h));
    clean = clean;
    clean_rows = refl;
    counted = refl;
    put_back = refl;
    begun = omega arith;
    ordered = tt;
    quiet = λ h. refl;
    rested = λ h. omega arith;
    text = refl;
    budget = omega arith;
  }

  -- `main` goes on, and the threads do nothing more.
  pub gone_on :
      (n : ℕ) (w : World) (m : MainThread)
      → w.main ≡ joining
      → main_left m ≡ 0
      → (s : _) → Inv n w
      → Inv (suc n) (record w { main = m; shared = s })
  gone_on n w m on past s i = record {
    cells = i.cells;
    buffer = λ j. absurd (omega (arith, past, joining_left m j));
    kept = i.kept;
    markers = i.markers;
    all_read = i.all_read;
    clean = i.clean;
    clean_rows = i.clean_rows;
    counted = i.counted;
    put_back = i.put_back;
    begun = i.begun;
    ordered = i.ordered;
    quiet = i.quiet;
    rested = i.rested;
    text = i.text;
    budget = omega (arith, i.budget, past, ap main_left on);
  }

  pub csv-append :
      (ds : List SensorData) (d : SensorData)
      → csv fixed4 ds ++ csv_line fixed4 d ≡ csv fixed4 (ds ++ d ∷ [])
  csv-append [] d = sym (append-nil (csv_line fixed4 d))
  csv-append (e ∷ ds) d =
      append_assoc (csv_line fixed4 e) (csv fixed4 ds) (csv_line fixed4 d)
      ∙ ap (λ t. csv_line fixed4 e ++ t) (csv-append ds d)

  pub Inv-inserts :
      (w : World) (r d : SensorData) (rest : List SensorData) (st : Status) (n : ℕ) (i : Inv n w)
      → w.writer ≡ reading r
      → w.file_in ≡ d ∷ rest
      → (s : _) (ys : Cells) (rs : ReaderId → Reader) → Grown d st w.lost i.cells ys s
      → Signals st w.readers rs
      → Inv (suc n) (record w {
        shared = s;
        readers = rs;
        writer = reading d;
        file_in = rest;
        lost = lost_by st d w.lost;
      })
  Inv-inserts w r d rest st n i at more s ys rs g woke =
      let still = λ (h : Reader → ℕ) (e : h waiting ≡ h removing). over-Signals h st e woke in
      let not_sent : sent w.writer ≡ 0 = ap sent at in
      let file = λ (h : SensorData → ℕ). ap (tally h) more in
      record {
        cells = ys;
        buffer = λ j. g.buffer;
        kept = λ f.
            omega (arith, i.kept f, g.moved (real f), file (real f), still (held (real f)) refl);
        markers = omega (arith, i.markers, g.moved mark, file mark, still (held mark) refl);
        all_read = λ h. absurd (omega (arith, h));
        clean = omega (arith, i.clean, file mark);
        clean_rows = i.clean_rows;
        counted = omega (arith, i.counted, still passed refl);
        put_back = omega (arith, i.put_back, still stray refl);
        begun = omega (arith, i.begun, not_sent);
        ordered = g.ordered i.ordered (omega (arith, i.markers, not_sent));
        quiet =
            λ h. absurd (omega (arith, h, i.markers, i.begun, not_sent, still (held mark) refl));
        rested = Signals-Rested st d w.lost i.cells ys s g woke i.rested;
        text = i.text;
        budget =
            omega (
              arith,
              i.budget,
              g.most unit,
              file unit,
              ap writer_left at,
              over-reader_left st woke,
            );
      }

  pub Inv-inserts_marker :
      (w : World) (r : SensorData) (st : Status) (n : ℕ) (i : Inv n w)
      → w.writer ≡ reading r
      → w.file_in ≡ []
      → (s : _) (ys : Cells) (rs : ReaderId → Reader) → Grown (marker r) st w.lost i.cells ys s
      → Signals st w.readers rs
      → Inv (suc n) (record w {
        shared = s;
        readers = rs;
        writer = writer_ended;
        lost = lost_by st (marker r) w.lost;
      })
  Inv-inserts_marker w r st n i at over_now s ys rs g woke =
      let still = λ (h : Reader → ℕ) (e : h waiting ≡ h removing). over-Signals h st e woke in
      let not_sent : sent w.writer ≡ 0 = ap sent at in
      record {
        cells = ys;
        buffer = λ j. g.buffer;
        kept = λ f. omega (arith, i.kept f, g.moved (real f), still (held (real f)) refl);
        markers = omega (arith, i.markers, g.moved mark, still (held mark) refl);
        all_read = λ h. over_now;
        clean = i.clean;
        clean_rows = i.clean_rows;
        counted = omega (arith, i.counted, still passed refl);
        put_back = omega (arith, i.put_back, still stray refl);
        begun = omega (arith, i.begun, not_sent);
        ordered = g.ordered i.ordered (omega (arith, i.markers, not_sent));
        quiet =
            λ h. absurd (omega (arith, h, i.markers, i.begun, not_sent, still (held mark) refl));
        rested = Signals-Rested st (marker r) w.lost i.cells ys s g woke i.rested;
        text = i.text;
        budget = omega (arith, i.budget, g.most unit, ap writer_left at, over-reader_left st woke);
      }
