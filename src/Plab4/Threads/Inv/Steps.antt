-- ===== src/Plab4/Threads/Inv/Steps.antt =====
-- Every step keeps the invariant.
use osc_server.Base.{ℕ, suc, ◌≡◌, refl, List, arith, ap}
use osc_server.Base.Tally.{tally}
use osc_server.Base.Text.{Text}
use osc_server.Memory.{Store}
use osc_server.Config.{SensorData}
use osc_server.Sbuffer.{SbufferNode}
use osc_server.Plab4.Threads.{
  returned, left, World, marker, Step, opens, open_fails, inserts, inserts_marker, waits, removes,
  writes, counts, reinserts, joins, Reachable, starts, then_step,
}
use osc_server.Plab4.Threads.Weights.{writer_left, mark, sent}
use osc_server.Plab4.Threads.Calls.{Insertion-Grown, removal_lem, waits-nil}
use osc_server.Plab4.Threads.Inv.{
  Inv, gone_on, is_joining, Inv-started, Inv-inserts, Inv-inserts_marker,
}
use osc_server.Plab4.Threads.Inv.Readers.{Inv-removes, Inv-waits, Inv-writes, Inv-counts}
use osc_server.Plab4.Threads.Inv.Reinserts.{Inv-reinserts}

module _ (fixed4 : ℕ → Text) (input : List SensorData) where
  pub Inv-Step :
      (n : ℕ) {w v : World} → Step fixed4 w v → Inv fixed4 input n w → Inv fixed4 input (suc n) v
  Inv-Step n (opens w r on at) i =
      let not_sent : sent w.writer ≡ 0 = ap sent at in
      record {
        cells = i.cells;
        buffer = i.buffer;
        kept = i.kept;
        markers = omega (arith, i.markers, not_sent);
        all_read = λ h. absurd (omega (arith, h));
        clean = i.clean;
        clean_rows = i.clean_rows;
        counted = i.counted;
        put_back = i.put_back;
        begun = omega (arith, i.begun, not_sent);
        ordered = i.ordered;
        quiet = i.quiet;
        rested = i.rested;
        text = i.text;
        budget = omega (arith, i.budget, ap writer_left at);
      }
  Inv-Step n (open_fails w on at) i = gone_on fixed4 input n w left on refl w.shared i
  Inv-Step n (inserts w r d rest st s rs on at more call woke) i =
      let (ys, g) =
        Insertion-Grown w.shared s i.cells d st w.lost (i.buffer (ap is_joining on)) call in
      Inv-inserts fixed4 input w r d rest st n i at more s ys rs g woke
  Inv-Step n (inserts_marker w r st s rs on at more call woke) i =
      let (ys, g) =
        Insertion-Grown w.shared s i.cells (marker r) st w.lost (i.buffer (ap is_joining on))
          call in
      Inv-inserts_marker fixed4 input w r st n i at more s ys rs g woke
  Inv-Step n (waits w t old on at call) i =
      Inv-waits fixed4 input w t old n i at
        (waits-nil w.shared i.cells old (i.buffer (ap is_joining on)) call)
  Inv-Step n (removes w t old d st s on at call) i =
      let (p, ys, cut, is) =
        removal_lem w.shared s i.cells old d st (i.buffer (ap is_joining on)) call in
      Inv-removes fixed4 input w t d n i at s p ys cut is
  Inv-Step n (writes w t d on at data_record) i = Inv-writes fixed4 input w t d n i at data_record
  Inv-Step n (counts w t d on at zero_id) i = Inv-counts fixed4 input w t d n i at zero_id
  Inv-Step n (reinserts w t d st s rs on at call woke) i =
      let (ys, g) =
        Insertion-Grown w.shared s i.cells d st w.lost (i.buffer (ap is_joining on)) call in
      Inv-reinserts fixed4 input w t d n i at st s ys rs g woke
  Inv-Step n (joins w fuel s on at first second call) i =
      gone_on fixed4 input n w returned on refl s i

  pub Inv-Reachable :
      (nodes : Store SbufferNode) {n : ℕ} {w : World}
      → tally mark input ≡ 0
      → Reachable fixed4 nodes input n w
      → Inv fixed4 input n w
  Inv-Reachable nodes clean starts = Inv-started fixed4 input nodes clean
  Inv-Reachable nodes clean (then_step r st) = Inv-Step _ st (Inv-Reachable nodes clean r)
