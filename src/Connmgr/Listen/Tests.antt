-- ===== src/Connmgr/Listen/Tests.antt =====
-- A run of the listener with one client, and the theorems at its worlds.
use osc_server.Base.{◌+◌, ◌≤◌, ◌<◌, inl, ◌≡◌, refl, false, List, [], ◌∷◌, ◌++◌, arith}
use osc_server.Base.Text.{codes}
use osc_server.Config.{SensorData}
use osc_server.Connmgr.Listen.{
  World, finished, waiting, accepting, listening, uncreated, end_of_stream_record, Reachable,
  starts, then_step, unlocks, create_fails,
}
use osc_server.Connmgr.Listen.Places.{past_wait}
use osc_server.Connmgr.Listen.Samples.{
  sample, one_ended, one_ended-Reachable, all_done, all_done-Reachable,
}
use osc_server.Connmgr.Listen.Ends.{
  Reachable-bounded, finished-end_of_stream_record, lost-waits, waiting-finished,
}

Reachable-bounded_example :
    (all_done.conn_counter ≡ all_done.conn_terminations + all_done.running + all_done.lost)
    × (all_done.conn_counter ≤ 1)
Reachable-bounded_example = Reachable-bounded 1 all_done all_done-Reachable

finished-end_of_stream_record_example :
    (all_done.conn_terminations ≡ 1)
    × (all_done.running ≡ 0)
    × ((ds : List SensorData) × (all_done.inserted ≡ ds ++ end_of_stream_record ∷ []))
finished-end_of_stream_record_example =
    finished-end_of_stream_record 1 all_done all_done-Reachable refl

waiting-finished_example :
    (one_ended.pc ≡ waiting)
    × ((v : World) × Reachable 1 v
        × (v.pc ≡ finished)
        × (v.inserted ≡ sample ∷ end_of_stream_record ∷ []))
waiting-finished_example = waiting-finished 1 one_ended one_ended-Reachable (inl refl) refl refl

abbrev one_lost : World
one_lost = uncreated (record (listening 1) {
  pc = accepting;
  log = codes "Test server is started\n" ∷ codes "Incoming client connection\n" ∷ [];
})

one_lost-Reachable : Reachable 1 one_lost
one_lost-Reachable =
    then_step (then_step starts (unlocks (listening 1) refl (omega arith)))
      (create_fails (record (listening 1) { pc = accepting }) refl (omega arith))

lost-waits_example : (one_lost.conn_terminations < 1) × (past_wait one_lost.pc ≡ false)
lost-waits_example = lost-waits 1 one_lost one_lost-Reachable (omega arith)
