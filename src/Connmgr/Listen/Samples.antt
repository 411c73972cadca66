-- ===== src/Connmgr/Listen/Samples.antt =====
-- A run of the listener with one client, for the tests.
use osc_server.Base.{refl, true, false, [], ◌∷◌, arith}
use osc_server.Base.Text.{codes}
use osc_server.Config.{SensorData}
use osc_server.Connmgr.Listen.{
  World, finished, waiting, accepting, listening, counted, end_of_stream_record, Reachable, starts,
  then_step, unlocks, accepts, leaves_loop, client_inserts, client_ends, sleeps, wakes, excess_ends,
  ends_stream,
}

abbrev pub sample : SensorData
sample = record { id = 15; value = 20; ts = 7 }

-- The client has connected, sent a record and gone.
abbrev pub one_ended : World
one_ended = record {
  pc = waiting;
  max_conn = 1;
  conn_counter = 1;
  conn_terminations = 1;
  running = 0;
  lost = 0;
  signals = 1;
  excess_handler = true;
  stop_excess_handler = false;
  inserted = sample ∷ [];
  log = codes "Test server is started\n" ∷ codes "Incoming client connection\n" ∷ [];
}

one_accepted : Reachable 1 (
    counted (record (listening 1) {
      pc = accepting;
      log = codes "Test server is started\n" ∷ codes "Incoming client connection\n" ∷ [];
    }))
one_accepted =
    then_step (then_step starts (unlocks (listening 1) refl (omega arith)))
      (accepts (record (listening 1) { pc = accepting }) refl (omega arith))

pub one_ended-Reachable : Reachable 1 one_ended
one_ended-Reachable =
    then_step
      (then_step
        (then_step (then_step one_accepted (client_inserts _ 0 sample refl))
          (leaves_loop _ refl (omega arith)))
        (sleeps _ refl (omega arith)))
      (client_ends _ 0 refl)

abbrev pub all_done : World
all_done = record one_ended {
  pc = finished;
  excess_handler = false;
  stop_excess_handler = true;
  inserted = sample ∷ end_of_stream_record ∷ [];
  log =
      codes "Test server is started\n"
      ∷ codes "Incoming client connection\n"
      ∷ codes "Excess client handler terminating\n"
      ∷ codes "Test server is shutting down\n"
      ∷ [];
}

pub all_done-Reachable : Reachable 1 all_done
all_done-Reachable =
    then_step
      (then_step (then_step one_ended-Reachable (wakes _ refl (omega arith)))
        (excess_ends _ refl refl))
      (ends_stream _ refl refl)
