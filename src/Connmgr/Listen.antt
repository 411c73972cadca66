-- ===== src/Connmgr/Listen.antt =====
-- connmgr.c: `connmgr_listen`, its client threads and `excess_client_handler`, as steps between
-- worlds. What a thread does while it holds `conn_mutex` is one step.
pub mod Places
pub mod Inv
pub mod Ends
pub mod Samples
mod Tests
use osc_server.Base.{
  ℕ, ◌+◌, ◌<◌, ◌≤◌, ◌≡◌, ◌==◌, Bool, true, false, List, [], ◌∷◌, ◌++◌, if◌then◌else◌,
}
use osc_server.Base.Text.{Text, codes}
use osc_server.Config.{SensorData}

-- Where the listener is: at the test of its loop with or without the mutex, in
-- `tcp_wait_for_connection`, at the test of the loop around `pthread_cond_wait`, in that call, behind
-- the loop, and at its end, where the buffer took the last record or not.
pub data Pc : Type 0 where
  testing testing_unlocked accepting waiting sleeping closing finished unstored : Pc

-- `pthread_cond_signal` lets a listener that sleeps test again, and is lost on any other.
abbrev pub woken : Pc → Pc
woken testing = testing
woken testing_unlocked = testing_unlocked
woken accepting = accepting
woken waiting = waiting
woken sleeping = waiting
woken closing = closing
woken finished = finished
woken unstored = unstored

-- The globals; `running` counts the client threads that have not ended, and `lost` the clients for
-- which `pthread_create` failed.
pub record World : Type 0 where
  pub pc : Pc
  pub max_conn : ℕ
  pub conn_counter : ℕ
  pub conn_terminations : ℕ
  pub running : ℕ
  pub lost : ℕ
  pub signals : ℕ
  pub excess_handler : Bool
  pub stop_excess_handler : Bool
  pub inserted : List SensorData
  pub log : List Text

abbrev log_line : Text → World → World
log_line msg w = record w { log = w.log ++ msg ∷ [] }

-- `sensor_data_t data = {0}`
abbrev pub end_of_stream_record : SensorData
end_of_stream_record = record { id = 0; value = 0; ts = 0 }

-- After `tcp_passive_open`, with the mutex.
abbrev pub listening : (max_conn : ℕ) → World
listening max_conn = record {
  pc = testing;
  max_conn = max_conn;
  conn_counter = 0;
  conn_terminations = 0;
  running = 0;
  lost = 0;
  signals = 0;
  excess_handler = false;
  stop_excess_handler = false;
  inserted = [];
  log = codes "Test server is started\n" ∷ [];
}

abbrev pub counted : World → World
counted w = record w { pc = testing; conn_counter = w.conn_counter + 1; running = w.running + 1 }

abbrev pub uncreated : World → World
uncreated w =
    log_line (codes "failed to create client thread\n")
      (record w { pc = testing_unlocked; conn_counter = w.conn_counter + 1; lost = w.lost + 1 })

-- The last client of those that connected signals.
abbrev pub client_ended : (n : ℕ) → World → World
client_ended n w = record w {
  pc = if w.conn_terminations + 1 == w.conn_counter then woken w.pc else w.pc;
  running = n;
  conn_terminations = w.conn_terminations + 1;
  signals = if w.conn_terminations + 1 == w.conn_counter then w.signals + 1 else w.signals;
}

pub data Step : World → World → Type 0 where
  -- `while (conn_counter < MAX_CONN)`
  unlocks :
      (w : World)
      → w.pc ≡ testing
      → w.conn_counter < w.max_conn
      → Step w (record w { pc = accepting })
  leaves_loop :
      (w : World)
      → w.pc ≡ testing
      → w.max_conn ≤ w.conn_counter
      → Step w (record w { pc = waiting; excess_handler = true })
  -- The same tests behind a `continue`, which has not taken the mutex. To unlock it or to wait with
  -- it is then undefined; here the listener goes on.
  unlocks_unheld :
      (w : World)
      → w.pc ≡ testing_unlocked
      → w.conn_counter < w.max_conn
      → Step w (record w { pc = accepting })
  waits_unheld :
      (w : World)
      → w.pc ≡ testing_unlocked
      → w.max_conn ≤ w.conn_counter
      → Step w (record w { pc = waiting; excess_handler = true })
  accept_fails :
      (w : World)
      → w.pc ≡ accepting
      → Step w
          (log_line (codes "Failed to wait for connection\n") (record w { pc = testing_unlocked }))
  -- A client, whose thread starts or not, or that is one too many.
  accepts :
      (w : World)
      → w.pc ≡ accepting
      → w.conn_counter < w.max_conn
      → Step w (counted (log_line (codes "Incoming client connection\n") w))
  create_fails :
      (w : World)
      → w.pc ≡ accepting
      → w.conn_counter < w.max_conn
      → Step w (uncreated (log_line (codes "Incoming client connection\n") w))
  turns_away :
      (w : World)
      → w.pc ≡ accepting
      → w.max_conn ≤ w.conn_counter
      → Step w (log_line (codes "Incoming client connection\n") (record w { pc = testing }))
  -- A client thread inserts a record, and ends.
  client_inserts :
      (w : World) (n : ℕ) (d : SensorData)
      → w.running ≡ n + 1
      → Step w (record w { inserted = w.inserted ++ d ∷ [] })
  client_ends : (w : World) (n : ℕ) → w.running ≡ n + 1 → Step w (client_ended n w)
  -- The excess thread turns a client away.
  rejects :
      (w : World)
      → w.excess_handler ≡ true
      → w.stop_excess_handler ≡ false
      → w.max_conn ≤ w.conn_counter
      → Step w (
          log_line
            (codes "Closed excess client socket\n")
            (log_line (codes "Rejecting excess client connection\n") w))
  -- `while (conn_terminations < MAX_CONN)`
  sleeps :
      (w : World)
      → w.pc ≡ waiting
      → w.conn_terminations < w.max_conn
      → Step w (record w { pc = sleeping })
  wakes :
      (w : World)
      → w.pc ≡ waiting
      → w.max_conn ≤ w.conn_terminations
      → Step w (record w { pc = closing; stop_excess_handler = true })
  excess_ends :
      (w : World)
      → w.excess_handler ≡ true
      → w.stop_excess_handler ≡ true
      → Step w (
          log_line
            (codes "Excess client handler terminating\n")
            (record w { excess_handler = false }))
  -- After `pthread_join`.
  ends_stream :
      (w : World)
      → w.pc ≡ closing
      → w.excess_handler ≡ false
      → Step w (
          log_line
            (codes "Test server is shutting down\n")
            (record w { pc = finished; inserted = w.inserted ++ end_of_stream_record ∷ [] }))
  -- The result of `sbuffer_insert` is not looked at.
  ends_unstored :
      (w : World)
      → w.pc ≡ closing
      → w.excess_handler ≡ false
      → Step w (log_line (codes "Test server is shutting down\n") (record w { pc = unstored }))

pub data Reachable (max_conn : ℕ) : World → Type 0 where
  starts : Reachable max_conn (listening max_conn)
  then_step : {w v : World} → Reachable max_conn w → Step w v → Reachable max_conn v
