-- ===== src/Plab3/Server.antt =====
-- test_server.c, `main` and its client threads, as steps between worlds. What a thread does while it
-- holds `conn_mutex` is one step.
pub mod Inv
pub mod Ends
use osc_server.Base.{
  ℕ, ◌+◌, ◌<◌, ◌≤◌, ◌≡◌, ◌==◌, Bool, true, false, Option, none, some, List, [], ◌∷◌, ◌++◌,
  if◌then◌else◌,
}
use osc_server.Base.Int.{ℤ, pos, negsuc}
use osc_server.Base.Text.{Text, codes}
use osc_server.Main.{atoi}
use osc_server.Connmgr.{TcpResult, is_no_error}

-- Where `main` is: at the test of its loop with or without the mutex, in `tcp_wait_for_connection`,
-- before `pthread_create`, past the limit with one more client, in the loop around
-- `pthread_cond_wait`, behind it, at its end, after a failed `tcp_close`, or past an unlock of a
-- mutex that it does not hold.
pub data Pc : Type 0 where
  testing testing_unlocked accepting creating rejecting waiting closing finished failed faulted : Pc

-- The globals; `running` counts the client threads that have not ended, `lost` the clients for which
-- `pthread_create` failed, and `clients_closed` the sockets that `main` itself closed.
pub record Server : Type 0 where
  pub pc : Pc
  pub max_conn : ℕ
  pub conn_counter : ℕ
  pub conn_terminations : ℕ
  pub running : ℕ
  pub lost : ℕ
  pub clients_closed : ℕ
  pub signals : ℕ
  pub server_open : Bool
  pub printed : List Text

abbrev print : Text → Server → Server
print line w = record w { printed = w.printed ++ line ∷ [] }

-- After `tcp_passive_open`, with the mutex.
abbrev pub serving : (max_conn : ℕ) → Server
serving max_conn = record {
  pc = testing;
  max_conn = max_conn;
  conn_counter = 0;
  conn_terminations = 0;
  running = 0;
  lost = 0;
  clients_closed = 0;
  signals = 0;
  server_open = true;
  printed = codes "Test server is started\n" ∷ [];
}

-- A limit below 0 is as good as 0.
abbrev limit : ℤ → ℕ
limit (pos n) = n
limit (negsuc n) = 0

pub data Begun : Type 0 where
  no_arguments : List Text → Begun
  not_opened : List Text → Begun
  begun : Server → Begun

-- `main` up to its loop; the arguments start with the name of the program.
unfoldable pub begin : List Text → (open_result : TcpResult) → Begun
begin (name ∷ port ∷ max ∷ rest) open_result =
    if is_no_error open_result
    then begun (serving (limit (atoi max)))
    else not_opened (codes "Test server is started\n" ∷ [])
begin args open_result = no_arguments (
    codes "Please provide the right arguments: first the port, then the max number of clients\n"
    ∷ [])

abbrev incoming : Server → Server
incoming w = print (codes "Incoming client connection\n") w

abbrev pub client_ended : (n : ℕ) → Server → Server
client_ended n w = record w {
  running = n;
  conn_terminations = w.conn_terminations + 1;
  signals = if w.conn_terminations + 1 == w.conn_counter then w.signals + 1 else w.signals;
}

pub data Step : Server → Server → Type 0 where
  -- `while (conn_counter < MAX_CONN)`
  unlocks :
      (w : Server)
      → w.pc ≡ testing
      → w.conn_counter < w.max_conn
      → Step w (record w { pc = accepting })
  leaves_loop :
      (w : Server)
      → w.pc ≡ testing
      → w.max_conn ≤ w.conn_counter
      → Step w (record w { pc = waiting })
  -- Behind a `continue`, which has not taken the mutex, it is unlocked or waited with.
  unheld : (w : Server) → w.pc ≡ testing_unlocked → Step w (record w { pc = faulted })
  accept_fails : (w : Server) → w.pc ≡ accepting → Step w (record w { pc = testing_unlocked })
  -- A client, who is counted, or who is one too many.
  accepts :
      (w : Server)
      → w.pc ≡ accepting
      → w.conn_counter < w.max_conn
      → Step w (
          print
            (codes "Incoming client connection succeeded\n")
            (incoming (record w { pc = creating; conn_counter = w.conn_counter + 1 })))
  turns_away :
      (w : Server)
      → w.pc ≡ accepting
      → w.max_conn ≤ w.conn_counter
      → Step w (
          print
            (codes "Max number of clients reached. New connection rejected.\n")
            (incoming (record w { pc = rejecting })))
  closes_rejected :
      (w : Server)
      → w.pc ≡ rejecting
      → Step w (record w { pc = testing; clients_closed = w.clients_closed + 1 })
  -- `pthread_create`; the mutex is not held.
  creates :
      (w : Server) → w.pc ≡ creating → Step w (record w { pc = testing; running = w.running + 1 })
  create_fails :
      (w : Server)
      → w.pc ≡ creating
      → Step w (record w {
        pc = testing_unlocked;
        lost = w.lost + 1;
        clients_closed = w.clients_closed + 1;
      })
  -- A client thread ends.
  client_ends : (w : Server) (n : ℕ) → w.running ≡ n + 1 → Step w (client_ended n w)
  -- `while (conn_terminations < MAX_CONN)`
  wakes :
      (w : Server)
      → w.pc ≡ waiting
      → w.max_conn ≤ w.conn_terminations
      → Step w (record w { pc = closing })
  closes :
      (w : Server)
      → w.pc ≡ closing
      → Step w (
          print
            (codes "Test server is shutting down\n")
            (record w { pc = finished; server_open = false }))
  close_fails : (w : Server) → w.pc ≡ closing → Step w (record w { pc = failed })

pub data Reachable (max_conn : ℕ) : Server → Type 0 where
  starts : Reachable max_conn (serving max_conn)
  then_step : {w v : Server} → Reachable max_conn w → Step w v → Reachable max_conn v
