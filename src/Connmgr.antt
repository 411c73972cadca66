-- ===== src/Connmgr.antt =====
-- TCP_SensorMonitoringSystem/project/connmgr.c: the thread that serves one sensor node. What its
-- calls of `tcp_receive` and `time` give is a list of rounds of its loop; the model runs out where
-- the thread would go on receiving.
pub mod Rounds
pub mod Client
pub mod Wire
pub mod Listen
mod Tests
use osc_server.Base.{ℕ, ◌+◌, List, [], ◌∷◌, ◌++◌, Bool, true, false, not, ltb, ◌==◌, if◌then◌else◌}
use osc_server.Base.Text.{Text, codes}
use osc_server.Memory.{Cmd, ok, pure, out_of_fuel, wait, ◌>>=◌, ◌>>◌}
use osc_server.Config.{SensorData}
use osc_server.Logger.Messages.{
  connection_message, insert_message, termination_message, timeout_message,
}

-- The results of lib/tcpsock.h.
pub data TcpResult : Type 0 where
  no_error address_error socket_error socket_op_error connection_closed memory_error : TcpResult

abbrev pub is_no_error : TcpResult → Bool
is_no_error no_error = true
is_no_error address_error = false
is_no_error socket_error = false
is_no_error socket_op_error = false
is_no_error connection_closed = false
is_no_error memory_error = false

abbrev pub is_closed : TcpResult → Bool
is_closed connection_closed = true
is_closed no_error = false
is_closed address_error = false
is_closed socket_error = false
is_closed socket_op_error = false
is_closed memory_error = false

-- What the calls of one round give: the clock, and for each field a result and the field after it.
pub record Round : Type 0 where
  pub start_time : ℕ
  pub id_result : TcpResult
  pub id : ℕ
  pub value_result : TcpResult
  pub value : ℕ
  pub ts_result : TcpResult
  pub ts : ℕ
  pub current_time : ℕ

-- The counters that the threads share, with `conn_mutex`, and how often `conn_cond` was signalled.
pub record Connections : Type 0 where
  pub conn_mutex : Bool
  pub conn_counter : ℕ
  pub conn_terminations : ℕ
  pub signals : ℕ

-- The locals of the handler, whether its socket is open, the messages for the log, the records
-- handed to `sbuffer_insert`, whose result is not used, and the shared counters.
pub record Handler : Type 0 where
  pub sensor_data : SensorData
  pub result : TcpResult
  pub logged_already : Bool
  pub sensor_id : ℕ
  pub has_timeout : Bool
  pub client_open : Bool
  pub log : List Text
  pub inserted : List SensorData
  pub connections : Connections

abbrev pub emit : Text → Cmd Handler (Unit {0})
emit msg s = ok tt (record s { log = s.log ++ msg ∷ [] })

-- The three calls of `tcp_receive`.
abbrev receive_id : Round → Cmd Handler (Unit {0})
receive_id r s =
    ok tt (record s { sensor_data = record s.sensor_data { id = r.id }; result = r.id_result })

abbrev receive_value : Round → Cmd Handler (Unit {0})
receive_value r s =
    ok tt
      (record s { sensor_data = record s.sensor_data { value = r.value }; result = r.value_result })

abbrev receive_ts : Round → Cmd Handler (Unit {0})
receive_ts r s =
    ok tt (record s { sensor_data = record s.sensor_data { ts = r.ts }; result = r.ts_result })

-- On the first record the id of the sensor node is logged.
pub log_first : Cmd Handler (Unit {0})
log_first s =
    if s.logged_already
    then ok tt s
    else ok tt (record s {
      logged_already = true;
      sensor_id = s.sensor_data.id;
      log = s.log ++ connection_message s.sensor_data.id ∷ [];
    })

abbrev pub insert_record : Cmd Handler (Unit {0})
insert_record s = ok tt (record s {
  inserted = s.inserted ++ s.sensor_data ∷ [];
  log = s.log ++ insert_message s.sensor_id ∷ [];
})

-- One round, with the timeout in seconds; the result is whether the loop goes on.
pub handle_round : (timeout : ℕ) → Round → Cmd Handler Bool
unfolding log_first
handle_round timeout r = do
  receive_id r
  if not (is_no_error r.id_result) then pure false else do
    log_first
    receive_value r
    if not (is_no_error r.value_result) then pure false else do
      receive_ts r
      if not (is_no_error r.ts_result)
          then pure false
          else if ltb (r.start_time + timeout) r.current_time
          then (λ s. ok false (record s { has_timeout = true }))
          else do insert_record; pure true

pub handle_rounds : (timeout : ℕ) → List Round → Cmd Handler (Unit {0})
unfolding handle_round
handle_rounds timeout [] s = out_of_fuel
handle_rounds timeout (r ∷ rs) s =
    let rest = handle_rounds timeout rs in
    (handle_round timeout r >>= λ on. if on then rest else pure tt) s

-- The message at the end of the loop.
abbrev pub last_message : (result : TcpResult) (has_timeout : Bool) (id : ℕ) → Text
last_message result has_timeout id =
    if is_closed result
    then termination_message id
    else if has_timeout
    then timeout_message id
    else codes "Peer connection error\n"

abbrev pub locked : Connections → Bool
locked c = c.conn_mutex

-- `pthread_mutex_lock` to `pthread_mutex_unlock`: a client less, and a signal if it was the last.
abbrev pub terminated : Connections → Connections
terminated c = record c {
  conn_terminations = c.conn_terminations + 1;
  signals = if c.conn_terminations + 1 == c.conn_counter then c.signals + 1 else c.signals;
}

pub end_connection : Cmd Handler (Unit {0})
end_connection s =
    if locked s.connections
    then wait s
    else ok tt (record s { connections = terminated s.connections })

pub client_handler : (timeout : ℕ) → List Round → Cmd Handler (Unit {0})
unfolding handle_rounds end_connection
client_handler timeout rounds = do
  λ s. ok tt (record s { has_timeout = false; logged_already = false; sensor_id = 0 })
  handle_rounds timeout rounds
  λ s. emit (last_message s.result s.has_timeout s.sensor_id) s
  λ s. ok tt (record s { client_open = false })
  end_connection

-- The handler of a signal to the thread, which leaves the thread after it.
pub signal_handler : Cmd Handler (Unit {0})
signal_handler = emit (codes "Client thread received exit signal, closing\n")
