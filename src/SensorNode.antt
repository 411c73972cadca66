-- ===== src/SensorNode.antt =====
-- TCP_SensorMonitoringSystem/project/sensor_node.c: the program of a sensor node, compiled with
-- LOG_SENSOR_DATA. What the calls of `tcp_send`, `drand48` and `time` give is a list of
-- measurements, and `connect` is the result of `tcp_active_open`; the model runs out where the node
-- would go on measuring.
pub mod Stream
mod Tests
use osc_server.Base.{
  ℕ, zero, suc, ◌+◌, ◌-◌, ◌%◌, ◌^◌, Bool, true, false, not, List, [], ◌∷◌, ◌++◌, ◌==◌, ltb, take,
  if◌then◌else◌,
}
use osc_server.Base.Int.{ℤ, pos, negsuc}
use osc_server.Base.Bytes.{to_bytes}
use osc_server.Base.Text.{Text, codes, decimal}
use osc_server.Memory.{Cmd, ok, pure, out_of_fuel, ◌>>=◌, ◌>>◌}
use osc_server.Config.{SensorData}
use osc_server.Storage.{long_decimal}
use osc_server.Connmgr.{TcpResult, is_no_error}
use osc_server.Main.{Status, exit_success, exit_failure, atoi}

-- One round of the loop: the new temperature, the time, and what the three calls of `tcp_send` give.
pub record Measurement : Type 0 where
  pub temperature : ℕ
  pub ts : ℕ
  pub id_sent : TcpResult
  pub value_sent : TcpResult
  pub ts_sent : TcpResult

-- The bytes that were sent, the log file, and whether the socket is open.
pub record Node : Type 0 where
  pub wire : List ℕ
  pub log_file : Text
  pub client_open : Bool

-- `tcp_send` of all the bytes, and whether it gives TCP_NO_ERROR.
abbrev send : TcpResult → List ℕ → Cmd Node Bool
send r bytes s = if is_no_error r then ok true (record s { wire = s.wire ++ bytes }) else ok false s

-- A 16-bit field set to an int.
abbrev pub to_short : ℤ → ℕ
to_short (pos n) = n % 2 ^ 16
to_short (negsuc n) = 65535 - n % 2 ^ 16

module _ (general : ℕ → Text) where
  -- `"%" PRIu16 " %g %ld\n"`, where `general` is what `%g` prints.
  abbrev pub log_line : (id : ℕ) → Measurement → Text
  log_line id m =
      decimal id
      ++ (codes " " ++ (general m.temperature ++ (codes " " ++ (long_decimal m.ts ++ codes "\n"))))

  abbrev log_data : (id : ℕ) → Measurement → Cmd Node (Unit {0})
  log_data id m s = ok tt (record s { log_file = s.log_file ++ log_line id m })

  -- Whether the three fields were sent.
  pub send_measurement : (id : ℕ) → Measurement → Cmd Node Bool
  send_measurement id m = do
    id_sent ← send m.id_sent (to_bytes 2 id)
    if not id_sent then pure false else do
      value_sent ← send m.value_sent (to_bytes 8 m.temperature)
      if not value_sent then pure false else do
        ts_sent ← send m.ts_sent (to_bytes 8 m.ts)
        if not ts_sent then pure false else do log_data id m; pure true

  -- `while (i)`; the loop counts down only if LOOPS is above one.
  pub send_loop : (id loops : ℕ) (counts_down : Bool) → List Measurement → Cmd Node Bool
  unfolding send_measurement
  send_loop id zero counts_down ms = pure true
  send_loop id (suc i) counts_down [] = λ _. out_of_fuel
  send_loop id (suc i) counts_down (m ∷ ms) =
      let rest = send_loop id (if counts_down then i else suc i) counts_down ms in
      do sent ← send_measurement id m; if sent then rest else pure false

  abbrev close_client : Cmd Node (Unit {0})
  close_client s = ok tt (record s { client_open = false })

  run_node : (id loops : ℕ) (counts_down closed : Bool) → List Measurement → Cmd Node Status
  unfolding send_loop
  run_node id loops counts_down closed ms = do
    all_sent ← send_loop id loops counts_down ms
    if not all_sent
        then pure exit_failure
        else if not closed
        then pure exit_failure
        else do close_client; pure exit_success

  open_client : Cmd Node (Unit {0})
  open_client s = ok tt (record s { client_open = true })

  -- `loops` is the macro LOOPS. `print_help` only prints.
  pub node_main :
      (connect : (server_ip : Text) (server_port : ℤ) → TcpResult) (loops : ℕ)
      (log_opened closed : Bool) (argv : List Text)
      → List Measurement
      → Cmd Node Status
  unfolding run_node open_client
  node_main connect loops false closed argv ms = pure exit_failure
  node_main connect loops true closed (id ∷ sleep_time ∷ server_ip ∷ server_port ∷ []) ms =
      if is_no_error (connect (take 15 server_ip) (atoi server_port))
      then open_client
        >> run_node (to_short (atoi id)) (if ltb 1 loops then loops else 1) (ltb 1 loops) closed ms
      else pure exit_failure
  node_main connect loops true closed argv ms = pure exit_success
