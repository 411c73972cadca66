-- ===== src/Plab3.antt =====
-- plab_1-4_solutions/startcode_plab3/startcode_plab3/test_server.c: the thread of a client. What its
-- calls of `tcp_receive` give is a list of rounds of its loop; the model runs out where the thread
-- would go on receiving. `general` is what `%g` prints.
pub mod Receptions
pub mod Server
mod Tests
use osc_server.Base.{ℕ, List, [], ◌∷◌, ◌++◌, Bool, true, false, not, if◌then◌else◌}
use osc_server.Base.Text.{Text, codes, decimal}
use osc_server.Memory.{Cmd, ok, pure, out_of_fuel, wait, ◌>>=◌, ◌>>◌}
use osc_server.Config.{SensorData}
use osc_server.Storage.{long_decimal}
use osc_server.Connmgr.{TcpResult, is_no_error, is_closed, Connections, locked, terminated}

-- For each field a result and the field after it.
pub record Reception : Type 0 where
  pub id_result : TcpResult
  pub id : ℕ
  pub value_result : TcpResult
  pub value : ℕ
  pub ts_result : TcpResult
  pub ts : ℕ

-- The locals of the handler, whether its socket is open, the printed lines and the shared counters.
pub record Handler : Type 0 where
  pub sensor_data : SensorData
  pub result : TcpResult
  pub client_open : Bool
  pub printed : List Text
  pub connections : Connections

abbrev print : Text → Cmd Handler (Unit {0})
print line s = ok tt (record s { printed = s.printed ++ line ∷ [] })

abbrev receive_id : Reception → Cmd Handler (Unit {0})
receive_id r s =
    ok tt (record s { sensor_data = record s.sensor_data { id = r.id }; result = r.id_result })

abbrev receive_value : Reception → Cmd Handler (Unit {0})
receive_value r s =
    ok tt
      (record s { sensor_data = record s.sensor_data { value = r.value }; result = r.value_result })

abbrev receive_ts : Reception → Cmd Handler (Unit {0})
receive_ts r s =
    ok tt (record s { sensor_data = record s.sensor_data { ts = r.ts }; result = r.ts_result })

abbrev pub closing_line : TcpResult → Text
closing_line result =
    if is_closed result
    then codes "Peer has closed connection\n"
    else codes "Error occurred on connection to peer\n"

abbrev close_client : Cmd Handler (Unit {0})
close_client s = ok tt (record s { client_open = false })

-- `pthread_mutex_lock` to `pthread_mutex_unlock`
pub count_off : Cmd Handler (Unit {0})
count_off s =
    if locked s.connections
    then wait s
    else ok tt (record s { connections = terminated s.connections })

module _ (general : ℕ → Text) where
  abbrev pub measurement_line : SensorData → Text
  measurement_line d =
      codes "sensor id = "
      ++ decimal d.id
      ++ codes " - temperature = "
      ++ general d.value
      ++ codes " - timestamp = "
      ++ long_decimal d.ts
      ++ codes "\n"

  -- A round of the loop; the result is whether it goes on.
  pub receive_round : Reception → Cmd Handler Bool
  receive_round r = do
    receive_id r
    if not (is_no_error r.id_result) then pure false else do
      receive_value r
      if not (is_no_error r.value_result) then pure false else do
        receive_ts r
        if not (is_no_error r.ts_result)
            then pure false
            else do λ s. print (measurement_line s.sensor_data) s; λ s. ok (is_no_error s.result) s

  pub receive_rounds : List Reception → Cmd Handler (Unit {0})
  unfolding receive_round
  receive_rounds [] s = out_of_fuel
  receive_rounds (r ∷ rs) s =
      let rest = receive_rounds rs in (receive_round r >>= λ on. if on then rest else pure tt) s

  pub client_handler : List Reception → Cmd Handler (Unit {0})
  unfolding receive_rounds count_off
  client_handler rounds = do
    receive_rounds rounds
    λ s. print (closing_line s.result) s
    close_client
    count_off
