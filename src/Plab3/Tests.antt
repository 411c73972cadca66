-- ===== src/Plab3/Tests.antt =====
-- Runs of the test server, and its theorems at concrete connections.
use osc_server.Base.{ℕ, ◌≡◌, refl, true, false, [], ◌∷◌, ◌++◌, arith}
use osc_server.Base.Text.{Text, codes, decimal}
use osc_server.Base.Digits.{digits_value}
use osc_server.Memory.Returns.{Returns}
use osc_server.Connmgr.{no_error, connection_closed}
use osc_server.Main.{atoi}
use osc_server.Plab3.{Reception, Handler, client_handler}
use osc_server.Plab3.Receptions.{lines_of, client_handler-lines}
use osc_server.Plab3.Server.{
  Server, serving, finished, begin, begun, no_arguments, Reachable, starts, then_step, unlocks,
  accepts, creates, leaves_loop, client_ends, wakes, closes,
}
use osc_server.Plab3.Server.Ends.{server_closed-served}

abbrev general : ℕ → Text
general value = codes "20"

abbrev whole : ℕ → Reception
whole n = record {
  id_result = no_error;
  id = n;
  value_result = no_error;
  value = 20;
  ts_result = no_error;
  ts = 7;
}

abbrev gone : Reception
gone = record (whole 0) { value_result = connection_closed }

abbrev handler : Handler
handler = record {
  sensor_data = record { id = 0; value = 0; ts = 0 };
  result = no_error;
  client_open = true;
  printed = [];
  connections = record { conn_mutex = false; conn_counter = 1; conn_terminations = 0; signals = 0 };
}

line :
    lines_of general (whole 15 ∷ [])
    ≡ codes "sensor id = 15 - temperature = 20 - timestamp = 7\n" ∷ []
unfolding decimal
line = refl

client_handler-lines_example :
    Returns
      (λ u t.
        (t.printed
          ≡ lines_of general (whole 15 ∷ whole 21 ∷ [])
            ++ codes "Peer has closed connection\n" ∷ [])
        × (t.client_open ≡ false)
        × (t.connections
            ≡ record { conn_mutex = false; conn_counter = 1; conn_terminations = 1; signals = 1 }))
      (client_handler general (whole 15 ∷ whole 21 ∷ gone ∷ []) handler)
client_handler-lines_example =
    client_handler-lines general (whole 15 ∷ whole 21 ∷ []) gone [] handler refl
      ((refl, refl, refl), ((refl, refl, refl), tt)) refl

no_limit :
    begin (codes "test_server" ∷ codes "5678" ∷ []) no_error
    ≡ no_arguments (
        codes "Please provide the right arguments: first the port, then the max number of clients\n"
        ∷ [])
unfolding begin
no_limit = refl

one_client :
    begin (codes "test_server" ∷ codes "5678" ∷ codes "1" ∷ []) no_error ≡ begun (serving 1)
unfolding begin atoi digits_value
one_client = refl

-- A server for one client, which comes and goes.
abbrev served : Server
served = record {
  pc = finished;
  max_conn = 1;
  conn_counter = 1;
  conn_terminations = 1;
  running = 0;
  lost = 0;
  clients_closed = 0;
  signals = 1;
  server_open = false;
  printed =
      codes "Test server is started\n"
      ∷ codes "Incoming client connection\n"
      ∷ codes "Incoming client connection succeeded\n"
      ∷ codes "Test server is shutting down\n"
      ∷ [];
}

served-Reachable : Reachable 1 served
served-Reachable =
    then_step
      (then_step
        (then_step
          (then_step
            (then_step
              (then_step (then_step starts (unlocks _ refl (omega arith)))
                (accepts _ refl (omega arith)))
              (creates _ refl))
            (leaves_loop _ refl (omega arith)))
          (client_ends _ 0 refl))
        (wakes _ refl (omega arith)))
      (closes _ refl)

server_closed-served_example :
    (served.conn_terminations ≡ 1) × (served.running ≡ 0) × (served.lost ≡ 0)
server_closed-served_example = server_closed-served 1 served served-Reachable refl
