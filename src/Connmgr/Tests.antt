-- ===== src/Connmgr/Tests.antt =====
-- Runs of the connection manager, and its theorems at concrete connections.
use osc_server.Base.{ℕ, ◌+◌, ◌≡◌, refl, ◌≢◌, false, true, [], ◌∷◌}
use osc_server.Memory.Returns.{Returns}
use osc_server.Logger.Messages.{connection_message, insert_message, termination_message}
use osc_server.Connmgr.{no_error, connection_closed, Round, Handler, Connections, client_handler}
use osc_server.Connmgr.Rounds.{record_of, delivers, no_id}
use osc_server.Connmgr.Client.{client_handler-records}

abbrev whole : ℕ → Round
whole n = record {
  start_time = n;
  id_result = no_error;
  id = 15;
  value_result = no_error;
  value = 20;
  ts_result = no_error;
  ts = n;
  current_time = n + 1;
}

abbrev closing : Round
closing = record (whole 9) { id_result = connection_closed; id = 0 }

abbrev two_clients : Connections
two_clients = record { conn_mutex = false; conn_counter = 2; conn_terminations = 1; signals = 0 }

abbrev handler : Handler
handler = record {
  sensor_data = record { id = 0; value = 0; ts = 0 };
  result = no_error;
  logged_already = false;
  sensor_id = 0;
  has_timeout = false;
  client_open = true;
  log = [];
  inserted = [];
  connections = two_clients;
}

client_handler-records_example :
    Returns
      (λ u t.
        (t.inserted ≡ record_of (whole 7) ∷ record_of (whole 8) ∷ [])
        × (t.log
            ≡ connection_message 15
              ∷ insert_message 15
              ∷ insert_message 15
              ∷ termination_message 15
              ∷ [])
        × (t.client_open ≡ false)
        × (t.connections
            ≡ record { conn_mutex = false; conn_counter = 2; conn_terminations = 2; signals = 1 }))
      (client_handler 5 (whole 7 ∷ whole 8 ∷ closing ∷ []) handler)
client_handler-records_example =
    client_handler-records 5 (whole 7 ∷ whole 8 ∷ []) closing [] handler refl (refl, (refl, tt))
      no_id-ne-delivers
  where
    no_id-ne-delivers : no_id ≢ delivers
    no_id-ne-delivers e = cc
