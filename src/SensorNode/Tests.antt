-- ===== src/SensorNode/Tests.antt =====
-- A sensor node with two measurements.
use osc_server.Base.{ℕ, ◌+◌, ◌≡◌, refl, true, false, List, [], ◌∷◌, ◌++◌, map, arith}
use osc_server.Base.Int.{ℤ}
use osc_server.Base.Text.{Text, codes, decimal}
use osc_server.Base.Digits.{digits_value}
use osc_server.Memory.{ok, out_of_fuel}
use osc_server.Memory.Returns.{Returns}
use osc_server.Connmgr.{TcpResult, no_error, Handler}
use osc_server.Connmgr.Wire.{wire_handler}
use osc_server.Main.{exit_success, atoi}
use osc_server.SensorNode.{Measurement, Node, to_short, node_main}
use osc_server.SensorNode.Stream.{measured, log_lines, node_main-inserted}

abbrev sample : ℕ → Measurement
sample n = record {
  temperature = n;
  ts = 1700000000 + n;
  id_sent = no_error;
  value_sent = no_error;
  ts_sent = no_error;
}

abbrev two_samples : List Measurement
two_samples = sample 20 ∷ sample 21 ∷ []

abbrev new_node : Node
new_node = record { wire = []; log_file = []; client_open = false }

abbrev handler : Handler
handler = record {
  sensor_data = record { id = 0; value = 0; ts = 0 };
  result = no_error;
  logged_already = false;
  sensor_id = 0;
  has_timeout = false;
  client_open = true;
  log = [];
  inserted = [];
  connections = record { conn_mutex = false; conn_counter = 1; conn_terminations = 0; signals = 0 };
}

abbrev local_server : Text → ℤ → TcpResult
local_server ip port = no_error

argument_missing :
    node_main decimal local_server 2 true true (codes "15" ∷ []) two_samples new_node
    ≡ ok exit_success new_node
unfolding node_main
argument_missing = refl

endless_node :
    node_main decimal local_server 1 true true
      (codes "15" ∷ codes "1" ∷ codes "127.0.0.1" ∷ codes "5678" ∷ [])
      two_samples
      new_node
    ≡ out_of_fuel
unfolding node_main atoi digits_value
endless_node = refl

node_main-inserted_example :
    Returns
      (λ status n.
        (status ≡ exit_success)
        × (n.client_open ≡ false)
        × (n.log_file ≡ [] ++ log_lines decimal (to_short (atoi (codes "15"))) two_samples)
        × Returns
            (λ u t.
              t.handler.inserted ≡ [] ++ map (measured (to_short (atoi (codes "15")))) two_samples)
            (wire_handler 5
              ((7, 8) ∷ (9, 14) ∷ (20, 20) ∷ [])
              (record { handler = handler; wire = n.wire })))
      (node_main decimal local_server 2 true true
        (codes "15" ∷ codes "1" ∷ codes "127.0.0.1" ∷ codes "5678" ∷ [])
        two_samples
        new_node)
node_main-inserted_example =
    node_main-inserted decimal local_server (codes "15") (codes "1") (codes "127.0.0.1")
      (codes "5678") two_samples new_node 5 ((7, 8) ∷ (9, 14) ∷ []) (20, 20) handler refl
      (omega arith)
      (
        (refl, refl, refl),
        omega arith,
        omega arith,
        ((refl, refl, refl), omega arith, omega arith, tt),
      )
      refl (refl, (refl, tt)) refl refl
