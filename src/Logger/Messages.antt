-- ===== src/Logger/Messages.antt =====
-- The messages of the `log_…` functions of sensor_db.c.
use osc_server.Base.{ℕ, Bool, true, false, ◌++◌}
use osc_server.Base.Text.{Text, codes, decimal}
use osc_server.Logger.{fits}

abbrev pub connection_message : (sensor_node_id : ℕ) → Text
connection_message sensor_node_id =
    fits (codes "Sensor node " ++ decimal sensor_node_id ++ codes " has opened a new connection\n")

abbrev pub termination_message : (sensor_node_id : ℕ) → Text
termination_message sensor_node_id =
    fits (codes "Sensor node " ++ decimal sensor_node_id ++ codes " has terminated connection\n")

abbrev pub timeout_message : (sensor_node_id : ℕ) → Text
timeout_message sensor_node_id =
    fits (codes "Sensor node " ++ decimal sensor_node_id ++ codes " has timed out\n")

-- `fixed4` is what `%.4f` prints for a double.
abbrev pub temperature_message :
    (fixed4 : ℕ → Text) (sensor_node_id : ℕ) (hot : Bool) (running_avg : ℕ) → Text
temperature_message fixed4 sensor_node_id true running_avg = fits (
    codes "Sensor node "
    ++ decimal sensor_node_id
    ++ codes " reports it's too hot (avg temp = "
    ++ fixed4 running_avg
    ++ codes " Celsius)\n")
temperature_message fixed4 sensor_node_id false running_avg = fits (
    codes "Sensor node "
    ++ decimal sensor_node_id
    ++ codes " reports it's too cold (avg temp = "
    ++ fixed4 running_avg
    ++ codes " Celsius)\n")

abbrev pub invalid_message : (sensor_node_id : ℕ) → Text
invalid_message sensor_node_id = fits (
    codes "Received sensor data with invalid sensor node ID "
    ++ decimal sensor_node_id
    ++ codes ", not added to list. \n")

abbrev pub insert_message : (sensor_node_id : ℕ) → Text
insert_message sensor_node_id =
    fits (codes "Data insertion from sensor " ++ decimal sensor_node_id ++ codes " succeeded\n")
