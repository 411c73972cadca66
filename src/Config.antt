-- ===== src/Config.antt =====
-- config.h: the record that a sensor sends.
pub mod Packed
use osc_server.Base.{ℕ}
use native.Mathlib.Decide.{ℕ_discrete}

-- `sensor_data_t`: a uint16_t, and the 64-bit patterns of a double and of a time_t.
pub record SensorData : Type 0 where
  pub id : ℕ
  pub value : ℕ
  pub ts : ℕ

-- `connmgr_args_t`
pub record ConnmgrArgs : Type 0 where
  pub port : ℕ
  pub max_conn : ℕ

pub SensorData-discrete : Discrete SensorData
SensorData-discrete = hlevel (ℕ_discrete)
