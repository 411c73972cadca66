-- ===== src/Connmgr/Rounds.antt =====
-- What one round of the loop of `client_handler` does, by how it ends.
use osc_server.Base.{
  ℕ, ◌+◌, ◌≡◌, refl, Bool, Bool-cases, true, false, not, inl, inr, List, [], ◌∷◌, ◌++◌, ltb,
  if◌then◌else◌,
}
use osc_server.Base.Text.{Text}
use osc_server.Memory.{ok}
use osc_server.Config.{SensorData}
use osc_server.Logger.Messages.{connection_message, insert_message}
use osc_server.Connmgr.{TcpResult, is_no_error, Round, Handler, log_first, handle_round}

-- How a round ends: with a whole record in time, without an id, a value or a time, or too late.
pub data Outcome : Type 0 where
  delivers no_id no_value no_ts late : Outcome

abbrev pub outcome : (timeout : ℕ) → Round → Outcome
outcome timeout r =
    if not (is_no_error r.id_result)
    then no_id
    else if not (is_no_error r.value_result)
    then no_value
    else if not (is_no_error r.ts_result)
    then no_ts
    else if ltb (r.start_time + timeout) r.current_time
    then late
    else delivers

abbrev pub goes_on : Outcome → Bool
goes_on delivers = true
goes_on no_id = false
goes_on no_value = false
goes_on no_ts = false
goes_on late = false

abbrev pub is_late : Outcome → Bool
is_late late = true
is_late delivers = false
is_late no_id = false
is_late no_value = false
is_late no_ts = false

-- The result of the last call of `tcp_receive`.
abbrev pub result_of : Outcome → Round → TcpResult
result_of no_id r = r.id_result
result_of no_value r = r.value_result
result_of no_ts r = r.ts_result
result_of late r = r.ts_result
result_of delivers r = r.ts_result

abbrev pub record_of : Round → SensorData
record_of r = record { id = r.id; value = r.value; ts = r.ts }

-- The message for a new connection, if its id has come and was not logged before; the id that the
-- other messages name.
abbrev pub opening : (known : Bool) → ℕ → Outcome → List Text
opening true id o = []
opening false id no_id = []
opening false id delivers = connection_message id ∷ []
opening false id no_value = connection_message id ∷ []
opening false id no_ts = connection_message id ∷ []
opening false id late = connection_message id ∷ []

abbrev pub id_after : (known : Bool) (id new : ℕ) → Outcome → ℕ
id_after true id new o = id
id_after false id new no_id = id
id_after false id new delivers = new
id_after false id new no_value = new
id_after false id new no_ts = new
id_after false id new late = new

-- The state after `log_first`, and after a whole round.
abbrev pub known_as : (known : Bool) → ℕ → Handler → Handler
known_as true id s = s
known_as false id s = record s {
  logged_already = true;
  sensor_id = id;
  log = s.log ++ connection_message id ∷ [];
}

abbrev with_id : Round → Handler → Handler
with_id r s = record s { sensor_data = record s.sensor_data { id = r.id }; result = r.id_result }

abbrev opened : Round → Handler → Handler
opened r s = known_as s.logged_already r.id (with_id r s)

abbrev with_value : Round → Handler → Handler
with_value r s = record s {
  sensor_data = record s.sensor_data { value = r.value };
  result = r.value_result;
}

abbrev with_ts : Round → Handler → Handler
with_ts r s = record s { sensor_data = record s.sensor_data { ts = r.ts }; result = r.ts_result }

abbrev stored : Handler → Handler
stored s = record s {
  inserted = s.inserted ++ s.sensor_data ∷ [];
  log = s.log ++ insert_message s.sensor_id ∷ [];
}

abbrev pub after : Outcome → Round → Handler → Handler
after no_id r s = with_id r s
after no_value r s = with_value r (opened r s)
after no_ts r s = with_ts r (with_value r (opened r s))
after late r s = record (with_ts r (with_value r (opened r s))) { has_timeout = true }
after delivers r s = stored (with_ts r (with_value r (opened r s)))

log_first-known_as :
    (s : Handler) → log_first s ≡ ok tt (known_as s.logged_already s.sensor_data.id s)
unfolding log_first
log_first-known_as s = elim (Bool-cases s.logged_already) [ inl e ↦ rw e refl | inr e ↦ rw e refl ]

pub handle_round-after :
    (timeout : ℕ) (r : Round) (s : Handler)
    → handle_round timeout r s ≡ ok (goes_on (outcome timeout r)) (after (outcome timeout r) r s)
unfolding handle_round
handle_round-after timeout r s = elim (Bool-cases (is_no_error r.id_result)) [
  | inr x ↦ rw x refl
  | inl x ↦ elim (Bool-cases (is_no_error r.value_result)) [
    | inr y ↦ rw (x, log_first-known_as (with_id r s), y) refl
    | inl y ↦ elim (Bool-cases (is_no_error r.ts_result)) [
      | inr z ↦ rw (x, log_first-known_as (with_id r s), y, z) refl
      | inl z ↦ elim (Bool-cases (ltb (r.start_time + timeout) r.current_time)) [
        | inl l ↦ rw (x, log_first-known_as (with_id r s), y, z, l) refl
        | inr l ↦ rw (x, log_first-known_as (with_id r s), y, z, l) refl
      ]
    ]
  ]
]
