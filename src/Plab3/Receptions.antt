-- ===== src/Plab3/Receptions.antt =====
-- What the client thread of the test server prints, and how it ends.
use osc_server.Base.{
  ℕ, ◌≡◌, refl, true, false, inl, inr, List, [], ◌∷◌, ◌++◌, map, sym, ◌∙◌, Bool-cases,
  if◌then◌else◌,
}
use mathlib.Core.List.{append-nil, append_assoc}
use osc_server.Base.Text.{Text}
use osc_server.Memory.Returns
use osc_server.Memory.Returns.{Returns, returns}
use osc_server.Config.{SensorData}
use osc_server.Connmgr.{TcpResult, is_no_error, terminated}
use osc_server.Plab3.{
  Reception, Handler, closing_line, measurement_line, receive_round, receive_rounds, count_off,
  client_handler,
}

abbrev pub sensor_data_of : Reception → SensorData
sensor_data_of r = record { id = r.id; value = r.value; ts = r.ts }

-- Every field of the round came.
abbrev pub IsWhole : Reception → Type 0
IsWhole r =
    (is_no_error r.id_result ≡ true)
    × (is_no_error r.value_result ≡ true)
    × (is_no_error r.ts_result ≡ true)

abbrev pub AllWhole : List Reception → Type 0
AllWhole [] = Unit {0}
AllWhole (r ∷ rs) = IsWhole r × AllWhole rs

-- The first result of a round that is not good, or the last.
abbrev pub last_result : Reception → TcpResult
last_result r =
    if is_no_error r.id_result
    then (if is_no_error r.value_result then r.ts_result else r.value_result)
    else r.id_result

module _ (general : ℕ → Text) where
  abbrev pub lines_of : List Reception → List Text
  lines_of rs = map (λ r. measurement_line general (sensor_data_of r)) rs

  -- What a loop leaves that ended with `result` and printed `lines`.
  abbrev Left : TcpResult → List Text → Handler → Unit {0} → Handler → Type 0
  Left result lines s u t =
      (t.result ≡ result) × (t.printed ≡ s.printed ++ lines) × (t.connections ≡ s.connections)

  receive_rounds-Left :
      (rs : List Reception) (last : Reception) (more : List Reception) (s : Handler)
      → AllWhole rs
      → is_no_error (last_result last) ≡ false
      → Returns
          (Left (last_result last) (lines_of rs) s)
          (receive_rounds general (rs ++ last ∷ more) s)
  unfolding receive_rounds receive_round
  receive_rounds-Left [] last more s whole fails =
      let same = sym (append-nil s.printed) in
      elim (Bool-cases (is_no_error last.id_result)) [
        | inr x ↦ rw x (returns (refl, same, refl))
        | inl x ↦ elim (Bool-cases (is_no_error last.value_result)) [
          | inr y ↦ rw (x, y) (returns (refl, same, refl))
          | inl y ↦ elim (Bool-cases (is_no_error last.ts_result)) [
            | inr z ↦ rw (x, y, z) (returns (refl, same, refl))
            | inl z ↦
                let bad : is_no_error last.ts_result ≡ false = rw (x, y) at fails in absurd (cc)
          ]
        ]
      ]
  receive_rounds-Left (r ∷ rs) last more s ((x, y, z), whole) fails =
      let t : Handler = record s {
        sensor_data = sensor_data_of r;
        result = r.ts_result;
        printed = s.printed ++ measurement_line general (sensor_data_of r) ∷ [];
      } in
      rw (x, y, z, z)
        (Returns.mono (receive_rounds-Left rs last more t whole fails)
          λ u v (result, printed, connections).
            (result, printed ∙ append_assoc s.printed _ (lines_of rs), connections))

  -- A connection on which whole records come until a field does not: the thread comes back; it has
  -- printed a line for each whole record in order, none for the last, and how the connection ended;
  -- its socket is closed, `conn_terminations` is one more, and the server is signalled exactly if
  -- that reaches `conn_counter`. The mutex must be free at the end.
  pub client_handler-lines :
      (rs : List Reception) (last : Reception) (more : List Reception) (s : Handler)
      → s.connections.conn_mutex ≡ false
      → AllWhole rs
      → is_no_error (last_result last) ≡ false
      → Returns
          (λ u t.
            (t.printed ≡ s.printed ++ (lines_of rs ++ closing_line (last_result last) ∷ []))
            × (t.client_open ≡ false)
            × (t.connections ≡ terminated s.connections))
          (client_handler general (rs ++ last ∷ more) s)
  unfolding client_handler count_off
  client_handler-lines rs last more s free whole fails =
      Returns.bind (receive_rounds-Left rs last more s whole fails)
        λ u t (result, printed, connections).
          rw (connections, free)
            (returns (rw (result, printed) (append_assoc s.printed (lines_of rs) _), refl, refl))
