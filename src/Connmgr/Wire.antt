-- ===== src/Connmgr/Wire.antt =====
-- connmgr.c, `client_handler` over the bytes that arrive: the same loop, in which each call of
-- `tcp_receive` takes the bytes of its field from the connection. The peer closes it behind the last
-- byte; a call that finds fewer bytes than it asked for has no error and leaves the rest of the field.
use osc_server.Base.{
  ℕ, ◌+◌, ◌≡◌, refl, Bool, true, false, not, List, [], ◌∷◌, ◌++◌, map, length, take, drop, ltb,
  if◌then◌else◌, arith, ◌∙◌, ap, sym, inl, inr, Bool-cases,
}
use mathlib.Core.List.{append_assoc, append-nil}
use osc_server.Base.Bytes.{to_bytes, of_bytes, of_bytes-to_bytes}
use osc_server.Base.Text.{flatten}
use osc_server.Memory.{Run, ok, fault, exited, blocked, out_of_fuel, Cmd, pure, ◌>>=◌, ◌>>◌}
use osc_server.Memory.Returns
use osc_server.Memory.Returns.{Returns, returns}
use osc_server.Config.{SensorData}
use osc_server.Config.Packed.{Fits, AllFit, record_bytes}
use osc_server.Connmgr.{
  TcpResult, no_error, connection_closed, is_no_error, Handler, emit, log_first, insert_record,
  last_message, end_connection, terminated,
}

-- The locals of the handler, and the bytes that it has not received yet.
pub record Connection : Type 0 where
  pub handler : Handler
  pub wire : List ℕ

-- What the handler does to its own locals.
abbrev kept : {A : Type 0} → List ℕ → Run Handler A → Run Connection A
kept wire (ok a h) = ok a (record { handler = h; wire = wire })
kept wire fault = fault
kept wire exited = exited
kept wire blocked = blocked
kept wire out_of_fuel = out_of_fuel

abbrev on_handler : {A : Type 0} → Cmd Handler A → Cmd Connection A
on_handler m c = kept c.wire (m c.handler)

-- The result of `tcp_receive`, and the bytes of the field afterwards.
abbrev received_result : List ℕ → TcpResult
received_result [] = connection_closed
received_result (b ∷ bs) = no_error

abbrev received_field : (size old : ℕ) → List ℕ → ℕ
received_field size old wire =
    of_bytes (take size wire ++ drop (length (take size wire)) (to_bytes size old))

-- `bytes = sizeof(field); result = tcp_receive(client, &field, &bytes);`
abbrev tcp_receive :
    (size : ℕ) (old : SensorData → ℕ) (store : ℕ → SensorData → SensorData)
    → Cmd Connection TcpResult
tcp_receive size old store c =
    let r : TcpResult = received_result c.wire in
    ok r (record {
      handler = record c.handler {
        sensor_data =
            store (received_field size (old c.handler.sensor_data) c.wire) c.handler.sensor_data;
        result = r;
      };
      wire = drop size c.wire;
    })

abbrev set_timeout : Cmd Handler Bool
set_timeout s = ok false (record s { has_timeout = true })

-- One round, with what `time` gives at its start and behind its last field.
pub wire_round : (timeout start_time current_time : ℕ) → Cmd Connection Bool
unfolding log_first
wire_round timeout start_time current_time = do
  id_result ← tcp_receive 2 (λ d. d.id) (λ n d. record d { id = n })
  if not (is_no_error id_result) then pure false else do
    on_handler log_first
    value_result ← tcp_receive 8 (λ d. d.value) (λ n d. record d { value = n })
    if not (is_no_error value_result) then pure false else do
      ts_result ← tcp_receive 8 (λ d. d.ts) (λ n d. record d { ts = n })
      if not (is_no_error ts_result)
          then pure false
          else if ltb (start_time + timeout) current_time
          then on_handler set_timeout
          else do on_handler insert_record; pure true

pub wire_rounds : (timeout : ℕ) → (times : List (ℕ × ℕ)) → Cmd Connection (Unit {0})
unfolding wire_round
wire_rounds timeout [] c = out_of_fuel
wire_rounds timeout ((start_time, current_time) ∷ times) c =
    let rest = wire_rounds timeout times in
    (wire_round timeout start_time current_time >>= λ on. if on then rest else pure tt) c

-- The whole thread.
pub wire_handler : (timeout : ℕ) → (times : List (ℕ × ℕ)) → Cmd Connection (Unit {0})
unfolding wire_rounds end_connection
wire_handler timeout times = do
  on_handler λ s. ok tt (record s { has_timeout = false; logged_already = false; sensor_id = 0 })
  wire_rounds timeout times
  on_handler λ s. emit (last_message s.result s.has_timeout s.sensor_id) s
  on_handler λ s. ok tt (record s { client_open = false })
  on_handler end_connection

-- Each round ends in time.
abbrev pub InTime : (timeout : ℕ) → List (ℕ × ℕ) → Type 0
InTime timeout [] = Unit {0}
InTime timeout ((start_time, current_time) ∷ times) =
    (ltb (start_time + timeout) current_time ≡ false) × InTime timeout times

-- The locals that matter, after whole records.
abbrev Took : List SensorData → Connection → Unit {0} → Connection → Type 0
Took ds c u t =
    (t.handler.inserted ≡ c.handler.inserted ++ ds)
    × (t.handler.connections ≡ c.handler.connections)
    × (t.handler.result ≡ connection_closed)

-- A round in which a whole record is there: it is inserted, and the bytes behind it stay.
wire_round-record :
    (timeout a b : ℕ) (d : SensorData) (rest : List ℕ) (h : Handler)
    → Fits d
    → ltb (a + timeout) b ≡ false
    → (v : Handler) × (wire_round timeout a b
          (record { handler = h; wire = record_bytes d ++ rest })
        ≡ ok true (record { handler = v; wire = rest }))
      × (v.inserted ≡ h.inserted ++ d ∷ [])
      × (v.connections ≡ h.connections)
unfolding wire_round log_first
wire_round-record timeout a b d rest h (id, value, ts) soon = elim (Bool-cases h.logged_already) [
  | inl known ↦ rw (known, soon) (_, refl, inserted, refl)
  | inr first ↦ rw (first, soon) (_, refl, inserted, refl)
]
  where
    inserted :
        h.inserted
          ++ record {
            id = of_bytes (to_bytes 2 d.id);
            value = of_bytes (to_bytes 8 d.value);
            ts = of_bytes (to_bytes 8 d.ts);
          }
            ∷ []
        ≡ h.inserted ++ d ∷ []
    inserted = λ i.
        h.inserted
        ++ record {
          id = of_bytes-to_bytes 2 d.id id i;
          value = of_bytes-to_bytes 8 d.value value i;
          ts = of_bytes-to_bytes 8 d.ts ts i;
        }
          ∷ []

wire_rounds-Took :
    (timeout : ℕ) (ds : List SensorData) (times : List (ℕ × ℕ)) (last : ℕ × ℕ) (h : Handler)
    → AllFit ds
    → InTime timeout times
    → length times ≡ length ds
    → Returns (Took ds (record { handler = h; wire = [] })) (
        wire_rounds timeout
          (times ++ last ∷ [])
          (record { handler = h; wire = flatten (map record_bytes ds) }))
unfolding wire_rounds wire_round
wire_rounds-Took timeout [] [] (a, b) h fit in_time same =
    returns (sym (append-nil h.inserted), refl, refl)
wire_rounds-Took timeout [] (t ∷ times) last h fit in_time same = absurd (omega (arith, same))
wire_rounds-Took timeout (d ∷ ds) [] last h fit in_time same = absurd (omega (arith, same))
wire_rounds-Took timeout (d ∷ ds) ((a, b) ∷ times) last h (one, fit) (soon, in_time) same =
    let (v, run, inserted, connections) =
      wire_round-record timeout a b d (flatten (map record_bytes ds)) h one soon in
    rw run (
      Returns.mono (wire_rounds-Took timeout ds times last v fit in_time (omega (arith, same)))
        λ u t (ins, con, closed). (
          ins ∙ ap (λ l. l ++ ds) inserted ∙ append_assoc h.inserted (d ∷ []) ds,
          con ∙ connections,
          closed,
        ))

-- Where the bytes on the connection are those of records, one after the other, and each round ends
-- in time, the thread comes back; it has inserted exactly these records, in order, its socket is
-- closed, and its end is counted.
pub wire_handler-record_bytes :
    (timeout : ℕ) (ds : List SensorData) (times : List (ℕ × ℕ)) (last : ℕ × ℕ) (h : Handler)
    → AllFit ds
    → InTime timeout times
    → length times ≡ length ds
    → h.connections.conn_mutex ≡ false
    → Returns
        (λ u t.
          (t.handler.inserted ≡ h.inserted ++ ds)
          × (t.handler.client_open ≡ false)
          × (t.handler.connections ≡ terminated h.connections))
        (wire_handler timeout
          (times ++ last ∷ [])
          (record { handler = h; wire = flatten (map record_bytes ds) }))
unfolding wire_handler end_connection
wire_handler-record_bytes timeout ds times last h fit in_time same free =
    Returns.bind
      (wire_rounds-Took timeout ds times last
        (record h { has_timeout = false; logged_already = false; sensor_id = 0 }) fit in_time same)
      λ u t (inserted, connections, closed). rw (connections, free) (returns (inserted, refl, refl))
