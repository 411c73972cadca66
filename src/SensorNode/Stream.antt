-- ===== src/SensorNode/Stream.antt =====
-- What a sensor node sends, and what the server's thread for it makes of that.
use osc_server.Base.{
  ℕ, suc, ◌^◌, ◌<◌, ◌≡◌, refl, ap, sym, ◌∙◌, arith, true, false, List, [], ◌∷◌, ◌++◌, map, length,
  take, ltb, lt→ltb,
}
use mathlib.Core.List.{append_assoc, append-nil}
use osc_server.Base.Int.{ℤ, pos, negsuc}
use osc_server.Base.Bytes.{to_bytes}
use osc_server.Base.Text.{Text, flatten}
use osc_server.Memory.{ok, out_of_fuel}
use osc_server.Memory.Returns
use osc_server.Memory.Returns.{Returns, returns}
use osc_server.Config.{SensorData}
use osc_server.Config.Packed.{AllFit, record_bytes}
use osc_server.Connmgr.{TcpResult, is_no_error, Handler}
use osc_server.Connmgr.Wire.{InTime, wire_handler, wire_handler-record_bytes}
use osc_server.Main.{exit_success, atoi}
use osc_server.SensorNode.{
  Measurement, Node, to_short, log_line, send_measurement, send_loop, node_main,
}

-- All three fields were sent.
abbrev pub Sent : Measurement → Type 0
Sent m =
    (is_no_error m.id_sent ≡ true)
    × (is_no_error m.value_sent ≡ true)
    × (is_no_error m.ts_sent ≡ true)

-- The numbers of a measurement are 64-bit patterns, and it was sent.
abbrev pub AllSent : List Measurement → Type 0
AllSent [] = Unit {0}
AllSent (m ∷ ms) = Sent m × (m.temperature < 256 ^ 8) × (m.ts < 256 ^ 8) × AllSent ms

abbrev pub measured : (id : ℕ) → Measurement → SensorData
measured id m = record { id = id; value = m.temperature; ts = m.ts }

to_short-lt : (n : ℤ) → to_short n < 256 ^ 2
to_short-lt (pos n) = omega arith
to_short-lt (negsuc n) = omega arith

measured-AllFit :
    (id : ℕ) (ms : List Measurement) → id < 256 ^ 2 → AllSent ms → AllFit (map (measured id) ms)
measured-AllFit id [] small all = tt
measured-AllFit id (m ∷ ms) small (sent, value, ts, all) =
    ((small, value, ts), measured-AllFit id ms small all)

length-measured : (id : ℕ) (ms : List Measurement) → length (map (measured id) ms) ≡ length ms
length-measured id [] = refl
length-measured id (m ∷ ms) = ap suc (length-measured id ms)

module _ (general : ℕ → Text) where
  -- The node has sent these bytes and logged these lines more.
  abbrev after : Node → List ℕ → Text → Node
  after s bytes text = record s { wire = s.wire ++ bytes; log_file = s.log_file ++ text }

  send_measurement-after :
      (id : ℕ) (m : Measurement) (s : Node)
      → Sent m
      → send_measurement general id m s
        ≡ ok true (after s (record_bytes (measured id m)) (log_line general id m))
  unfolding send_measurement
  send_measurement-after id m s (i, v, t) =
      rw (i, v, t)
        (ap (λ w. ok true (record s { wire = w; log_file = s.log_file ++ log_line general id m }))
          (append_assoc (s.wire ++ to_bytes 2 id) (to_bytes 8 m.temperature) (to_bytes 8 m.ts)
            ∙ append_assoc s.wire (to_bytes 2 id) (to_bytes 8 m.temperature ++ to_bytes 8 m.ts)))

  after-after :
      (s : Node) (a b : List ℕ) (x y : Text) → after (after s a x) b y ≡ after s (a ++ b) (x ++ y)
  after-after s a b x y =
      λ i. record s { wire = append_assoc s.wire a b i; log_file = append_assoc s.log_file x y i }

  abbrev pub sent_bytes : (id : ℕ) → List Measurement → List ℕ
  sent_bytes id ms = flatten (map record_bytes (map (measured id) ms))

  abbrev pub log_lines : (id : ℕ) → List Measurement → Text
  log_lines id ms = flatten (map (log_line general id) ms)

  send_loop-after :
      (id : ℕ) (ms : List Measurement) (s : Node)
      → AllSent ms
      → send_loop general id (length ms) true ms s
        ≡ ok true (after s (sent_bytes id ms) (log_lines id ms))
  unfolding send_loop
  send_loop-after id [] s all = λ i.
      ok true
        (record s { wire = sym (append-nil s.wire) i; log_file = sym (append-nil s.log_file) i })
  send_loop-after id (m ∷ ms) s (sent, value, ts, all) =
      let t = after s (record_bytes (measured id m)) (log_line general id m) in
      rw (send_measurement-after id m s sent) (
        send_loop-after id ms t all
        ∙ ap (ok true) (
            after-after s (record_bytes (measured id m)) (sent_bytes id ms) (log_line general id m)
              (log_lines id ms)))

  -- As long as every measurement is sent, a node that was compiled with LOOPS up to one sends for
  -- ever.
  send_loop-endless :
      (id i : ℕ) (ms : List Measurement) (s : Node)
      → AllSent ms
      → send_loop general id (suc i) false ms s ≡ out_of_fuel
  unfolding send_loop
  send_loop-endless id i [] s all = refl
  send_loop-endless id i (m ∷ ms) s (sent, value, ts, all) =
      rw (send_measurement-after id m s sent) (send_loop-endless id i ms _ all)

  -- A sensor node that was compiled with a number LOOPS above one, is given four arguments, and can
  -- open its log, connect, send and close ends well after LOOPS measurements; it has closed its
  -- socket and logged each measurement. If all bytes that it sent reach the server before they are
  -- asked for, and each round of the thread that serves it ends in time, that thread inserts exactly
  -- these measurements, in order, under the id of the node, which is the first argument reduced to
  -- 16 bits.
  pub node_main-inserted :
      (connect : Text → ℤ → TcpResult) (id sleep_time ip port : Text) (ms : List Measurement)
      (n : Node) (timeout : ℕ) (times : List (ℕ × ℕ)) (last : ℕ × ℕ) (s : Handler)
      → is_no_error (connect (take 15 ip) (atoi port)) ≡ true
      → 1 < length ms
      → AllSent ms
      → n.wire ≡ []
      → InTime timeout times
      → length times ≡ length ms
      → s.connections.conn_mutex ≡ false
      → Returns
          (λ status n'.
            (status ≡ exit_success)
            × (n'.client_open ≡ false)
            × (n'.log_file ≡ n.log_file ++ log_lines (to_short (atoi id)) ms)
            × Returns
                (λ u t. t.handler.inserted ≡ s.inserted ++ map (measured (to_short (atoi id))) ms)
                (wire_handler timeout
                  (times ++ last ∷ [])
                  (record { handler = s; wire = n'.wire })))
          (node_main general connect (length ms) true true (id ∷ sleep_time ∷ ip ∷ port ∷ []) ms n)
  unfolding node_main
  node_main-inserted connect id sleep_time ip port ms n timeout times last s reached many all fresh
        in_time same free =
      let node_id = to_short (atoi id) in
      let ds = map (measured node_id) ms in
      let down : ltb 1 (length ms) ≡ true = lt→ltb 1 (length ms) many in
      let sent : n.wire ++ sent_bytes node_id ms ≡ sent_bytes node_id ms =
        ap (λ w. w ++ sent_bytes node_id ms) fresh in
      rw (reached, down, send_loop-after node_id ms (record n { client_open = true }) all)
        (returns (
          refl,
          refl,
          refl,
          rw sent (
              Returns.mono
                (wire_handler-record_bytes timeout ds times last s
                  (measured-AllFit node_id ms (to_short-lt (atoi id)) all) in_time
                  (omega (arith, same, length-measured node_id ms)) free)
                λ u t (inserted, shut, counted). inserted),
        ))
