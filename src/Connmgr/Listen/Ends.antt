-- ===== src/Connmgr/Listen/Ends.antt =====
-- What the invariant says of the counters, of the end of the stream and of a failed thread.
use osc_server.Base.{
  ℕ, ◌+◌, ◌<◌, ◌≤◌, ◌≡◌, refl, false, List, [], ◌∷◌, ◌++◌, arith, ap, ◌⊎◌, inl, inr, Bool-cases,
}
use osc_server.Config.{SensorData}
use osc_server.Connmgr.Listen.{
  waiting, sleeping, finished, World, end_of_stream_record, wakes, excess_ends, ends_stream,
  Reachable, then_step,
}
use osc_server.Connmgr.Listen.Places.{past_loop, past_wait, is_finished, is_sleeping}
use osc_server.Connmgr.Listen.Inv.{Inv-Reachable, max_conn-Reachable}

-- In any order of the threads' steps, the clients that have ended, that run and whose thread could
-- not be created add up to `conn_counter`, which never exceeds the limit.
pub Reachable-bounded :
    (max_conn : ℕ) (w : World)
    → Reachable max_conn w
    → (w.conn_counter ≡ w.conn_terminations + w.running + w.lost) × (w.conn_counter ≤ max_conn)
Reachable-bounded max_conn w r =
    let i = Inv-Reachable r in
    let same = max_conn-Reachable r in (i.balance, omega (arith, i.bounded, same))

-- A finished listener has served exactly `max_conn` clients, all of which have ended, and the
-- end-of-stream record is the last that was inserted: no client inserts after it.
pub finished-end_of_stream_record :
    (max_conn : ℕ) (w : World)
    → Reachable max_conn w
    → w.pc ≡ finished
    → (w.conn_terminations ≡ max_conn)
      × (w.running ≡ 0)
      × ((ds : List SensorData) × (w.inserted ≡ ds ++ end_of_stream_record ∷ []))
finished-end_of_stream_record max_conn w r at =
    let i = Inv-Reachable r in
    let same = max_conn-Reachable r in
    let all_ended : w.max_conn ≤ w.conn_terminations = i.ended (ap past_wait at) in
    (
      omega (arith, i.balance, i.bounded, all_ended, same),
      omega (arith, i.balance, i.bounded, all_ended),
      i.stream (ap is_finished at),
    )

-- Once a client's thread could not be created, fewer clients than the limit have ended and the
-- listener is not past its wait, however it goes on without the mutex: it never ends the stream.
pub lost-waits :
    (max_conn : ℕ) (w : World)
    → Reachable max_conn w
    → 0 < w.lost
    → (w.conn_terminations < max_conn) × (past_wait w.pc ≡ false)
lost-waits max_conn w r some_lost =
    let i = Inv-Reachable r in
    let same = max_conn-Reachable r in
    (
      omega (arith, i.balance, i.bounded, same, some_lost),
      elim (Bool-cases (past_wait w.pc)) [
        | inl past ↦
            let all_ended : w.max_conn ≤ w.conn_terminations = i.ended past in
            absurd (omega (arith, i.balance, i.bounded, all_ended, some_lost))
        | inr not_past ↦ not_past
      ],
    )

-- The ways on from the wait, of a listener that is not asleep.
waiting_goes_on :
    (max_conn : ℕ) (w : World)
    → Reachable max_conn w
    → w.pc ≡ waiting
    → w.max_conn ≤ w.conn_terminations
    → (v : World) × Reachable max_conn v
      × (v.pc ≡ finished)
      × (v.inserted ≡ w.inserted ++ end_of_stream_record ∷ [])
waiting_goes_on max_conn w r at all_ended =
    let r' = then_step r (wakes w at all_ended) in
    elim (Bool-cases w.excess_handler) [
      | inl there ↦
          let r'' = then_step r' (excess_ends _ there refl) in
          (_, then_step r'' (ends_stream _ refl refl), refl, refl)
      | inr gone ↦ (_, then_step r' (ends_stream _ refl gone), refl, refl)
    ]

-- When the listener waits or sleeps, no client thread runs any more and each client had one, then the
-- signal of the last has woken it, and it can go on by itself to its end: it inserts the
-- end-of-stream record behind what was inserted.
pub waiting-finished :
    (max_conn : ℕ) (w : World)
    → Reachable max_conn w
    → (w.pc ≡ waiting) ⊎ (w.pc ≡ sleeping)
    → w.running ≡ 0
    → w.lost ≡ 0
    → (w.pc ≡ waiting)
      × ((v : World) × Reachable max_conn v
          × (v.pc ≡ finished)
          × (v.inserted ≡ w.inserted ++ end_of_stream_record ∷ []))
waiting-finished max_conn w r (inl at) none_runs none_lost =
    let i = Inv-Reachable r in
    let over : w.max_conn ≤ w.conn_counter = i.full (ap past_loop at) in
    (at, waiting_goes_on max_conn w r at (omega (arith, i.balance, over, none_runs, none_lost)))
waiting-finished max_conn w r (inr at) none_runs none_lost =
    let i = Inv-Reachable r in
    let over : w.max_conn ≤ w.conn_counter = i.full (ap past_loop at) in
    let some_left : w.conn_terminations < w.max_conn = i.asleep (ap is_sleeping at) in
    absurd (omega (arith, i.balance, over, none_runs, none_lost, some_left))
