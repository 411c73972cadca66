-- ===== src/Connmgr/Client.antt =====
-- What a whole connection does: the records it inserts, its messages and its end.
use osc_server.Base.{ℕ, ◌≡◌, ◌≢◌, refl, Bool, true, false, List, [], ◌∷◌, ◌++◌, map, ap, sym, ◌∙◌}
use mathlib.Core.List.{append-nil, append_assoc}
use osc_server.Base.Text.{Text}
use osc_server.Memory.Returns
use osc_server.Memory.Returns.{Returns, returns}
use osc_server.Logger.Messages.{connection_message, insert_message}
use osc_server.Connmgr.{
  Round, Handler, handle_rounds, last_message, terminated, end_connection, client_handler,
}
use osc_server.Connmgr.Rounds.{
  Outcome, delivers, no_id, no_value, no_ts, late, outcome, goes_on, is_late, result_of, record_of,
  opening, id_after, after, handle_round-after,
}

-- The state `t` after a last round, but for the locals that are not used any more.
abbrev Ended : Outcome → Bool → Round → Handler → Handler → Type 0
Ended o known r s t =
    (t.result ≡ result_of o r)
    × (t.has_timeout ≡ is_late o)
    × (t.sensor_id ≡ id_after known s.sensor_id r.id o)
    × (t.log ≡ s.log ++ opening known r.id o)
    × (t.inserted ≡ s.inserted)
    × (t.connections ≡ s.connections)

after-Ended :
    (o : Outcome) (known : Bool) (r : Round) (s : Handler)
    → s.logged_already ≡ known
    → s.has_timeout ≡ false
    → o ≢ delivers
    → Ended o known r s (after o r s)
after-Ended delivers known r s e none_yet ends = absurd (ends refl)
after-Ended no_id true r s e none_yet ends =
    (refl, none_yet, refl, sym (append-nil s.log), refl, refl)
after-Ended no_id false r s e none_yet ends =
    (refl, none_yet, refl, sym (append-nil s.log), refl, refl)
after-Ended no_value true r s e none_yet ends =
    rw e (refl, none_yet, refl, sym (append-nil s.log), refl, refl)
after-Ended no_value false r s e none_yet ends = rw e (refl, none_yet, refl, refl, refl, refl)
after-Ended no_ts true r s e none_yet ends =
    rw e (refl, none_yet, refl, sym (append-nil s.log), refl, refl)
after-Ended no_ts false r s e none_yet ends = rw e (refl, none_yet, refl, refl, refl, refl)
after-Ended late true r s e none_yet ends =
    rw e (refl, refl, refl, sym (append-nil s.log), refl, refl)
after-Ended late false r s e none_yet ends = rw e (refl, refl, refl, refl, refl, refl)

-- The state after a record.
abbrev Delivered : Bool → Round → Handler → Handler → Type 0
Delivered known r s t =
    (t.logged_already ≡ true)
    × (t.has_timeout ≡ s.has_timeout)
    × (t.sensor_id ≡ id_after known s.sensor_id r.id delivers)
    × (t.log
        ≡ s.log
          ++ (opening known r.id delivers
              ++ insert_message (id_after known s.sensor_id r.id delivers) ∷ []))
    × (t.inserted ≡ s.inserted ++ record_of r ∷ [])
    × (t.connections ≡ s.connections)

after-Delivered :
    (known : Bool) (r : Round) (s : Handler)
    → s.logged_already ≡ known
    → Delivered known r s (after delivers r s)
after-Delivered true r s e = rw e (refl, refl, refl, refl, refl, refl)
after-Delivered false r s e = rw e (
  refl,
  refl,
  refl,
  append_assoc s.log (connection_message r.id ∷ []) (insert_message r.id ∷ []),
  refl,
  refl,
)

module _ (timeout : ℕ) where
  abbrev pub AllDeliver : List Round → Type 0
  AllDeliver [] = Unit {0}
  AllDeliver (r ∷ rs) = (outcome timeout r ≡ delivers) × AllDeliver rs

  -- The id in the last message: the first that came on the connection.
  abbrev pub final_id : (known : Bool) (id : ℕ) → List Round → Round → ℕ
  final_id known id [] last = id_after known id last.id (outcome timeout last)
  final_id known id (r ∷ rs) last = final_id true (id_after known id r.id delivers) rs last

  -- The messages of the rounds: the first id that comes is logged, and each record is confirmed
  -- under that id.
  abbrev pub round_messages : (known : Bool) (id : ℕ) → List Round → Round → List Text
  round_messages known id [] last = opening known last.id (outcome timeout last)
  round_messages known id (r ∷ rs) last =
      (opening known r.id delivers ++ insert_message (id_after known id r.id delivers) ∷ [])
      ++ round_messages true (id_after known id r.id delivers) rs last

  abbrev Handled : Bool → List Round → Round → Handler → Unit {0} → Handler → Type 0
  Handled known rs last s u t =
      (t.result ≡ result_of (outcome timeout last) last)
      × (t.has_timeout ≡ is_late (outcome timeout last))
      × (t.sensor_id ≡ final_id known s.sensor_id rs last)
      × (t.log ≡ s.log ++ round_messages known s.sensor_id rs last)
      × (t.inserted ≡ s.inserted ++ map record_of rs)
      × (t.connections ≡ s.connections)

  stops : (o : Outcome) → o ≢ delivers → goes_on o ≡ false
  stops delivers ends = absurd (ends refl)
  stops no_id ends = refl
  stops no_value ends = refl
  stops no_ts ends = refl
  stops late ends = refl

  handle_rounds-Handled :
      (known : Bool) (rs : List Round) (last : Round) (more : List Round) (s : Handler)
      → s.logged_already ≡ known
      → s.has_timeout ≡ false
      → AllDeliver rs
      → outcome timeout last ≢ delivers
      → Returns (Handled known rs last s) (handle_rounds timeout (rs ++ last ∷ more) s)
  unfolding handle_rounds
  handle_rounds-Handled known [] last more s e none_yet all ends =
      let o = outcome timeout last in
      let (result, timed, id, log, inserted, connections) =
        after-Ended o known last s e none_yet ends in
      rw (handle_round-after timeout last s, stops o ends)
        (returns (result, timed, id, log, inserted ∙ sym (append-nil s.inserted), connections))
  handle_rounds-Handled known (r ∷ rs) last more s e none_yet (one, all) ends =
      let (now, timed, id, log, inserted, connections) = after-Delivered known r s e in
      let t : Handler = after delivers r s in
      rw (handle_round-after timeout r s, one)
        (Returns.mono (handle_rounds-Handled true rs last more t now (timed ∙ none_yet) all ends)
          λ u v (result', timed', id', log', inserted', connections'). (
            result',
            timed',
            id' ∙ ap (λ i. final_id true i rs last) id,
            log'
                ∙ ap (λ i. t.log ++ round_messages true i rs last) id
                ∙ ap
                    (λ l.
                      l ++ round_messages true (id_after known s.sensor_id r.id delivers) rs last)
                    log
                ∙ append_assoc s.log _ _,
            inserted'
                ∙ ap (λ l. l ++ map record_of rs) inserted
                ∙ append_assoc s.inserted (record_of r ∷ []) (map record_of rs),
            connections' ∙ connections,
          ))

  -- A connection on which whole records come in time until a round fails or comes too late: the
  -- handler comes back; it has inserted exactly those records in order, and nothing of the last
  -- round; it has logged the first id once, each record, and how the connection ended; its socket is
  -- closed, `conn_terminations` is one more, and the manager is signalled exactly if that reaches
  -- `conn_counter`. The mutex must be free at the end.
  pub client_handler-records :
      (rs : List Round) (last : Round) (more : List Round) (s : Handler)
      → s.connections.conn_mutex ≡ false
      → AllDeliver rs
      → outcome timeout last ≢ delivers
      → Returns
          (λ u t.
            (t.inserted ≡ s.inserted ++ map record_of rs)
            × (t.log
                ≡ s.log
                  ++ (round_messages false 0 rs last
                      ++ last_message
                          (result_of (outcome timeout last) last)
                          (is_late (outcome timeout last))
                          (final_id false 0 rs last)
                        ∷ []))
            × (t.client_open ≡ false)
            × (t.connections ≡ terminated s.connections))
          (client_handler timeout (rs ++ last ∷ more) s)
  unfolding client_handler end_connection
  client_handler-records rs last more s free all ends =
      Returns.bind
        (handle_rounds-Handled false rs last more
          (record s { has_timeout = false; logged_already = false; sensor_id = 0 }) refl refl all
          ends)
        λ u t (result, timed, id, log, inserted, connections).
          rw (connections, free)
            (returns (
              inserted,
              rw (result, timed, id, log) (append_assoc s.log (round_messages false 0 rs last) _),
              refl,
              refl,
            ))
