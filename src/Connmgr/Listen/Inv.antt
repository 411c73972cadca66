-- ===== src/Connmgr/Listen/Inv.antt =====
-- The invariant of the listener and its threads.
use osc_server.Base.{
  ℕ, ◌+◌, ◌≤◌, ◌<◌, ◌≡◌, ◌==◌, refl, Bool-cases, true, false, inl, inr, List, [], ◌∷◌, ◌++◌, arith,
  ap, sym, ◌∙◌,
}
use osc_server.Config.{SensorData}
use osc_server.Connmgr.Listen.{
  World, client_ended, end_of_stream_record, Step, unlocks, leaves_loop, unlocks_unheld,
  waits_unheld, accept_fails, accepts, create_fails, turns_away, client_inserts, client_ends,
  rejects, sleeps, wakes, excess_ends, ends_stream, ends_unstored, Reachable, starts, then_step,
}
use osc_server.Connmgr.Listen.Places.{
  past_loop, past_wait, is_finished, is_sleeping, past_loop-woken, past_wait-woken,
  is_finished-woken, awake, past_wait_finished,
}

pub record Inv (w : World) : Type 0 where
  pub balance : w.conn_counter ≡ w.conn_terminations + w.running + w.lost
  pub bounded : w.conn_counter ≤ w.max_conn
  pub full : past_loop w.pc ≡ true → w.max_conn ≤ w.conn_counter
  pub ended : past_wait w.pc ≡ true → w.max_conn ≤ w.conn_terminations
  pub asleep : is_sleeping w.pc ≡ true → w.conn_terminations < w.max_conn
  pub stream :
      is_finished w.pc ≡ true
      → (ds : List SensorData) × (w.inserted ≡ ds ++ end_of_stream_record ∷ [])

no : {A : Type 0} → false ≡ true → A
no e = absurd (cc)

-- A client thread ends: the last one wakes the listener.
client_ended-Inv : (w : World) (n : ℕ) → w.running ≡ n + 1 → Inv w → Inv (client_ended n w)
client_ended-Inv w n some_run i = elim (Bool-cases (w.conn_terminations + 1 == w.conn_counter)) [
  | inl last ↦ rw last (record {
    balance = omega (arith, i.balance, some_run);
    bounded = i.bounded;
    full = λ e. i.full (sym (past_loop-woken w.pc) ∙ e);
    ended = λ e.
        let b : w.max_conn ≤ w.conn_terminations = i.ended (sym (past_wait-woken w.pc) ∙ e) in
        omega (arith, b);
    asleep = λ e. no (sym (awake w.pc) ∙ e);
    stream = λ e. i.stream (sym (is_finished-woken w.pc) ∙ e);
  })
  | inr more ↦
      let before : ¬ (w.conn_terminations + 1 ≡ w.conn_counter) = ground arith in
      rw more (record {
        balance = omega (arith, i.balance, some_run);
        bounded = i.bounded;
        full = i.full;
        ended = λ e. let b : w.max_conn ≤ w.conn_terminations = i.ended e in omega (arith, b);
        asleep = λ e. omega (arith, before, i.balance, i.bounded, some_run);
        stream = i.stream;
      })
]

Inv-Step : {w v : World} → Step w v → Inv w → Inv v
Inv-Step (unlocks w at room) i = record {
  balance = i.balance;
  bounded = i.bounded;
  full = no;
  ended = no;
  asleep = no;
  stream = no;
}
Inv-Step (leaves_loop w at over) i = record {
  balance = i.balance;
  bounded = i.bounded;
  full = λ e. over;
  ended = no;
  asleep = no;
  stream = no;
}
Inv-Step (unlocks_unheld w at room) i = record {
  balance = i.balance;
  bounded = i.bounded;
  full = no;
  ended = no;
  asleep = no;
  stream = no;
}
Inv-Step (waits_unheld w at over) i = record {
  balance = i.balance;
  bounded = i.bounded;
  full = λ e. over;
  ended = no;
  asleep = no;
  stream = no;
}
Inv-Step (accept_fails w at) i = record {
  balance = i.balance;
  bounded = i.bounded;
  full = no;
  ended = no;
  asleep = no;
  stream = no;
}
Inv-Step (accepts w at room) i = record {
  balance = omega (arith, i.balance);
  bounded = omega (arith, room);
  full = no;
  ended = no;
  asleep = no;
  stream = no;
}
Inv-Step (create_fails w at room) i = record {
  balance = omega (arith, i.balance);
  bounded = omega (arith, room);
  full = no;
  ended = no;
  asleep = no;
  stream = no;
}
Inv-Step (turns_away w at over) i = record {
  balance = i.balance;
  bounded = i.bounded;
  full = no;
  ended = no;
  asleep = no;
  stream = no;
}
Inv-Step (client_inserts w n d some_run) i = record {
  balance = i.balance;
  bounded = i.bounded;
  full = i.full;
  ended = i.ended;
  asleep = i.asleep;
  stream = λ e.
      let all_ended : w.max_conn ≤ w.conn_terminations = i.ended (past_wait_finished w.pc e) in
      absurd (omega (arith, all_ended, i.balance, i.bounded, some_run));
}
Inv-Step (client_ends w n some_run) i = client_ended-Inv w n some_run i
Inv-Step (rejects w there on over) i = record {
  balance = i.balance;
  bounded = i.bounded;
  full = i.full;
  ended = i.ended;
  asleep = i.asleep;
  stream = i.stream;
}
Inv-Step (sleeps w at some_left) i = record {
  balance = i.balance;
  bounded = i.bounded;
  full = λ e. i.full (ap past_loop at);
  ended = no;
  asleep = λ e. some_left;
  stream = no;
}
Inv-Step (wakes w at all_ended) i = record {
  balance = i.balance;
  bounded = i.bounded;
  full = λ e. i.full (ap past_loop at);
  ended = λ e. all_ended;
  asleep = no;
  stream = no;
}
Inv-Step (excess_ends w there off) i = record {
  balance = i.balance;
  bounded = i.bounded;
  full = i.full;
  ended = i.ended;
  asleep = i.asleep;
  stream = i.stream;
}
Inv-Step (ends_stream w at joined) i = record {
  balance = i.balance;
  bounded = i.bounded;
  full = λ e. i.full (ap past_loop at);
  ended = λ e. i.ended (ap past_wait at);
  asleep = no;
  stream = λ e. (w.inserted, refl);
}
Inv-Step (ends_unstored w at joined) i = record {
  balance = i.balance;
  bounded = i.bounded;
  full = λ e. i.full (ap past_loop at);
  ended = λ e. i.ended (ap past_wait at);
  asleep = no;
  stream = no;
}

pub Inv-Reachable : {max_conn : ℕ} {w : World} → Reachable max_conn w → Inv w
Inv-Reachable starts = record {
  balance = refl;
  bounded = omega arith;
  full = no;
  ended = no;
  asleep = no;
  stream = no;
}
Inv-Reachable (then_step r s) = Inv-Step s (Inv-Reachable r)

max_conn-Step : {w v : World} → Step w v → v.max_conn ≡ w.max_conn
max_conn-Step (unlocks w at room) = refl
max_conn-Step (leaves_loop w at over) = refl
max_conn-Step (unlocks_unheld w at room) = refl
max_conn-Step (waits_unheld w at over) = refl
max_conn-Step (accept_fails w at) = refl
max_conn-Step (accepts w at room) = refl
max_conn-Step (create_fails w at room) = refl
max_conn-Step (turns_away w at over) = refl
max_conn-Step (client_inserts w n d some_run) = refl
max_conn-Step (client_ends w n some_run) = refl
max_conn-Step (rejects w there on over) = refl
max_conn-Step (sleeps w at some_left) = refl
max_conn-Step (wakes w at all_ended) = refl
max_conn-Step (excess_ends w there off) = refl
max_conn-Step (ends_stream w at joined) = refl
max_conn-Step (ends_unstored w at joined) = refl

pub max_conn-Reachable : {max_conn : ℕ} {w : World} → Reachable max_conn w → w.max_conn ≡ max_conn
max_conn-Reachable starts = refl
max_conn-Reachable (then_step r s) = max_conn-Step s ∙ max_conn-Reachable r
