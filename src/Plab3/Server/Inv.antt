-- ===== src/Plab3/Server/Inv.antt =====
-- The invariant of the test server and its client threads.
use osc_server.Base.{ℕ, ◌+◌, ◌≤◌, ◌≡◌, refl, Bool, true, false, arith, ap, sym, ◌∙◌}
use osc_server.Plab3.Server.{
  Pc, testing, testing_unlocked, accepting, creating, rejecting, waiting, closing, finished, failed,
  faulted, Server, Step, unlocks, leaves_loop, unheld, accept_fails, accepts, turns_away,
  closes_rejected, creates, create_fails, client_ends, wakes, closes, close_fails, Reachable,
  starts, then_step,
}

-- Counted, and without a thread yet.
abbrev pub pending : Pc → ℕ
pending testing = 0
pending testing_unlocked = 0
pending accepting = 0
pending creating = 1
pending rejecting = 0
pending waiting = 0
pending closing = 0
pending finished = 0
pending failed = 0
pending faulted = 0

-- Behind the loop of connections, and behind the wait.
abbrev pub past_loop : Pc → Bool
past_loop testing = false
past_loop testing_unlocked = false
past_loop accepting = false
past_loop creating = false
past_loop rejecting = false
past_loop waiting = true
past_loop closing = true
past_loop finished = true
past_loop failed = true
past_loop faulted = false

abbrev pub past_wait : Pc → Bool
past_wait testing = false
past_wait testing_unlocked = false
past_wait accepting = false
past_wait creating = false
past_wait rejecting = false
past_wait waiting = false
past_wait closing = true
past_wait finished = true
past_wait failed = true
past_wait faulted = false

-- `main` has not gone on without the mutex.
abbrev pub on_track : Pc → Bool
on_track testing = true
on_track testing_unlocked = false
on_track accepting = true
on_track creating = true
on_track rejecting = true
on_track waiting = true
on_track closing = true
on_track finished = true
on_track failed = true
on_track faulted = false

pub record Inv (w : Server) : Type 0 where
  pub balance : w.conn_counter ≡ w.conn_terminations + w.running + w.lost + pending w.pc
  pub bounded : w.conn_counter ≤ w.max_conn
  pub full : past_loop w.pc ≡ true → w.max_conn ≤ w.conn_counter
  pub ended : past_wait w.pc ≡ true → w.max_conn ≤ w.conn_terminations
  pub kept : on_track w.pc ≡ true → w.lost ≡ 0
  pub shut : w.server_open ≡ false → past_wait w.pc ≡ true

no : {A : Type 0} → false ≡ true → A
no e = absurd (cc)

Inv-Step : {w v : Server} → Step w v → Inv w → Inv v
Inv-Step (unlocks w at room) i = record {
  balance = omega (arith, i.balance, ap pending at);
  bounded = i.bounded;
  full = no;
  ended = no;
  kept = λ e. i.kept (ap on_track at);
  shut = λ e. no (sym (ap past_wait at) ∙ i.shut e);
}
Inv-Step (leaves_loop w at over) i = record {
  balance = omega (arith, i.balance, ap pending at);
  bounded = i.bounded;
  full = λ e. over;
  ended = no;
  kept = λ e. i.kept (ap on_track at);
  shut = λ e. no (sym (ap past_wait at) ∙ i.shut e);
}
Inv-Step (unheld w at) i = record {
  balance = omega (arith, i.balance, ap pending at);
  bounded = i.bounded;
  full = no;
  ended = no;
  kept = no;
  shut = λ e. no (sym (ap past_wait at) ∙ i.shut e);
}
Inv-Step (accept_fails w at) i = record {
  balance = omega (arith, i.balance, ap pending at);
  bounded = i.bounded;
  full = no;
  ended = no;
  kept = no;
  shut = λ e. no (sym (ap past_wait at) ∙ i.shut e);
}
Inv-Step (accepts w at room) i = record {
  balance = omega (arith, i.balance, ap pending at);
  bounded = omega (arith, room);
  full = no;
  ended = no;
  kept = λ e. i.kept (ap on_track at);
  shut = λ e. no (sym (ap past_wait at) ∙ i.shut e);
}
Inv-Step (turns_away w at over) i = record {
  balance = omega (arith, i.balance, ap pending at);
  bounded = i.bounded;
  full = no;
  ended = no;
  kept = λ e. i.kept (ap on_track at);
  shut = λ e. no (sym (ap past_wait at) ∙ i.shut e);
}
Inv-Step (closes_rejected w at) i = record {
  balance = omega (arith, i.balance, ap pending at);
  bounded = i.bounded;
  full = no;
  ended = no;
  kept = λ e. i.kept (ap on_track at);
  shut = λ e. no (sym (ap past_wait at) ∙ i.shut e);
}
Inv-Step (creates w at) i = record {
  balance = omega (arith, i.balance, ap pending at);
  bounded = i.bounded;
  full = no;
  ended = no;
  kept = λ e. i.kept (ap on_track at);
  shut = λ e. no (sym (ap past_wait at) ∙ i.shut e);
}
Inv-Step (create_fails w at) i = record {
  balance = omega (arith, i.balance, ap pending at);
  bounded = i.bounded;
  full = no;
  ended = no;
  kept = no;
  shut = λ e. no (sym (ap past_wait at) ∙ i.shut e);
}
Inv-Step (client_ends w n some_run) i = record {
  balance = omega (arith, i.balance, some_run);
  bounded = i.bounded;
  full = i.full;
  ended = λ e. let b : w.max_conn ≤ w.conn_terminations = i.ended e in omega (arith, b);
  kept = i.kept;
  shut = i.shut;
}
Inv-Step (wakes w at all_ended) i = record {
  balance = omega (arith, i.balance, ap pending at);
  bounded = i.bounded;
  full = λ e. i.full (ap past_loop at);
  ended = λ e. all_ended;
  kept = λ e. i.kept (ap on_track at);
  shut = λ e. refl;
}
Inv-Step (closes w at) i = record {
  balance = omega (arith, i.balance, ap pending at);
  bounded = i.bounded;
  full = λ e. i.full (ap past_loop at);
  ended = λ e. i.ended (ap past_wait at);
  kept = λ e. i.kept (ap on_track at);
  shut = λ e. refl;
}
Inv-Step (close_fails w at) i = record {
  balance = omega (arith, i.balance, ap pending at);
  bounded = i.bounded;
  full = λ e. i.full (ap past_loop at);
  ended = λ e. i.ended (ap past_wait at);
  kept = λ e. i.kept (ap on_track at);
  shut = λ e. refl;
}

pub Inv-Reachable : {max_conn : ℕ} {w : Server} → Reachable max_conn w → Inv w
Inv-Reachable starts = record {
  balance = refl;
  bounded = omega arith;
  full = no;
  ended = no;
  kept = λ e. refl;
  shut = λ e. no (sym e);
}
Inv-Reachable (then_step r s) = Inv-Step s (Inv-Reachable r)

max_conn-Step : {w v : Server} → Step w v → v.max_conn ≡ w.max_conn
max_conn-Step (unlocks w at room) = refl
max_conn-Step (leaves_loop w at over) = refl
max_conn-Step (unheld w at) = refl
max_conn-Step (accept_fails w at) = refl
max_conn-Step (accepts w at room) = refl
max_conn-Step (turns_away w at over) = refl
max_conn-Step (closes_rejected w at) = refl
max_conn-Step (creates w at) = refl
max_conn-Step (create_fails w at) = refl
max_conn-Step (client_ends w n some_run) = refl
max_conn-Step (wakes w at all_ended) = refl
max_conn-Step (closes w at) = refl
max_conn-Step (close_fails w at) = refl

pub max_conn-Reachable : {max_conn : ℕ} {w : Server} → Reachable max_conn w → w.max_conn ≡ max_conn
max_conn-Reachable starts = refl
max_conn-Reachable (then_step r s) = max_conn-Step s ∙ max_conn-Reachable r
