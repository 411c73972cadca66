-- ===== src/Plab3/Server/Ends.antt =====
-- When the test server closes its socket.
use osc_server.Base.{ℕ, ◌≤◌, ◌≡◌, refl, false, true, arith}
use osc_server.Plab3.Server.{
  Pc, testing, testing_unlocked, accepting, creating, rejecting, waiting, closing, finished, failed,
  faulted, Server, Reachable,
}
use osc_server.Plab3.Server.Inv.{pending, past_wait, on_track, Inv-Reachable, max_conn-Reachable}

-- Behind the wait `main` has the mutex, and has no client half started.
past_wait_track : (p : Pc) → past_wait p ≡ true → (on_track p ≡ true) × (pending p ≡ 0)
past_wait_track testing e = absurd (cc)
past_wait_track testing_unlocked e = absurd (cc)
past_wait_track accepting e = absurd (cc)
past_wait_track creating e = absurd (cc)
past_wait_track rejecting e = absurd (cc)
past_wait_track waiting e = absurd (cc)
past_wait_track faulted e = absurd (cc)
past_wait_track closing e = (refl, refl)
past_wait_track finished e = (refl, refl)
past_wait_track failed e = (refl, refl)

-- In any order of the threads' steps, where the test server has closed its socket it has served
-- exactly the limit of clients, each of them in a thread of its own that has ended: none runs, and
-- for none was there no thread.
pub server_closed-served :
    (max_conn : ℕ) (w : Server)
    → Reachable max_conn w
    → w.server_open ≡ false
    → (w.conn_terminations ≡ max_conn) × (w.running ≡ 0) × (w.lost ≡ 0)
server_closed-served max_conn w r closed =
    let i = Inv-Reachable r in
    let same = max_conn-Reachable r in
    let past = i.shut closed in
    let (track, none_pending) = past_wait_track w.pc past in
    let all_ended : w.max_conn ≤ w.conn_terminations = i.ended past in
    let none_lost = i.kept track in
    (
      omega (arith, i.balance, i.bounded, all_ended, same),
      omega (arith, i.balance, i.bounded, all_ended),
      none_lost,
    )
