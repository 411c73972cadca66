-- ===== src/Tcpsock/Tests.antt =====
-- Runs of the socket library, and its theorems at concrete sockets.
use osc_server.Base.{◌≡◌, refl, ◌⊎◌, false, true, false, none, some, [], arith, ◌==◌, if◌then◌else◌}
use osc_server.Base.Int.{pos, negsuc}
use osc_server.Memory.{Ptr}
use osc_server.Memory.Returns.{Returns}
use osc_server.Connmgr.{no_error, is_no_error}
use osc_server.Base.Text.{codes}
use osc_server.Tcpsock.Client.{tcp_active_open}
use osc_server.Tcpsock.Client.Connect.{Connected, active_open-Connected}
use osc_server.Tcpsock.{Sockets, bound, tcp_passive_open, tcp_wait_for_connection}
use osc_server.Tcpsock.Open.{Opened, passive_open-Opened, wait_for_connection-Opened}

abbrev none_open : Sockets
none_open = record { socks = λ a. none; closed = [] }

-- No socket is left where the port is taken.
port_taken :
    Returns
      (Opened none_open 40 9 (bound (pos 3) none (pos 5678)) false)
      (tcp_passive_open 40 (pos 3) (negsuc 0) (pos 0) 9 (pos 5678) none_open)
port_taken = passive_open-Opened none_open 40 (pos 3) (negsuc 0) (pos 0) 9 (pos 5678) refl

passive_open-Opened_example :
    Returns
      (Opened none_open 40 9 (bound (pos 3) none (pos 5678)) true)
      (tcp_passive_open 40 (pos 3) (pos 0) (pos 0) 9 (pos 5678) none_open)
passive_open-Opened_example =
    passive_open-Opened none_open 40 (pos 3) (pos 0) (pos 0) 9 (pos 5678) refl

active_open-Connected_example :
    Returns
      (λ (r, p) t.
        (((true ≡ true)
            × (r ≡ no_error)
            × (p ≡ 40)
            × Connected (pos 4) (codes "10.0.0.2") (pos 40000) p t)
          ⊎ ((true ≡ false) × (is_no_error r ≡ false) × (p ≡ 9) × (t.socks 40 ≡ none)))
        × ((a : Ptr) → (a == 40) ≡ false → t.socks a ≡ none_open.socks a)
        × (t.closed ≡ none_open.closed))
      (tcp_active_open 40
        (pos 4)
        true
        (pos 0)
        (pos 0)
        true
        (codes "10.0.0.2")
        (pos 40000)
        9
        (pos 5678)
        (some (codes "10.0.0.1"))
        none_open)
active_open-Connected_example =
    active_open-Connected none_open 40 (pos 4) true (pos 0) (pos 0) true (codes "10.0.0.2")
      (pos 40000) 9 (pos 5678) (some (codes "10.0.0.1")) (omega arith) refl

abbrev one_bound : Sockets
one_bound = record {
  socks = λ a. if a == 40 then some (bound (pos 3) none (pos 5678)) else none;
  closed = [];
}

wait_for_connection-Opened_example :
    Returns
      (Opened one_bound 56 9 (bound (pos 4) (some (codes "10.0.0.2")) (pos 40000)) true)
      (tcp_wait_for_connection 56 (pos 4) true (codes "10.0.0.2") (pos 40000) 40 9 one_bound)
wait_for_connection-Opened_example =
    wait_for_connection-Opened one_bound 56 (pos 4) true (codes "10.0.0.2") (pos 40000) 40 9
      (bound (pos 3) none (pos 5678)) (omega arith) refl refl refl
