-- ===== src/Tcpsock.antt =====
-- TCP_SensorMonitoringSystem/project/lib/tcpsock.c: the socket structs, the checks of each call and
-- the mapping of what the system calls give to result codes. The results of the system calls and of
-- `malloc` are arguments.
pub mod Open
pub mod Close
pub mod Client
mod Tests
use osc_server.Base.{
  ℕ, Bool, true, false, not, ◌&&◌, ◌||◌, Option, none, some, List, [], ◌∷◌, ◌++◌, ◌==◌,
  if◌then◌else◌,
}
use osc_server.Base.Int.{ℤ, pos, negsuc, ltb_ℤ, is_zero}
use osc_server.Base.Text.{Text}
use osc_server.Memory.{Ptr, null, Store, write, Cmd, ok, fault, pure, ◌>>=◌, ◌>>◌}
use osc_server.Connmgr.{
  TcpResult, no_error, address_error, socket_error, socket_op_error, connection_closed,
  memory_error,
}

-- `cookie` is whether the field has the value of a bound socket.
pub record Tcpsock : Type 0 where
  pub cookie : Bool
  pub sd : ℤ
  pub ip_addr : Option Text
  pub port : ℤ

-- The structs, and the descriptors handed to `close`.
pub record Sockets : Type 0 where
  pub socks : Store Tcpsock
  pub closed : List ℤ

abbrev pub unbound : Tcpsock
unbound = record { cookie = false; sd = negsuc 0; ip_addr = none; port = negsuc 0 }

abbrev pub bound : ℤ → Option Text → ℤ → Tcpsock
bound d ip p = record { cookie = true; sd = d; ip_addr = ip; port = p }

abbrev pub put_sock : Ptr → Option Tcpsock → Cmd Sockets (Unit {0})
put_sock p c s = ok tt (record s { socks = write s.socks p c })

abbrev found : Option Tcpsock → Cmd Sockets Tcpsock
found none s = fault
found (some t) s = ok t s

unfoldable pub load : Ptr → Cmd Sockets Tcpsock
load p s = if p == null then fault else found (s.socks p) s

-- `fresh` is what `malloc` returns, and not NULL.
tcp_sock_create : (fresh : Ptr) → Cmd Sockets (Unit {0})
tcp_sock_create fresh = put_sock fresh (some unbound)

abbrev bad_port : ℤ → Bool
bad_port p = ltb_ℤ p (pos 1024) || ltb_ℤ (pos 65536) p

abbrev failed : Ptr → TcpResult → Ptr → Cmd Sockets (TcpResult × Ptr)
failed fresh r sock = do put_sock fresh none; pure (r, sock)

-- `sock` is what the caller's pointer holds; the command gives what it holds afterwards.
pub tcp_passive_open :
    (fresh : Ptr) (descriptor bind_result listen_result : ℤ) (sock : Ptr) (port : ℤ)
    → Cmd Sockets (TcpResult × Ptr)
unfolding tcp_sock_create
tcp_passive_open fresh descriptor bind_result listen_result sock port =
    if bad_port port
    then pure (address_error, sock)
    else if fresh == null
    then pure (memory_error, sock)
    else do
      tcp_sock_create fresh
      if ltb_ℤ descriptor (pos 0)
          then failed fresh socket_op_error sock
          else if not (is_zero bind_result)
          then failed fresh socket_op_error sock
          else if not (is_zero listen_result)
          then failed fresh socket_op_error sock
          else do put_sock fresh (some (bound descriptor none port)); pure (no_error, fresh)

-- The descriptor is closed only if it can be shut down.
abbrev close_descriptor : (shut : Bool) → ℤ → Cmd Sockets (Unit {0})
close_descriptor shut d s =
    if not (ltb_ℤ d (pos 0)) && shut
    then ok tt (record s { closed = s.closed ++ d ∷ [] })
    else ok tt s

pub tcp_close : (shut : Bool) (socket : Ptr) → Cmd Sockets (TcpResult × Ptr)
tcp_close shut socket = if socket == null then pure (socket_error, socket) else do
  t ← load socket
  if t.cookie then close_descriptor shut t.sd else pure tt
  put_sock socket none
  pure (no_error, null)

abbrev is_minus_one : ℤ → Bool
is_minus_one (pos n) = false
is_minus_one (negsuc n) = n == 0

-- `ip_fresh` is whether there is memory for the address.
pub tcp_wait_for_connection :
    (fresh : Ptr) (descriptor : ℤ) (ip_fresh : Bool) (ip : Text) (port : ℤ)
    (socket new_socket : Ptr)
    → Cmd Sockets (TcpResult × Ptr)
unfolding tcp_sock_create
tcp_wait_for_connection fresh descriptor ip_fresh ip port socket new_socket =
    if socket == null then pure (socket_error, new_socket) else do
      t ← load socket
      if not t.cookie
          then pure (socket_error, new_socket)
          else if fresh == null
          then pure (memory_error, new_socket)
          else do
            tcp_sock_create fresh
            if is_minus_one descriptor
                then failed fresh socket_op_error new_socket
                else if not ip_fresh
                then failed fresh memory_error new_socket
                else do
                  put_sock fresh (some (bound descriptor (some ip) port))
                  pure (no_error, fresh)

-- What `recv` gives, and whether errno says that the peer is not connected.
pub tcp_receive : (received : ℤ) (not_connected : Bool) (socket : Ptr) → Cmd Sockets TcpResult
tcp_receive received not_connected socket = if socket == null then pure socket_error else do
  t ← load socket
  pure (
      if not t.cookie
      then socket_error
      else if is_zero received
      then connection_closed
      else if ltb_ℤ received (pos 0) && not_connected
      then connection_closed
      else if ltb_ℤ received (pos 0)
      then socket_op_error
      else no_error)
