-- ===== src/Tcpsock/Client.antt =====
-- tcpsock.c: the calls of a client, `tcp_active_open` and `tcp_send`, and the fields of a socket.
pub mod Connect
use osc_server.Base.{
  Bool, true, false, not, ◌&&◌, Option, none, some, ◌==◌, if◌then◌else◌, ◌≡◌, refl, ◌≢◌, ◌⊎◌, inl,
  inr, ==-ne, ◌∙◌, sym,
}
use osc_server.Base.Int.{ℤ, pos, negsuc, ltb_ℤ, is_zero}
use osc_server.Base.Text.{Text}
use osc_server.Memory.{Ptr, null, Cmd, ok, pure, ◌>>=◌, ◌>>◌}
use osc_server.Memory.Returns
use osc_server.Memory.Returns.{Returns, returns}
use osc_server.Connmgr.{
  TcpResult, no_error, address_error, socket_error, socket_op_error, connection_closed,
  memory_error, is_no_error,
}
use osc_server.Tcpsock.{
  Tcpsock, Sockets, bound, put_sock, load, bad_port, failed, tcp_sock_create, tcp_receive,
}
use osc_server.Tcpsock.Open.{Opened, failed-Opened, left_alone, created-Opened, load-ok}

-- `remote_ip == NULL`, or the result of `inet_aton`.
abbrev no_text : Option Text → Bool
no_text none = true
no_text (some t) = false

-- `is_address` is what `inet_aton` makes of the text; `ip` and `port` are the address that
-- `getsockname` gives, and `ip_fresh` is whether there is memory for it.
pub tcp_active_open :
    (fresh : Ptr) (descriptor : ℤ) (is_address : Bool) (connect_result getsockname_result : ℤ)
    (ip_fresh : Bool) (ip : Text) (port : ℤ) (sock : Ptr) (remote_port : ℤ)
    (remote_ip : Option Text)
    → Cmd Sockets (TcpResult × Ptr)
unfolding tcp_sock_create
tcp_active_open fresh descriptor is_address connect_result getsockname_result ip_fresh ip port sock
      remote_port remote_ip =
    if bad_port remote_port
    then pure (address_error, sock)
    else if no_text remote_ip
    then pure (address_error, sock)
    else if fresh == null
    then pure (memory_error, sock)
    else do
      tcp_sock_create fresh
      if ltb_ℤ descriptor (pos 0)
          then failed fresh socket_op_error sock
          else if not is_address
          then failed fresh address_error sock
          else if not (is_zero connect_result)
          then failed fresh socket_op_error sock
          else if not (is_zero getsockname_result)
          then failed fresh socket_op_error sock
          else if not ip_fresh
          then failed fresh memory_error sock
          else do put_sock fresh (some (bound descriptor (some ip) port)); pure (no_error, fresh)

-- A bound socket, or the error of the two first checks of each call.
abbrev checked :
    {A : Type 0} → Ptr → (unset : A) → (Tcpsock → TcpResult × A) → Cmd Sockets (TcpResult × A)
checked socket unset k =
    if socket == null
    then pure (socket_error, unset)
    else do t ← load socket; pure (if not t.cookie then (socket_error, unset) else k t)

-- What `sendto` gives, and whether errno says that there is no peer; the second result is what
-- `buf_size` points to afterwards.
pub tcp_send :
    (sent : ℤ) (no_peer no_buffer : Bool) (size : ℤ) (socket : Ptr) → Cmd Sockets (TcpResult × ℤ)
tcp_send sent no_peer no_buffer size socket = checked socket size λ t.
    if no_buffer
    then (no_error, pos 0)
    else if is_zero sent
    then (connection_closed, sent)
    else if ltb_ℤ sent (pos 0) && no_peer
    then (connection_closed, sent)
    else if ltb_ℤ sent (pos 0)
    then (socket_op_error, sent)
    else (no_error, sent)

-- The second result is what the caller's variable holds afterwards.
pub tcp_get_ip_addr : (old : Option Text) (socket : Ptr) → Cmd Sockets (TcpResult × Option Text)
tcp_get_ip_addr old socket = checked socket old λ t. (no_error, t.ip_addr)

pub tcp_get_port : (old : ℤ) (socket : Ptr) → Cmd Sockets (TcpResult × ℤ)
tcp_get_port old socket = checked socket old λ t. (no_error, t.port)

pub tcp_get_sd : (old : ℤ) (socket : Ptr) → Cmd Sockets (TcpResult × ℤ)
tcp_get_sd old socket = checked socket old λ t. (no_error, t.sd)
