-- ===== src/Tcpsock/Close.antt =====
-- `tcp_close`, and the calls after it.
use osc_server.Base.{
  ◌≡◌, ◌≢◌, refl, inl, inr, Bool, Bool-cases, false, not, ◌&&◌, none, some, [], ◌∷◌, ◌++◌, ◌==◌,
  ==-ne, if◌then◌else◌,
}
use osc_server.Base.Int.{pos, ltb_ℤ}
use osc_server.Memory.{Ptr, null, write_self, write-other, ok}
use osc_server.Memory.Returns.{Returns, returns}
use osc_server.Connmgr.{no_error, socket_error}
use osc_server.Tcpsock.{Tcpsock, Sockets, tcp_close, tcp_receive}
use osc_server.Tcpsock.Open.{load-ok}

-- `tcp_close` of a socket comes back without an error: the struct is freed, the caller's pointer is
-- NULL, no other struct changes, and the descriptor is closed if the socket was bound to one and it
-- could be shut down. A further call with the pointer is refused.
pub close-null :
    (s : Sockets) (shut : Bool) (socket : Ptr) (x : Tcpsock)
    → socket ≢ null
    → s.socks socket ≡ some x
    → Returns
        (λ (r, p) t.
          (r ≡ no_error)
          × (p ≡ null)
          × (t.socks socket ≡ none)
          × ((a : Ptr) → (a == socket) ≡ false → t.socks a ≡ s.socks a)
          × (t.closed ≡ (
              if x.cookie && (not (ltb_ℤ x.sd (pos 0)) && shut)
              then s.closed ++ x.sd ∷ []
              else s.closed))
          × (tcp_close shut p t ≡ ok (socket_error, p) t)
          × (tcp_receive (pos 1) false p t ≡ ok socket_error t))
        (tcp_close shut socket s)
unfolding tcp_close tcp_receive
close-null s shut socket x real holds = elim (Bool-cases x.cookie) [
  | inr free ↦
      rw (==-ne socket null real, load-ok s socket x real holds, free)
        (returns (
          refl,
          refl,
          write_self s.socks socket none,
          λ a o. write-other s.socks socket a none o,
          refl,
          refl,
          refl,
        ))
  | inl tied ↦ elim (Bool-cases (not (ltb_ℤ x.sd (pos 0)) && shut)) [
    | inl ends ↦
        rw (==-ne socket null real, load-ok s socket x real holds, tied, ends)
          (returns (
            refl,
            refl,
            write_self s.socks socket none,
            λ a o. write-other s.socks socket a none o,
            refl,
            refl,
            refl,
          ))
    | inr stays ↦
        rw (==-ne socket null real, load-ok s socket x real holds, tied, stays)
          (returns (
            refl,
            refl,
            write_self s.socks socket none,
            λ a o. write-other s.socks socket a none o,
            refl,
            refl,
            refl,
          ))
  ]
]
