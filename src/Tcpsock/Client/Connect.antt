-- ===== src/Tcpsock/Client/Connect.antt =====
-- A client's socket from its making to its use.
use osc_server.Base.{
  ℕ, suc, Bool, true, false, not, [], ◌∷◌, none, some, Option, ◌==◌, ◌≡◌, refl, ◌≢◌, ◌⊎◌, inl, inr,
  ==-ne, ltb, arith, subst, sym,
}
use osc_server.Base.Int.{ℤ, pos, ltb_ℤ, is_zero}
use osc_server.Base.Text.{Text}
use osc_server.Memory.{Ptr, null, ok}
use osc_server.Memory.Returns
use osc_server.Memory.Returns.{Returns, returns}
use osc_server.Connmgr.{
  TcpResult, no_error, address_error, socket_op_error, memory_error, is_no_error,
}
use osc_server.Tcpsock.{Sockets, bound, bad_port}
use osc_server.Tcpsock.Open.{
  Opened, all_good, not-true, not-false, failed-Opened, left_alone, created-Opened, load-ok,
}
use osc_server.Tcpsock.Client.{
  no_text, tcp_active_open, tcp_send, tcp_get_ip_addr, tcp_get_port, tcp_get_sd,
}

-- What `tcp_active_open` needs: a port in its range, an address, memory for the socket and for the
-- address, and that `socket`, `connect` and `getsockname` succeed.
abbrev pub can_connect :
    (fresh : Ptr) (descriptor : ℤ) (is_address : Bool) (connect_result getsockname_result : ℤ)
    (ip_fresh : Bool) (remote_port : ℤ) (remote_ip : Option Text)
    → Bool
can_connect fresh descriptor is_address connect_result getsockname_result ip_fresh remote_port
      remote_ip =
    all_good (
      not (bad_port remote_port)
      ∷ not (no_text remote_ip)
      ∷ not (fresh == null)
      ∷ not (ltb_ℤ descriptor (pos 0))
      ∷ is_address
      ∷ is_zero connect_result
      ∷ is_zero getsockname_result
      ∷ ip_fresh
      ∷ [])

active_open-Opened :
    (s : Sockets) (fresh : Ptr) (descriptor : ℤ) (is_address : Bool)
    (connect_result getsockname_result : ℤ) (ip_fresh : Bool) (ip : Text) (port : ℤ) (sock : Ptr)
    (remote_port : ℤ) (remote_ip : Option Text)
    → s.socks fresh ≡ none
    → Returns
        (Opened s fresh sock (bound descriptor (some ip) port) (
          can_connect fresh descriptor is_address connect_result getsockname_result ip_fresh
            remote_port remote_ip))
        (tcp_active_open fresh descriptor is_address connect_result getsockname_result ip_fresh ip
          port sock remote_port remote_ip s)
unfolding tcp_active_open
active_open-Opened s fresh descriptor is_address connect_result getsockname_result ip_fresh ip port
      sock remote_port remote_ip unused =
    let new = bound descriptor (some ip) port in
    let good =
      can_connect fresh descriptor is_address connect_result getsockname_result ip_fresh remote_port
        remote_ip in
    let alone = λ (r : TcpResult). left_alone s fresh sock new good unused r in
    let fails = λ (r : TcpResult). failed-Opened s fresh sock new good unused r in
    Returns.by_test (bad_port remote_port) _ _ _ (λ a. alone address_error refl (rw a refl))
      λ a.
        Returns.by_test (no_text remote_ip) _ _ _ (λ b. alone address_error refl (rw (a, b) refl))
          λ b.
            Returns.by_test (fresh == null) _ _ _ (λ c. alone memory_error refl (rw (a, b, c) refl))
              λ c.
                Returns.by_test (ltb_ℤ descriptor (pos 0)) _ _ _
                  (λ d. fails socket_op_error refl (rw (a, b, c, d) refl))
                  λ d.
                    Returns.by_test (not is_address) _ _ _
                      (λ e. fails address_error refl (rw (a, b, c, d, not-true _ e) refl))
                      λ e.
                        Returns.by_test (not (is_zero connect_result)) _ _ _
                          (λ f.
                            fails socket_op_error refl
                              (rw (a, b, c, d, not-false _ e, not-true _ f) refl))
                          λ f.
                            Returns.by_test (not (is_zero getsockname_result)) _ _ _
                              (λ g.
                                fails socket_op_error refl (
                                  rw (a, b, c, d, not-false _ e, not-false _ f, not-true _ g) refl))
                              λ g.
                                Returns.by_test (not ip_fresh) _ _ _
                                  (λ h. fails memory_error refl (
                                    rw
                                      (
                                        a,
                                        b,
                                        c,
                                        d,
                                        not-false _ e,
                                        not-false _ f,
                                        not-false _ g,
                                        not-true _ h,
                                      )
                                      refl))
                                  λ h. returns (
                                    created-Opened s fresh sock new good unused (
                                      rw
                                        (
                                          a,
                                          b,
                                          c,
                                          d,
                                          not-false _ e,
                                          not-false _ f,
                                          not-false _ g,
                                          not-false _ h,
                                        )
                                        refl))

-- The socket at `p` is connected: its fields can be read, and what `sendto` took is what
-- `tcp_send` reports.
abbrev pub Connected : ℤ → Text → ℤ → Ptr → Sockets → Type 0
Connected descriptor ip port p t =
    ((old : ℤ) → tcp_get_sd old p t ≡ ok (no_error, descriptor) t)
    × ((old : ℤ) → tcp_get_port old p t ≡ ok (no_error, port) t)
    × ((old : Option Text) → tcp_get_ip_addr old p t ≡ ok (no_error, some ip) t)
    × ((n : ℕ) (no_peer : Bool) (size : ℤ)
        → tcp_send (pos (suc n)) no_peer false size p t ≡ ok (no_error, pos (suc n)) t)

bound-Connected :
    (t : Sockets) (p : Ptr) (descriptor : ℤ) (ip : Text) (port : ℤ)
    → p ≢ null
    → t.socks p ≡ some (bound descriptor (some ip) port)
    → Connected descriptor ip port p t
unfolding tcp_get_sd tcp_get_port tcp_get_ip_addr tcp_send
bound-Connected t p descriptor ip port real holds =
    let e = ==-ne p null real in
    let l = load-ok t p (bound descriptor (some ip) port) real holds in
    (
      λ old. rw (e, l) refl,
      λ old. rw (e, l) refl,
      λ old. rw (e, l) refl,
      λ n no_peer size.
          let z : (suc n == 0) ≡ false = ground arith in
          let y : ltb (suc n) 0 ≡ false = ground arith in rw (e, l, z, y) refl,
    )

-- `tcp_active_open` at an address that is not in use succeeds exactly if the port is in its range, an
-- address is given and is one, there is memory, and `socket`, `connect` and `getsockname` succeed.
-- Then the caller's pointer is a socket whose fields are those of the connection and on which
-- `tcp_send` reports what was sent; otherwise the pointer is as it was and no struct is kept. In both
-- cases the other structs are as they were and no descriptor is closed.
pub active_open-Connected :
    (s : Sockets) (fresh : Ptr) (descriptor : ℤ) (is_address : Bool)
    (connect_result getsockname_result : ℤ) (ip_fresh : Bool) (ip : Text) (port : ℤ) (sock : Ptr)
    (remote_port : ℤ) (remote_ip : Option Text)
    → fresh ≢ null
    → s.socks fresh ≡ none
    → Returns
        (λ (r, p) t.
          (((can_connect fresh descriptor is_address connect_result getsockname_result ip_fresh
                  remote_port remote_ip
                ≡ true)
              × (r ≡ no_error)
              × (p ≡ fresh)
              × Connected descriptor ip port p t)
            ⊎ ((can_connect fresh descriptor is_address connect_result getsockname_result ip_fresh
                    remote_port remote_ip
                  ≡ false)
                × (is_no_error r ≡ false)
                × (p ≡ sock)
                × (t.socks fresh ≡ none)))
          × ((a : Ptr) → (a == fresh) ≡ false → t.socks a ≡ s.socks a)
          × (t.closed ≡ s.closed))
        (tcp_active_open fresh descriptor is_address connect_result getsockname_result ip_fresh ip
          port sock remote_port remote_ip s)
active_open-Connected s fresh descriptor is_address connect_result getsockname_result ip_fresh ip
      port sock remote_port remote_ip real unused =
    Returns.mono
      (active_open-Opened s fresh descriptor is_address connect_result getsockname_result ip_fresh
        ip port sock remote_port remote_ip unused)
      λ (r, p) t (outcome, others, open_still). (
        elim outcome [
          | inl (all, good, same, holds) ↦ inl (
            all,
            good,
            same,
            bound-Connected t p descriptor ip port (subst (λ a. a ≢ null) (sym same) real)
                (subst (λ a. t.socks a ≡ some (bound descriptor (some ip) port)) (sym same) holds),
          )
          | inr bad ↦ inr bad
        ],
        others,
        open_still,
      )
