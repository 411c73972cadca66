-- ===== src/Tcpsock/Open.antt =====
-- The calls that make a socket struct, by what the system calls give.
use osc_server.Base.{
  ◌≡◌, ◌≢◌, refl, ◌⊎◌, inl, inr, Bool, true, false, List, not, ◌&&◌, none, some, [], ◌∷◌, ◌==◌,
  ==-ne, ◌∙◌,
}
use osc_server.Base.Int.{ℤ, pos, ltb_ℤ, is_zero}
use osc_server.Base.Text.{Text}
use osc_server.Memory.{Ptr, null, write, write_self, write-other, ok}
use osc_server.Memory.Returns
use osc_server.Memory.Returns.{Returns, returns}
use osc_server.Connmgr.{
  TcpResult, no_error, address_error, socket_op_error, memory_error, is_no_error,
}
use osc_server.Tcpsock.{
  Tcpsock, Sockets, unbound, bound, load, failed, bad_port, is_minus_one, tcp_wait_for_connection,
  tcp_passive_open,
}

-- Every condition of a list holds.
abbrev pub all_good : List Bool → Bool
all_good [] = true
all_good (b ∷ bs) = b && all_good bs

pub not-true : (b : Bool) → not b ≡ true → b ≡ false
not-true true e = absurd (cc)
not-true false e = refl

pub not-false : (b : Bool) → not b ≡ false → b ≡ true
not-false true e = refl
not-false false e = absurd (cc)

-- If all went well, a new socket at `fresh` with the caller's pointer to it, and otherwise an error
-- and neither; nothing else has changed.
abbrev pub Opened :
    Sockets → Ptr → Ptr → (new : Tcpsock) (good : Bool) → TcpResult × Ptr → Sockets → Type 0
Opened s fresh sock new good (r, p) t =
    (((good ≡ true) × (r ≡ no_error) × (p ≡ fresh) × (t.socks fresh ≡ some new))
      ⊎ ((good ≡ false) × (is_no_error r ≡ false) × (p ≡ sock) × (t.socks fresh ≡ none)))
    × ((a : Ptr) → (a == fresh) ≡ false → t.socks a ≡ s.socks a)
    × (t.closed ≡ s.closed)

module _ (s : Sockets) (fresh sock : Ptr) (new : Tcpsock) (good : Bool)
    (unused : s.socks fresh ≡ none) where
  pub left_alone :
      (r : TcpResult)
      → is_no_error r ≡ false
      → good ≡ false
      → Returns (Opened s fresh sock new good) (ok (r, sock) s)
  left_alone r e bad = returns (inr (bad, e, refl, unused), λ a o. refl, refl)

  pub failed-Opened :
      (r : TcpResult)
      → is_no_error r ≡ false
      → good ≡ false
      → Returns
          (Opened s fresh sock new good)
          (failed fresh r sock (record s { socks = write s.socks fresh (some unbound) }))
  failed-Opened r e bad = returns (
    inr (bad, e, refl, write_self (write s.socks fresh (some unbound)) fresh none),
    λ a o.
        write-other (write s.socks fresh (some unbound)) fresh a none o
        ∙ write-other s.socks fresh a (some unbound) o,
    refl,
  )

  pub created-Opened :
      good ≡ true
      → Opened s fresh sock new good
          (no_error, fresh)
          (record s { socks = write (write s.socks fresh (some unbound)) fresh (some new) })
  created-Opened all = (
    inl (all, refl, refl, write_self (write s.socks fresh (some unbound)) fresh (some new)),
    λ a o.
        write-other (write s.socks fresh (some unbound)) fresh a (some new) o
        ∙ write-other s.socks fresh a (some unbound) o,
    refl,
  )

-- What `tcp_passive_open` needs: a port in its range, memory, a descriptor, and that `bind` and
-- `listen` give 0.
abbrev pub can_listen : (fresh : Ptr) (descriptor bind_result listen_result port : ℤ) → Bool
can_listen fresh descriptor bind_result listen_result port = all_good (
    not (bad_port port)
    ∷ not (fresh == null)
    ∷ not (ltb_ℤ descriptor (pos 0))
    ∷ is_zero bind_result
    ∷ is_zero listen_result
    ∷ [])

-- `tcp_passive_open` on an address that is not in use succeeds exactly if the port is in its range,
-- there is memory, and `socket`, `bind` and `listen` succeed. Then the bound socket is stored and the
-- caller's pointer is its address; otherwise the pointer and all structs are as they were.
pub passive_open-Opened :
    (s : Sockets) (fresh : Ptr) (descriptor bind_result listen_result : ℤ) (sock : Ptr) (port : ℤ)
    → s.socks fresh ≡ none
    → Returns
        (Opened s fresh sock
          (bound descriptor none port)
          (can_listen fresh descriptor bind_result listen_result port))
        (tcp_passive_open fresh descriptor bind_result listen_result sock port s)
unfolding tcp_passive_open
passive_open-Opened s fresh descriptor bind_result listen_result sock port unused =
    let new = bound descriptor none port in
    let good = can_listen fresh descriptor bind_result listen_result port in
    let fails = failed-Opened s fresh sock new good unused socket_op_error refl in
    Returns.by_test (bad_port port) _ _ _
      (λ a. left_alone s fresh sock new good unused address_error refl (rw a refl))
      λ a.
        Returns.by_test (fresh == null) _ _ _
          (λ b. left_alone s fresh sock new good unused memory_error refl (rw (a, b) refl))
          λ b.
            Returns.by_test (ltb_ℤ descriptor (pos 0)) _ _ _ (λ c. fails (rw (a, b, c) refl))
              λ c.
                Returns.by_test (not (is_zero bind_result)) _ _ _
                  (λ d. fails (rw (a, b, c, not-true _ d) refl))
                  λ d.
                    Returns.by_test (not (is_zero listen_result)) _ _ _
                      (λ e. fails (rw (a, b, c, not-false _ d, not-true _ e) refl))
                      λ e. returns (
                        created-Opened s fresh sock new good unused
                          (rw (a, b, c, not-false _ d, not-false _ e) refl))

pub load-ok :
    (s : Sockets) (p : Ptr) (x : Tcpsock) → p ≢ null → s.socks p ≡ some x → load p s ≡ ok x s
unfolding load
load-ok s p x real holds = rw (==-ne p null real, holds) refl

-- What `tcp_wait_for_connection` needs of a bound socket: memory for the new socket and for its
-- address, and that `accept` succeeds.
abbrev pub can_accept : (fresh : Ptr) (descriptor : ℤ) (ip_fresh : Bool) → Bool
can_accept fresh descriptor ip_fresh =
    all_good (not (fresh == null) ∷ not (is_minus_one descriptor) ∷ ip_fresh ∷ [])

-- On a bound socket `tcp_wait_for_connection`, with an address for the new struct that is not in use,
-- succeeds exactly if there is memory for the struct and for the address and `accept` succeeds. Then
-- the client's socket is stored and the caller's pointer is its address; otherwise the pointer and
-- all structs are as they were.
pub wait_for_connection-Opened :
    (s : Sockets) (fresh : Ptr) (descriptor : ℤ) (ip_fresh : Bool) (ip : Text) (port : ℤ)
    (socket new_socket : Ptr) (x : Tcpsock)
    → socket ≢ null
    → s.socks socket ≡ some x
    → x.cookie ≡ true
    → s.socks fresh ≡ none
    → Returns
        (Opened s fresh new_socket
          (bound descriptor (some ip) port)
          (can_accept fresh descriptor ip_fresh))
        (tcp_wait_for_connection fresh descriptor ip_fresh ip port socket new_socket s)
unfolding tcp_wait_for_connection
wait_for_connection-Opened s fresh descriptor ip_fresh ip port socket new_socket x real holds tied
      unused =
    let new = bound descriptor (some ip) port in
    let good = can_accept fresh descriptor ip_fresh in
    let fails = λ (r : TcpResult). failed-Opened s fresh new_socket new good unused r in
    rw (==-ne socket null real, load-ok s socket x real holds, tied)
      (Returns.by_test (fresh == null) _ _ _
        (λ a. left_alone s fresh new_socket new good unused memory_error refl (rw a refl))
        λ a.
          Returns.by_test (is_minus_one descriptor) _ _ _
            (λ b. fails socket_op_error refl (rw (a, b) refl))
            λ b.
              Returns.by_test (not ip_fresh) _ _ _
                (λ c. fails memory_error refl (rw (a, b, not-true _ c) refl))
                λ c. returns (
                  created-Opened s fresh new_socket new good unused
                    (rw (a, b, not-false _ c) refl)))
