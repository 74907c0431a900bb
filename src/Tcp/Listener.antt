-- ===== src/Tcp/Listener.antt =====
-- `tcp_listener_listen`, and the ends of a connection that `tcp_listener_accept` accepts.
use tun2socket_lwip.Prelude.{
  Bool-cases, inl, inr, if◌then◌else◌, ◌&&◌, ◌==◌, ℕ, ◌<◌, ◌≡◌, ◌≢◌, ◌⊎◌, List, [], ◌∷◌, ◌∙◌, Bool,
  true, false, none, some, arith,
}
use tun2socket_lwip.Lwip.{Ptr, null, err_ok, is_ok}
use tun2socket_lwip.Address.{ip4_addr, get_byte-ip4_addr}
use tun2socket_lwip.Tcp.{
  Netconns, TcpConn, accepted, tcp_listener_listen, accept_one, tcp_conn_local_addr,
  tcp_conn_remote_addr,
}

-- What native/ relies on of lwIP's connections: which are allocated. `netconn_new` gives one that was
-- not, only `netconn_delete` ends one, and no call but these changes which are.
pub record NetconnLaws (n : Netconns) : Type 0 where
  pub live : Ptr → n.Heap → Bool
  pub new_live : (h : n.Heap) → let (c, h') = n.netconn_new h in c ≢ null → live c h' ≡ true
  pub bind_live : (q c : Ptr) (h : n.Heap) → live q (n.netconn_bind_any c h).1 ≡ live q h
  pub bind_if_live : (q c : Ptr) (h : n.Heap) → live q (n.netconn_bind_if c h).1 ≡ live q h
  pub listen_live : (q c : Ptr) (h : n.Heap) → live q (n.netconn_listen c h).1 ≡ live q h
  pub delete_live : (c : Ptr) (h : n.Heap) → live c (n.netconn_delete c h) ≡ false

-- numbers below 256
abbrev AreBytes : List ℕ → Type 0
AreBytes [] = Unit
AreBytes (x ∷ xs) = (x < 256) × AreBytes xs

module _ (n : Netconns) where
  -- When lwIP has no memory for a connection, `tcp_listener_listen` aborts the program, and does not
  -- return NULL. Else it gives a listener on the connection that it allocated, which is still allocated,
  -- exactly when lwIP binds it, binds it to the interface and listens on it; and when one of these calls
  -- fails it gives none, and the connection is deleted again.
  pub tcp_listener_listen_lem :
      (laws : NetconnLaws n) (h : n.Heap)
      → let (conn, h1) = n.netconn_new h in
        let (bound, h2) = n.netconn_bind_any conn h1 in
        let (bound_if, h3) = n.netconn_bind_if conn h2 in
        let listens = is_ok bound && is_ok bound_if && is_ok (n.netconn_listen conn h3).0 in
        ((conn ≡ null) × (tcp_listener_listen n h ≡ none))
        ⊎ ((conn ≢ null)
            × ((h' : n.Heap) × (tcp_listener_listen n h
                  ≡ some (if listens then some conn else none, h'))
                × (laws.live conn h' ≡ listens)))
  unfolding tcp_listener_listen
  tcp_listener_listen_lem laws h =
      let conn = (n.netconn_new h).0 in
      let h1 = (n.netconn_new h).1 in
      let h2 = (n.netconn_bind_any conn h1).1 in
      let h3 = (n.netconn_bind_if conn h2).1 in
      let h4 = (n.netconn_listen conn h3).1 in
      let bound = is_ok (n.netconn_bind_any conn h1).0 in
      let bound_if = is_ok (n.netconn_bind_if conn h2).0 in
      let listening = is_ok (n.netconn_listen conn h3).0 in
      elim (Bool-cases (conn == null)) [
        | inl nil ↦ inl (ground (arith, nil), ground (arith, nil))
        | inr set ↦
            let alive : laws.live conn h4 ≡ true =
              laws.listen_live conn conn h3
              ∙ laws.bind_if_live conn conn h2
              ∙ laws.bind_live conn conn h1
              ∙ laws.new_live h (ground (arith, set)) in
            inr (
              ground (arith, set),
              (
                if bound
                    then (if bound_if
                        then (if listening then h4 else n.netconn_delete conn h4)
                        else n.netconn_delete conn h3)
                    else n.netconn_delete conn h2,
                ground (arith, set),
                ground (
                  arith,
                  alive,
                  laws.delete_live conn h2,
                  laws.delete_live conn h3,
                  laws.delete_live conn h4,
                ),
              ),
            )
      ]

  -- A connection that lwIP accepts and gives both addresses of is accepted with lwIP's peer as its
  -- local address and lwIP's own end as its remote one, byte for byte, with their ports.
  pub accept_one-addresses :
      (listener : Ptr) (h : n.Heap) (a b c d e f g k port port' : ℕ) {h2 h3 : n.Heap}
      → let (err, new_conn, h1) = n.netconn_accept listener h in
        is_ok err ≡ true
        → n.netconn_getaddr new_conn false h1 ≡ (err_ok, ip4_addr a b c d, port, h2)
        → n.netconn_getaddr new_conn true h2 ≡ (err_ok, ip4_addr e f g k, port', h3)
        → AreBytes (a ∷ b ∷ c ∷ d ∷ e ∷ f ∷ g ∷ k ∷ [])
        → (t : TcpConn) × (accept_one n listener h ≡ (accepted t, h3))
          × (tcp_conn_local_addr t ≡ ((a, b, c, d), port))
          × (tcp_conn_remote_addr t ≡ ((e, f, g, k), port'))
  unfolding accept_one tcp_conn_local_addr tcp_conn_remote_addr
  accept_one-addresses listener h a b c d e f g k port port' good own far bytes =
      let new_conn = (n.netconn_accept listener h).1 in
      let t : TcpConn = record {
        conn = new_conn;
        local = ip4_addr a b c d;
        remote = ip4_addr e f g k;
        local_port = port;
        remote_port = port';
        pending = null;
        offset = 0;
      } in
      let near =
        get_byte-ip4_addr a b c d (omega arith) (omega arith) (omega arith) (omega arith) in
      let away =
        get_byte-ip4_addr e f g k (omega arith) (omega arith) (omega arith) (omega arith) in
      (
        t,
        ground arith,
        λ i. ((near.0 i, near.1 i, near.2 i, near.3 i), port),
        λ i. ((away.0 i, away.1 i, away.2 i, away.3 i), port'),
      )
