-- ===== src/Tcp/Accept.antt =====
-- `tcp_listener_accept`: which of the connections that wait it returns, and what becomes of the others.
pub mod Pass
pub mod Loop
mod Tests
use tun2socket_lwip.Prelude.{
  ℕ, zero, suc, ◌<◌, ◌≡◌, ◌⊎◌, inl, inr, refl, ap, ◌∙◌, Bool, true, false, ◌&&◌, Option, none, some,
  List, [], ◌∷◌, ◌++◌, length, arith, Bool-cases, subst, sym,
}
use tun2socket_lwip.Lwip.{Ptr, null, is_ok}
use tun2socket_lwip.Tcp.{
  Netconns, TcpConn, stopped, skipped, accepted, accept_one, tcp_listener_accept,
}

-- What lwIP has of its connections: those that `netconn_accept` will hand out until it fails, whether a
-- connection has its own end and its remote end, and whether it is allocated.
pub record View (n : Netconns) : Type 0 where
  pub waiting : n.Heap → List Ptr
  pub known : Bool → Ptr → n.Heap → Bool
  pub live : Ptr → n.Heap → Bool

-- the same connections but for the waiting list
pub record SameConns (n : Netconns) (v : View n) (h h' : n.Heap) : Type 0 where
  pub known_eq : (own : Bool) (q : Ptr) → v.known own q h' ≡ v.known own q h
  pub live_eq : (q : Ptr) → v.live q h' ≡ v.live q h

-- What native/ relies on: `netconn_accept` hands the connections out in order, and fails when none comes
-- any more; `netconn_getaddr` succeeds on the ends that a connection has, and changes nothing;
-- `netconn_delete` ends a connection, and no other.
pub record AcceptLaws (n : Netconns) (v : View n) (listener : Ptr) : Type 0 where
  pub accept_next :
      (h : n.Heap) (c : Ptr) (cs : List Ptr)
      → v.waiting h ≡ c ∷ cs
      → let (err, c', h') = n.netconn_accept listener h in
        (is_ok err ≡ true) × (c' ≡ c) × (v.waiting h' ≡ cs) × SameConns n v h h'
  pub accept_fail :
      (h : n.Heap)
      → v.waiting h ≡ []
      → let (err, c, h') = n.netconn_accept listener h in
        (is_ok err ≡ false) × (v.waiting h' ≡ []) × SameConns n v h h'
  pub getaddr_known :
      (c : Ptr) (own : Bool) (h : n.Heap)
      → let (err, addr, port, h') = n.netconn_getaddr c own h in
        (is_ok err ≡ v.known own c h) × (v.waiting h' ≡ v.waiting h) × SameConns n v h h'
  pub delete_waiting : (c : Ptr) (h : n.Heap) → v.waiting (n.netconn_delete c h) ≡ v.waiting h
  pub delete_known :
      (c : Ptr) (h : n.Heap) (own : Bool) (q : Ptr)
      → v.known own q (n.netconn_delete c h) ≡ v.known own q h
  pub delete_live : (c : Ptr) (h : n.Heap) → v.live c (n.netconn_delete c h) ≡ false
  pub delete_dead :
      (c q : Ptr) (h : n.Heap) → v.live q h ≡ false → v.live q (n.netconn_delete c h) ≡ false

module _ (n : Netconns) (v : View n) where
  -- both ends are known
  abbrev pub named : Ptr → n.Heap → Bool
  named c h = v.known false c h && v.known true c h

  -- Connections that lacked an end before, and are not allocated after.
  unfoldable pub AreDropped : List Ptr → n.Heap → n.Heap → Type 0
  AreDropped [] h h' = Unit
  AreDropped (c ∷ cs) h h' = (named c h ≡ false) × (v.live c h' ≡ false) × AreDropped cs h h'

  -- What one call comes to: no connection is left, or one is returned that has both ends; those before
  -- it are dropped, and those behind it wait on.
  abbrev pub Outcome : n.Heap → Option TcpConn → n.Heap → Type 0
  Outcome h r h' =
      ((r ≡ none) × (v.waiting h' ≡ []) × AreDropped (v.waiting h) h h')
      ⊎ ((front : List Ptr) × (c : TcpConn) × (r ≡ some c)
          × (v.waiting h ≡ front ++ (c.conn ∷ v.waiting h'))
          × (named c.conn h ≡ true)
          × AreDropped front h h')
