-- ===== src/Tcp/Accept/Pass.antt =====
-- One pass of the loop of `tcp_listener_accept`.
use tun2socket_lwip.Prelude.{
  ◌≡◌, inl, inr, ap, ◌∙◌, Bool, true, false, List, [], ◌∷◌, arith, Bool-cases,
}
use tun2socket_lwip.Lwip.{Ptr, null, is_ok}
use tun2socket_lwip.Tcp.{Netconns, TcpConn, stopped, skipped, accepted, accept_one}
use tun2socket_lwip.Tcp.Accept.{View, SameConns, AcceptLaws, named}

module _ (n : Netconns) (v : View n) where
  module _ (listener : Ptr) (laws : AcceptLaws n v listener) where
    -- one pass of the loop
    pub pass-stopped :
        (h : n.Heap)
        → v.waiting h ≡ []
        → (h' : n.Heap) × (accept_one n listener h ≡ (stopped, h'))
          × (v.waiting h' ≡ [])
          × SameConns n v h h'
    unfolding accept_one
    pass-stopped h e =
        let a = laws.accept_fail h e in
        let failed = a.0 in ((n.netconn_accept listener h).2, ground (arith, failed), a.1, a.2)

    module _ (h : n.Heap) (c : Ptr) (cs : List Ptr) (e : v.waiting h ≡ c ∷ cs) where
      abbrev h1 : n.Heap
      h1 = (n.netconn_accept listener h).2

      abbrev h2 : n.Heap
      h2 = (n.netconn_getaddr (n.netconn_accept listener h).1 false h1).3

      abbrev h3 : n.Heap
      h3 = (n.netconn_getaddr (n.netconn_accept listener h).1 true h2).3

      abbrev nc : Ptr
      nc = (n.netconn_accept listener h).1

      same-h2 : (v.waiting h2 ≡ cs) × SameConns n v h h2
      same-h2 =
          let a = laws.accept_next h c cs e in
          let g = laws.getaddr_known nc false h1 in
          (
            g.1 ∙ a.2,
            record {
              known_eq = λ own q. g.2.known_eq own q ∙ a.3.known_eq own q;
              live_eq = λ q. g.2.live_eq q ∙ a.3.live_eq q;
            },
          )

      same-h3 : (v.waiting h3 ≡ cs) × SameConns n v h h3
      same-h3 =
          let g = laws.getaddr_known nc true h2 in
          (
            g.1 ∙ same-h2.0,
            record {
              known_eq = λ own q. g.2.known_eq own q ∙ same-h2.1.known_eq own q;
              live_eq = λ q. g.2.live_eq q ∙ same-h2.1.live_eq q;
            },
          )

      -- the tests of the pass
      tests :
          (is_ok (n.netconn_accept listener h).0 ≡ true)
          × (is_ok (n.netconn_getaddr nc false h1).0 ≡ v.known false c h)
          × (is_ok (n.netconn_getaddr nc true h2).0 ≡ v.known true c h)
      tests =
          let a = laws.accept_next h c cs e in
          (
            a.0,
            (laws.getaddr_known nc false h1).0
                ∙ ap (λ r. v.known false r h1) a.1
                ∙ a.3.known_eq false c,
            (laws.getaddr_known nc true h2).0
                ∙ ap (λ r. v.known true r h2) a.1
                ∙ same-h2.1.known_eq true c,
          )

      pub pass-accepted :
          named n v c h ≡ true
          → (t : TcpConn) × (h' : n.Heap) × (accept_one n listener h ≡ (accepted t, h'))
            × (t.conn ≡ c)
            × (v.waiting h' ≡ cs)
            × SameConns n v h h'
      unfolding accept_one
      pass-accepted has =
          let ok = tests in
          let near : v.known false c h ≡ true = ground (arith, has) in
          let far : v.known true c h ≡ true = ground (arith, has) in
          (
            record {
              conn = nc;
              local = (n.netconn_getaddr nc false h1).1;
              remote = (n.netconn_getaddr nc true h2).1;
              local_port = (n.netconn_getaddr nc false h1).2;
              remote_port = (n.netconn_getaddr nc true h2).2;
              pending = null;
              offset = 0;
            },
            h3,
            ground (arith, ok, near, far),
            (laws.accept_next h c cs e).1,
            same-h3.0,
            same-h3.1,
          )

      -- what deleting the connection leaves
      dropped :
          (g : n.Heap)
          → v.waiting g ≡ cs
          → SameConns n v h g
          → let h' = n.netconn_delete nc g in
            (v.waiting h' ≡ cs)
            × (v.live c h' ≡ false)
            × ((own : Bool) (q : Ptr) → v.known own q h' ≡ v.known own q h)
            × ((q : Ptr) → v.live q h ≡ false → v.live q h' ≡ false)
      dropped g left same = (
        laws.delete_waiting nc g ∙ left,
        ap (λ r. v.live c (n.netconn_delete r g)) (laws.accept_next h c cs e).1
            ∙ laws.delete_live c g,
        λ own q. laws.delete_known nc g own q ∙ same.known_eq own q,
        λ q dead. laws.delete_dead nc q g (same.live_eq q ∙ dead),
      )

      pub pass-skipped :
          named n v c h ≡ false
          → (h' : n.Heap) × (accept_one n listener h ≡ (skipped, h'))
            × (v.waiting h' ≡ cs)
            × (v.live c h' ≡ false)
            × ((own : Bool) (q : Ptr) → v.known own q h' ≡ v.known own q h)
            × ((q : Ptr) → v.live q h ≡ false → v.live q h' ≡ false)
      unfolding accept_one
      pass-skipped lacks =
          let ok = tests in
          elim (Bool-cases (v.known false c h)) [
            | inr no_near ↦
                let d = dropped h2 same-h2.0 same-h2.1 in
                (n.netconn_delete nc h2, ground (arith, ok, no_near), d.0, d.1, d.2, d.3)
            | inl near ↦
                let no_far : v.known true c h ≡ false = ground (arith, near, lacks) in
                let d = dropped h3 same-h3.0 same-h3.1 in
                (n.netconn_delete nc h3, ground (arith, ok, near, no_far), d.0, d.1, d.2, d.3)
          ]
