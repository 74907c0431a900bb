-- ===== src/Udp/System.antt =====
-- The threads that use a connection as steps, in any order, and the invariant of the connection.
use tun2socket_lwip.Prelude.{
  ℕ, ◌-◌, ◌<◌, subst, Option-cases, ◌≡◌, ◌≢◌, refl, true, false, some, List, [], ◌∷◌, arith, drop,
  ◌==◌, if◌then◌else◌, inl, inr, Bool-cases, ◌||◌,
}
use tun2socket_lwip.Lwip.{Ptr, null, ErrT, is_ok, Pbufs}
use tun2socket_lwip.Queues
use tun2socket_lwip.Queues.Holds.{Holds, zeroed-Holds, pop-take-drop}
use tun2socket_lwip.Queues.Overflow.{append_lem}
use tun2socket_lwip.Udp.{
  Metadata, UdpConn, UdpWorld, Udps, udp_on_received, udp_conn_recv, deliver, udp_conn_sendto,
  send_all, udp_poll_tx, udp_conn_listen, udp_conn_close,
}
use tun2socket_lwip.Udp.Receive.{rx_popped, udp_conn_recv-empty, udp_conn_recv-cons, chained}
use tun2socket_lwip.Udp.Receive
use tun2socket_lwip.Udp.Send.{buf, widened, udp_conn_sendto-closed, udp_conn_sendto-open}

-- Both queues are in order, and one callback is due exactly when `tx_polling` is set.
pub record IsSound (c : UdpConn) (due : ℕ) : Type 0 where
  pub received : List Ptr
  pub waiting : List Ptr
  pub rx_holds : Holds c.rx received
  pub tx_holds : Holds c.tx waiting
  pub polls : due ≡ (if c.tx_polling then 1 else 0)

abbrev pub IsSoundWorld : {b : Pbufs} → UdpWorld b → Type 0
IsSoundWorld w = IsSound (w.conn) (w.due)

deliver-conn :
    (b : Pbufs) (p : Ptr) (size : ℕ) (w : UdpWorld b)
    → ((deliver b p size w).1.conn ≡ w.conn) × ((deliver b p size w).1.due ≡ w.due)
unfolding deliver
deliver-conn b p size w = ground arith

module _ (b : Pbufs) (lwip : Udps b) (w : UdpWorld b) (ok : IsSoundWorld w) where
  on_received-IsSound :
      (p : Ptr) (src_addr src_port dst_addr dst_port : ℕ)
      → IsSoundWorld (udp_on_received b p src_addr src_port dst_addr dst_port w)
  unfolding udp_on_received
  on_received-IsSound p src_addr src_port dst_addr dst_port =
      let first = Receive.buffer b w p src_addr src_port dst_addr dst_port in
      let h3 = chained b w p src_addr src_port dst_addr dst_port in
      elim (Bool-cases (first == null)) [
        | inl nil ↦ rw nil ok
        | inr some_ ↦ rw some_ (record {
          received = _;
          waiting = ok.waiting;
          rx_holds = (append_lem b.pbuf_free (first ∷ []) h3 ok.rx_holds).1;
          tx_holds = ok.tx_holds;
          polls = ok.polls;
        })
      ]

  recv-queue :
      (size : ℕ) {ps : List Ptr} → Holds (w.conn.rx) ps → IsSoundWorld (udp_conn_recv b size w).1
  recv-queue size {ps = []} h = rw (udp_conn_recv-empty b w size h) ok
  recv-queue size {ps = p ∷ ps} h =
      let kept = deliver-conn b p size (record w { conn = rx_popped (w.conn) }) in
      rw (udp_conn_recv-cons b w size h, kept.0, kept.1)
        (record {
          received = ps;
          waiting = ok.waiting;
          rx_holds = (pop-take-drop 1 h).1;
          tx_holds = ok.tx_holds;
          polls = ok.polls;
        })

  module _ (m : Metadata) (data_ : List ℕ) (posted : ErrT) where
    sendto-full :
        w.conn.pcb ≢ null
        → (buf b w m data_ posted == null || (widened b w m data_ posted).0) ≡ true
        → ((udp_conn_sendto b m data_ posted w).1.conn ≡ w.conn)
          × ((udp_conn_sendto b m data_ posted w).1.due ≡ w.due)
    unfolding udp_conn_sendto
    sendto-full open_ full = ground arith

    sendto-IsSound : IsSoundWorld (udp_conn_sendto b m data_ posted w).1
    sendto-IsSound = elim (Bool-cases (w.conn.pcb == null)) [
      | inl closed ↦ rw (udp_conn_sendto-closed b w m data_ posted (ground arith)) ok
      | inr open_ ↦
          let alive : w.conn.pcb ≢ null = ground arith in
          elim (Bool-cases (buf b w m data_ posted == null || (widened b w m data_ posted).0)) [
            | inl full ↦ let kept = sendto-full alive full in rw (kept.0, kept.1) ok
            | inr room ↦
                let out =
                  udp_conn_sendto-open b w m data_ posted alive (ground arith) (ground arith)
                    ok.tx_holds in
                rw out.0 (record {
                  received = ok.received;
                  waiting = _;
                  rx_holds = ok.rx_holds;
                  tx_holds = out.1;
                  polls = ground (arith, ok.polls);
                })
          ]
    ]

  polled-IsSound :
      0 < w.due
      → (h : b.Heap)
      → IsSoundWorld {b = b} (record {
        heap = h;
        conn = record (w.conn) { tx_polling = false; tx = (Queues.pop (w.conn.tx) 32).1 };
        due = w.due - 1;
      })
  polled-IsSound one_due h = record {
    received = ok.received;
    waiting = drop 32 ok.waiting;
    rx_holds = ok.rx_holds;
    tx_holds = (pop-take-drop 32 ok.tx_holds).1;
    polls = ground (arith, ok.polls);
  }

  poll_tx-IsSound : {w' : UdpWorld b} → 0 < w.due → udp_poll_tx b lwip w ≡ some w' → IsSoundWorld w'
  unfolding udp_poll_tx
  poll_tx-IsSound {w'} one_due e =
      elim (Option-cases (send_all b lwip (w.conn.pcb) (Queues.pop (w.conn.tx) 32).0 w.heap)) [
        | inl aborted ↦ absurd (ground (arith, aborted, e))
        | inr (h, sent_) ↦
            let same : ◌≡◌ {A = UdpWorld b}
                (record {
                  heap = h;
                  conn = record (w.conn) { tx_polling = false; tx = (Queues.pop (w.conn.tx) 32).1 };
                  due = w.due - 1;
                })
                w' =
              ground (arith, sent_, e) in
            subst IsSoundWorld same (polled-IsSound one_due h)
      ]

  close-IsSound : IsSoundWorld (udp_conn_close b lwip w)
  unfolding udp_conn_close
  close-IsSound = record {
    received = ok.received;
    waiting = ok.waiting;
    rx_holds = ok.rx_holds;
    tx_holds = ok.tx_holds;
    polls = ok.polls;
  }

module _ (b : Pbufs) (lwip : Udps b) where
  -- one step of the stack's thread or of the application
  pub data Step (w : UdpWorld b) : UdpWorld b → Type 0 where
    arrive :
        (p : Ptr) (src_addr src_port dst_addr dst_port : ℕ)
        → Step w (udp_on_received b p src_addr src_port dst_addr dst_port w)
    recv : (size : ℕ) → Step w (udp_conn_recv b size w).1
    sendto :
        (m : Metadata) (data_ : List ℕ) (posted : ErrT)
        → Step w (udp_conn_sendto b m data_ posted w).1
    callback : {w' : UdpWorld b} → 0 < w.due → udp_poll_tx b lwip w ≡ some w' → Step w w'
    close : Step w (udp_conn_close b lwip w)

  pub data Reach (w : UdpWorld b) : UdpWorld b → Type 0 where
    here : Reach w w
    next : {u v : UdpWorld b} → Reach w u → Step u v → Reach w v

  Step-IsSound : {w w' : UdpWorld b} → Step w w' → IsSoundWorld w → IsSoundWorld w'
  Step-IsSound {w} (arrive p sa sp da dp) ok = on_received-IsSound b lwip w ok p sa sp da dp
  Step-IsSound {w} (recv size) ok = recv-queue b lwip w ok size ok.rx_holds
  Step-IsSound {w} (sendto m data_ posted) ok = sendto-IsSound b lwip w ok m data_ posted
  Step-IsSound {w} (callback one_due e) ok = poll_tx-IsSound b lwip w ok one_due e
  Step-IsSound {w} close ok = close-IsSound b lwip w ok

  Reach-IsSound : {w w' : UdpWorld b} → Reach w w' → IsSoundWorld w → IsSoundWorld w'
  Reach-IsSound here ok = ok
  Reach-IsSound (next r s) ok = Step-IsSound s (Reach-IsSound r ok)

  listen-fresh :
      (h : b.Heap) {h1 : b.Heap} {c : UdpConn}
      → udp_conn_listen b lwip h ≡ some (some c, h1)
      → IsSound c 0
  unfolding udp_conn_listen
  listen-fresh h {c = c} e =
      let pcb = (lwip.udp_new h).0 in
      let new : UdpConn = record {
        pcb = pcb;
        rx = Queues.zeroed;
        tx = Queues.zeroed;
        tx_polling = false;
      } in
      elim (Bool-cases (is_ok (lwip.udp_bind_any pcb (lwip.udp_new h).1).0)) [
        | inl bound ↦
            let same : new ≡ c = ground arith in
            rw (← same) (record {
              received = [];
              waiting = [];
              rx_holds = zeroed-Holds;
              tx_holds = zeroed-Holds;
              polls = refl;
            })
        | inr unbound ↦ absurd (ground arith)
      ]

  -- From a connection that `udp_conn_listen` gave, every interleaving of arrivals, reads, sends,
  -- callbacks and a close leaves both queues in order, and exactly one callback due if
  -- `tx_polling` is set and none if it is clear.
  pub listen-Reach-IsSound :
      (h h' : b.Heap) {h1 : b.Heap} {c : UdpConn} {w : UdpWorld b}
      → udp_conn_listen b lwip h ≡ some (some c, h1)
      → Reach (record { heap = h'; conn = c; due = 0 }) w
      → IsSoundWorld w
  listen-Reach-IsSound h h' e r = Reach-IsSound r (listen-fresh h e)
