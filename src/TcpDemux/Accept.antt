-- ===== src/TcpDemux/Accept.antt =====
-- A connection to any address and port: the SYN, the new block, and the segments that follow.
use tun2socket_lwip.Prelude.{
  ℕ, ◌≡◌, refl, ◌∙◌, ap, sym, ◌<◌, ◌+◌, true, false, none, some, List, [], ◌∷◌, ◌++◌, arith, leb,
  Option-cases, inl, inr,
}
use mathlib.Core.Path.{subst}
use tun2socket_lwip.Lwip.{ErrT, is_ok}
use tun2socket_lwip.Demux.{addr_any}
use tun2socket_lwip.TcpDemux.{
  TcpPcb, ListenPcb, Segment, TcpPcbs, to_active, to_listener, to_nobody, send_syn_ack, abandon,
  tcp_accept_any_port, on_netif, is_flow, is_wanted, search_front, search_first, tcp_demux,
  tcp_listen_input, new_pcb,
}
use tun2socket_lwip.TcpDemux.Find.{fronted, search_front_lem, search_first-middle}

-- a listener as native/tcp.c sets its own up
pub record IsAnyListener (seg : Segment) (l : ListenPcb) : Type 0 where
  pub port_eq : l.local_port ≡ tcp_accept_any_port
  pub ip_eq : l.local_ip ≡ addr_any
  pub netif_ok : on_netif seg l.netif_idx ≡ true

-- no connection has the ends of the segment
pub record IsNew (seg : Segment) (t : TcpPcbs) : Type 0 where
  pub not_active : search_first (is_flow seg) t.active ≡ none
  pub not_waiting : search_first (is_flow seg) t.tw ≡ none

-- a SYN that a listener has room for
pub record IsSyn (seg : Segment) (l : ListenPcb) : Type 0 where
  pub no_rst : seg.rst ≡ false
  pub no_ack : seg.ack ≡ false
  pub has_syn : seg.syn ≡ true
  pub room : l.accepts_pending < l.backlog

-- two segments with the same ends, that came in by the same interface
pub record SameFlow (seg seg' : Segment) : Type 0 where
  pub src_ip_eq : seg'.src_ip ≡ seg.src_ip
  pub dst_ip_eq : seg'.dst_ip ≡ seg.dst_ip
  pub src_eq : seg'.src ≡ seg.src
  pub dest_eq : seg'.dest ≡ seg.dest
  pub input_eq : seg'.input ≡ seg.input

module _ (seg : Segment) (t : TcpPcbs) where
  any_listener-is_wanted : (l : ListenPcb) → IsAnyListener seg l → is_wanted seg l ≡ true
  unfolding is_wanted
  any_listener-is_wanted l ok =
      let port = ok.port_eq in let any_ip = ok.ip_eq in let netif = ok.netif_ok in ground arith

  tcp_demux-new :
      IsNew seg t
      → tcp_demux seg t ≡ (
        elim (search_first (is_wanted seg) t.listening) [
          | some l ↦ to_listener l
          | none ↦ to_nobody
        ],
        record t {
          listening =
              fronted (is_wanted seg) (search_first (is_wanted seg) t.listening) t.listening;
        },
      )
  unfolding tcp_demux
  tcp_demux-new fresh =
      let none_active = search_front_lem (is_flow seg) t.active in
      let listeners = search_front_lem (is_wanted seg) t.listening in
      let not_active = fresh.not_active in
      let not_waiting = fresh.not_waiting in
      elim (Option-cases (search_first (is_wanted seg) t.listening)) [
        | inl gone ↦ ground (arith, none_active, listeners, gone)
        | inr (z, found) ↦ ground (arith, none_active, listeners, found)
      ]

  -- alone on the list, the listener stays where it is
  pub tcp_demux-only :
      (l : ListenPcb)
      → t.listening ≡ l ∷ []
      → IsAnyListener seg l
      → IsNew seg t
      → tcp_demux seg t ≡ (to_listener l, t)
  unfolding tcp_demux search_front
  tcp_demux-only l one ok fresh =
      let wanted = any_listener-is_wanted l ok in
      let none_active = search_front_lem (is_flow seg) t.active in
      let not_active = fresh.not_active in
      let not_waiting = fresh.not_waiting in ground (arith, none_active, one, wanted)

  -- a new connection takes what has its ends
  tcp_demux-first :
      (c : TcpPcb) (cs : List TcpPcb)
      → t.active ≡ c ∷ cs
      → is_flow seg c ≡ true
      → tcp_demux seg t ≡ (to_active c, t)
  unfolding tcp_demux search_front
  tcp_demux-first c cs e flow = ground (arith, e, flow)

  -- With a listener for any address and port of the interface on the list, every segment of no
  -- connection goes to some listener that wants it, whatever its addresses and ports.
  pub tcp_demux-any_port :
      (front back : List ListenPcb) (l : ListenPcb)
      → t.listening ≡ front ++ (l ∷ back)
      → IsAnyListener seg l
      → IsNew seg t
      → (z : ListenPcb) × ((tcp_demux seg t).0 ≡ to_listener z) × (is_wanted seg z ≡ true)
  tcp_demux-any_port front back l on_list ok fresh =
      let found = search_first-middle (is_wanted seg) front l back (any_listener-is_wanted l ok) in
      let here : search_first (is_wanted seg) t.listening ≡ some found.0 =
        ap (search_first (is_wanted seg)) on_list ∙ found.1 in
      (found.0, ap (λ r. r.0) (tcp_demux-new fresh) ∙ rw here refl, found.2)

-- with memory for a block
pub tcp_listen_input-new :
    (seg : Segment) (t : TcpPcbs) (l : ListenPcb) (rest : List ListenPcb) (npcb : TcpPcb) (iss : ℕ)
    (rc : ErrT)
    → IsSyn seg l
    → is_ok rc ≡ true
    → let c = new_pcb seg l npcb iss in
      tcp_listen_input seg (some npcb) iss rc l rest t ≡ (
        record t {
          active = c ∷ t.active;
          listening = record l { accepts_pending = l.accepts_pending + 1 } ∷ rest;
        },
        send_syn_ack c ∷ [],
      )
unfolding tcp_listen_input
tcp_listen_input-new seg t l rest npcb iss rc syn sent =
    let no_rst = syn.no_rst in
    let no_ack = syn.no_ack in
    let has_syn = syn.has_syn in
    let room : leb l.backlog l.accepts_pending ≡ false = ground (arith, syn.room) in ground arith

-- without room to queue the answer
pub tcp_listen_input-abandoned :
    (seg : Segment) (t : TcpPcbs) (l : ListenPcb) (rest : List ListenPcb) (npcb : TcpPcb) (iss : ℕ)
    (rc : ErrT)
    → IsSyn seg l
    → is_ok rc ≡ false
    → tcp_listen_input seg (some npcb) iss rc l rest t ≡ (t, abandon (new_pcb seg l npcb iss) ∷ [])
unfolding tcp_listen_input
tcp_listen_input-abandoned seg t l rest npcb iss rc syn failed =
    let no_rst = syn.no_rst in
    let no_ack = syn.no_ack in
    let has_syn = syn.has_syn in
    let room : leb l.backlog l.accepts_pending ≡ false = ground (arith, syn.room) in ground arith

-- A SYN for any address and port, of no connection, when the one listener is for any and has
-- room: it goes to the listener, and with memory for a block `tcp_listen_input` makes a
-- connection whose local end is the destination of the SYN and whose remote end is its source,
-- and answers it, if `tcp_enqueue_flags` succeeds. With that connection in the list, a segment between
-- the same ends by the same interface goes to it.
pub tcp_accept_lem :
    (seg seg' : Segment) (t : TcpPcbs) (l : ListenPcb) (npcb : TcpPcb) (iss : ℕ) (rc : ErrT)
    → t.listening ≡ l ∷ []
    → IsAnyListener seg l
    → IsNew seg t
    → IsSyn seg l
    → is_ok rc ≡ true
    → SameFlow seg seg'
    → let c = new_pcb seg l npcb iss in
      let (t', actions) = tcp_listen_input seg (some npcb) iss rc l [] t in
      (tcp_demux seg t ≡ (to_listener l, t))
      × (c.local_ip ≡ seg.dst_ip)
      × (c.local_port ≡ seg.dest)
      × (c.remote_ip ≡ seg.src_ip)
      × (c.remote_port ≡ seg.src)
      × (actions ≡ send_syn_ack c ∷ [])
      × (tcp_demux seg' t' ≡ (to_active c, t'))
unfolding new_pcb is_flow
tcp_accept_lem seg seg' t l npcb iss rc one ok fresh syn sent same =
    let c = new_pcb seg l npcb iss in
    let t' : TcpPcbs = record t {
      active = c ∷ t.active;
      listening = record l { accepts_pending = l.accepts_pending + 1 } ∷ [];
    } in
    let done = tcp_listen_input-new seg t l [] npcb iss rc syn sent in
    let a = same.src_ip_eq in
    let b = same.dst_ip_eq in
    let d = same.src_eq in
    let e = same.dest_eq in
    let f = same.input_eq in
    let netif = ok.netif_ok in
    let flow : is_flow seg' c ≡ true = ground arith in
    (
      tcp_demux-only seg t l one ok fresh,
      refl,
      refl,
      refl,
      refl,
      ap (λ r. r.1) done,
      subst (λ u. tcp_demux seg' u ≡ (to_active c, u)) (sym (ap (λ r. r.0) done))
          (tcp_demux-first seg' t' c t.active refl flow),
    )
