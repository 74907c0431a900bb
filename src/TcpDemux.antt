-- ===== src/TcpDemux.antt =====
-- lwip/core/tcp_in.c, as this repository extends it: the search of `tcp_input` for the control block
-- that gets a segment, where a listener on TCP_ACCEPT_ANY_PORT takes every port, `tcp_listen_input`,
-- which gives a new block the port that the segment is for, and `tcp_timewait_input`. SO_REUSE is off
-- and the stack is IPv4 only. Blocks are values in lists, in the order of the links `next`.
pub mod Find
pub mod Accept
pub mod Distinct
pub mod System
pub mod Sample
pub mod Backlog
pub mod Header
pub mod Input
mod Tests
use tun2socket_lwip.Prelude.{
  ℕ, ◌+◌, ◌-◌, ◌*◌, ◌/◌, ◌%◌, ◌^◌, Bool, true, false, not, ◌&&◌, ◌||◌, Option, none, some, List, [],
  ◌∷◌, ◌++◌, ◌==◌, ltb, leb, if◌then◌else◌,
}
use tun2socket_lwip.Lwip.{Ptr, ErrT, is_ok}
use tun2socket_lwip.Demux.{no_index, addr_any}

-- TCP_ACCEPT_ANY_PORT
abbrev pub tcp_accept_any_port : ℕ
tcp_accept_any_port = 1

-- the states of a connection that these functions tell apart
pub data TcpState : Type 0 where
  syn_rcvd other time_wait : TcpState

-- `struct tcp_pcb`, the fields that the search and the handlers read or write; `self` is its address
pub record TcpPcb : Type 0 where
  pub self : Ptr
  pub local_ip : ℕ
  pub local_port : ℕ
  pub remote_ip : ℕ
  pub remote_port : ℕ
  pub netif_idx : ℕ
  pub state : TcpState
  pub backlog_pending : Bool
  pub rcv_nxt : ℕ
  pub rcv_wnd : ℕ
  pub rcv_ann_right_edge : ℕ
  pub snd_nxt : ℕ
  pub snd_wl1 : ℕ
  pub snd_wl2 : ℕ
  pub snd_lbb : ℕ
  pub lastack : ℕ
  pub snd_wnd : ℕ
  pub snd_wnd_max : ℕ
  pub tmr : ℕ
  pub callback_arg : Ptr
  pub listener : Ptr

-- `struct tcp_pcb_listen`
pub record ListenPcb : Type 0 where
  pub self : Ptr
  pub local_ip : ℕ
  pub local_port : ℕ
  pub netif_idx : ℕ
  pub accepts_pending : ℕ
  pub backlog : ℕ
  pub callback_arg : Ptr

-- A segment as `tcp_input` sees it past its checks: the addresses of `ip_data`, its header, `tcplen`,
-- the flags, and the index of the interface that it came in by.
pub record Segment : Type 0 where
  pub src_ip : ℕ
  pub dst_ip : ℕ
  pub src : ℕ
  pub dest : ℕ
  pub seqno : ℕ
  pub ackno : ℕ
  pub wnd : ℕ
  pub tcplen : ℕ
  pub rst : Bool
  pub ack : Bool
  pub syn : Bool
  pub fin : Bool
  pub input : ℕ

-- `tcp_active_pcbs`, `tcp_tw_pcbs` and `tcp_listen_pcbs`
pub record TcpPcbs : Type 0 where
  pub active : List TcpPcb
  pub tw : List TcpPcb
  pub listening : List ListenPcb

-- the block that a segment is for
pub data Target : Type 0 where
  to_active to_timewait : TcpPcb → Target
  to_listener : ListenPcb → Target
  to_nobody : Target

-- the arguments of `tcp_rst`, less the block that gives its TTL
pub record Reset : Type 0 where
  pub seqno : ℕ
  pub ackno : ℕ
  pub local_ip : ℕ
  pub remote_ip : ℕ
  pub local_port : ℕ
  pub remote_port : ℕ

-- What a handler calls: `tcp_rst`, the accept callback with ERR_MEM, the SYN|ACK of a new block
-- by `tcp_output`, `tcp_abandon` of it, and `tcp_ack_now` with `tcp_output`.
pub data Action : Type 0 where
  send_rst : Reset → Action
  accept_failed acknowledge : Action
  send_syn_ack abandon : TcpPcb → Action

-- sequence numbers are a `u32_t`
abbrev pub seq : ℕ → ℕ
seq n = n % 2 ^ 32

-- TCP_SEQ_GEQ(a, b) and TCP_SEQ_LEQ(a, c): the sign of a difference as an `s32_t`
pub seq_geq : ℕ → ℕ → Bool
seq_geq a b = ltb (seq (seq a + 2 ^ 32 - seq b)) (2 ^ 31)

pub seq_leq : ℕ → ℕ → Bool
seq_leq a c = let d = seq (seq a + 2 ^ 32 - seq c) in d == 0 || leb (2 ^ 31) d

-- TCP_SEQ_BETWEEN(a, b, c)
pub seq_between : ℕ → ℕ → ℕ → Bool
unfolding seq_geq seq_leq
seq_between a b c = seq_geq a b && seq_leq a c

-- the reset of a segment
abbrev pub reset : Segment → Reset
reset seg = record {
  seqno = seg.ackno;
  ackno = seq (seg.seqno + seg.tcplen);
  local_ip = seg.dst_ip;
  remote_ip = seg.src_ip;
  local_port = seg.dest;
  remote_port = seg.src;
}

module _ (seg : Segment) where
  -- bound to no interface, or to the one that the segment came in by
  abbrev pub on_netif : ℕ → Bool
  on_netif idx = idx == no_index || idx == seg.input

  -- the test of both ends
  pub is_flow : TcpPcb → Bool
  is_flow c =
      on_netif c.netif_idx
      && c.remote_port == seg.src
      && c.local_port == seg.dest
      && c.remote_ip == seg.src_ip
      && c.local_ip == seg.dst_ip

  -- the test of a listener
  pub is_wanted : ListenPcb → Bool
  is_wanted l =
      on_netif l.netif_idx
      && (l.local_port == tcp_accept_any_port || l.local_port == seg.dest)
      && (l.local_ip == seg.dst_ip || l.local_ip == addr_any)

module _ {A : Type 0} (f : A → Bool) where
  -- A search past the blocks of `seen`: the first match, which moves to the front.
  unfoldable pub search_front : List A → List A → Option A × List A
  search_front seen [] = (none, seen)
  search_front seen (x ∷ xs) =
      let rest = search_front (seen ++ (x ∷ [])) xs in
      if f x then (some x, x ∷ (seen ++ xs)) else rest

  -- a search that leaves the list
  unfoldable pub search_first : List A → Option A
  search_first [] = none
  search_first (x ∷ xs) = let rest = search_first xs in if f x then some x else rest

-- the three searches of `tcp_input`
pub tcp_demux : Segment → TcpPcbs → Target × TcpPcbs
unfolding is_flow is_wanted search_front search_first
tcp_demux seg t =
    let (c, active) = search_front (is_flow seg) [] t.active in
    let w = search_first (is_flow seg) t.tw in
    let (l, listening) = search_front (is_wanted seg) [] t.listening in
    let miss : TcpPcbs = record t { listening = listening } in
    elim c [
      | some pcb ↦ (to_active pcb, record t { active = active })
      | none ↦ elim w [
        | some pcb ↦ (to_timewait pcb, t)
        | none ↦ elim l [ some lpcb ↦ (to_listener lpcb, miss) | none ↦ (to_nobody, miss) ]
      ]
    ]

-- a block of `tcp_alloc`, with the initial sequence number `iss`
pub new_pcb : Segment → ListenPcb → TcpPcb → ℕ → TcpPcb
new_pcb seg l npcb iss = record npcb {
  local_ip = seg.dst_ip;
  remote_ip = seg.src_ip;
  local_port = seg.dest;
  remote_port = seg.src;
  state = syn_rcvd;
  backlog_pending = true;
  rcv_nxt = seq (seg.seqno + 1);
  rcv_ann_right_edge = seq (seg.seqno + 1);
  snd_wl2 = iss;
  snd_nxt = iss;
  lastack = iss;
  snd_lbb = iss;
  snd_wl1 = seq (seg.seqno + 2 ^ 32 - 1);
  callback_arg = l.callback_arg;
  listener = l.self;
  netif_idx = l.netif_idx;
  snd_wnd = seg.wnd;
  snd_wnd_max = seg.wnd;
}

-- `tcp_listen_input` on the listener that is first on the list; `alloc` is what `tcp_alloc` gives,
-- `iss` is `tcp_next_iss`, and `rc` is what `tcp_enqueue_flags` returns. When it
-- fails, `tcp_abandon` takes the new block off the list again, and `tcp_backlog_accepted` takes it off
-- the count, which leaves the lists as they were; `tcp_parseopt` and the segment size, which change other fields, are left out.
pub tcp_listen_input :
    Segment
    → (alloc : Option TcpPcb) → (iss : ℕ) → (rc : ErrT) → ListenPcb
    → List ListenPcb
    → TcpPcbs
    → TcpPcbs × List Action
unfolding new_pcb
tcp_listen_input seg alloc iss rc l rest t =
    if seg.rst
    then (t, [])
    else if seg.ack
    then (t, send_rst (reset seg) ∷ [])
    else if not seg.syn
    then (t, [])
    else if leb l.backlog l.accepts_pending
    then (t, [])
    else elim alloc [
      | none ↦ (t, accept_failed ∷ [])
      | some npcb ↦
          let c = new_pcb seg l npcb iss in
          if is_ok rc
          then (
            record t {
              active = c ∷ t.active;
              listening = record l { accepts_pending = l.accepts_pending + 1 } ∷ rest;
            },
            send_syn_ack c ∷ [],
          )
          else (t, abandon c ∷ [])
    ]

-- `tcp_timewait_input`; `tcp_ticks` is the clock
pub tcp_timewait_input : Segment → (tcp_ticks : ℕ) → TcpPcb → TcpPcb × List Action
unfolding seq_between
tcp_timewait_input seg tcp_ticks c =
    let c' = (if seg.fin && not seg.syn then record c { tmr = tcp_ticks } else c) in
    if seg.rst
    then (c, [])
    else if seg.syn && seq_between seg.seqno c.rcv_nxt (c.rcv_nxt + c.rcv_wnd)
    then (c, send_rst (reset seg) ∷ [])
    else (c', if ltb 0 seg.tcplen then acknowledge ∷ [] else [])
