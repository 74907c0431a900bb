-- ===== src/TcpDemux/Input.antt =====
-- lwip/core/tcp_in.c: `tcp_input`. What is done to an established connection, `tcp_process` and what
-- follows it, is an argument, as are the results of `tcp_alloc`, `tcp_next_iss`, `tcp_enqueue_flags`
-- and the clock. The calls that send are recorded in order, in `actions`.
pub mod Connect
mod Tests
use tun2socket_lwip.Prelude.{
  ℕ, ◌+◌, ◌%◌, ◌^◌, Option, none, some, List, [], ◌∷◌, ◌++◌, ◌==◌, if◌then◌else◌, Cmd,
}
use tun2socket_lwip.Lwip.{Ptr, ErrT, Pbufs}
use tun2socket_lwip.Interface.{Netif}
use tun2socket_lwip.Ip4.{IpData, Core, Calls, Handler, freed}
use tun2socket_lwip.UdpIo.{index}
use tun2socket_lwip.TcpDemux.{
  TcpPcb, Segment, TcpPcbs, to_active, to_timewait, to_listener, to_nobody, Action, send_rst, reset,
  tcp_demux, tcp_listen_input, tcp_timewait_input,
}
use tun2socket_lwip.TcpDemux.Header.{
  TcpInput, Chains, has_flag, tcp_fin, tcp_syn, tcp_rst, tcp_ack, tcp_check,
}

-- the control blocks, and what has been sent
pub record TcpStack : Type 0 where
  pub pcbs : TcpPcbs
  pub actions : List Action

-- what `tcp_input` calls besides: `tcp_ticks`, and the results of `tcp_alloc`, `tcp_next_iss` and
-- `tcp_enqueue_flags`; `process` is `tcp_input` on a connection, from the search on
pub record TcpCalls (b : Pbufs) : Type 0 where
  pub tcp_ticks : ℕ
  pub tcp_alloc : Option TcpPcb
  pub tcp_next_iss : ℕ
  pub tcp_enqueue_flags : ErrT
  pub process : TcpPcb → TcpInput → Ptr → Cmd (Core b TcpStack) (Unit {0})

-- the segment that the searches look at; `input` is `netif_get_index(ip_data.current_input_netif)`
pub segment_of : TcpInput → IpData → Netif → Segment
segment_of i ip netif = record {
  src_ip = ip.current_iphdr_src;
  dst_ip = ip.current_iphdr_dest;
  src = i.hdr.src;
  dest = i.hdr.dest;
  seqno = i.hdr.seqno;
  ackno = i.hdr.ackno;
  wnd = i.hdr.wnd;
  tcplen = i.tcplen;
  rst = has_flag i.hdr.flags tcp_rst;
  ack = has_flag i.hdr.flags tcp_ack;
  syn = has_flag i.hdr.flags tcp_syn;
  fin = has_flag i.hdr.flags tcp_fin;
  input = index netif;
}

-- the block at its address, as a handler leaves it
pub replaced : TcpPcb → List TcpPcb → List TcpPcb
replaced c [] = []
replaced c (x ∷ xs) = (if x.self == c.self then c else x) ∷ replaced c xs

-- a list without its head
abbrev tail_of : {A : Type 0} → List A → List A
tail_of [] = []
tail_of (x ∷ xs) = xs

module _ (b : Pbufs) (lwip : Calls b TcpStack) (chains : Chains b) (calls : TcpCalls b) where
  -- the blocks that are left, and what is sent
  abbrev after : TcpPcbs → List Action → Core b TcpStack → Core b TcpStack
  after pcbs sent s = record s { app = record { pcbs = pcbs; actions = s.app.actions ++ sent } }

  -- `tcp_input`, from the searches on
  pub tcp_found : Ptr → TcpInput → Segment → Cmd (Core b TcpStack) (Unit {0})
  unfolding replaced
  tcp_found p i seg s =
      let (target, pcbs) = tcp_demux seg s.app.pcbs in
      elim target [
        | to_active c ↦ calls.process c i p (after pcbs [] s)
        | to_timewait c ↦
            let (c', sent) = tcp_timewait_input seg calls.tcp_ticks c in
            some (tt, freed b p (after (record pcbs { tw = replaced c' pcbs.tw }) sent s))
        | to_listener l ↦
            let (pcbs', sent) =
              tcp_listen_input seg calls.tcp_alloc calls.tcp_next_iss calls.tcp_enqueue_flags l
                (tail_of pcbs.listening) pcbs in
            some (tt, freed b p (after pcbs' sent s))
        | to_nobody ↦
            some (tt, freed b p (after pcbs (if seg.rst then [] else send_rst (reset seg) ∷ []) s))
      ]

  -- `tcp_input`
  pub tcp_input : Handler b TcpStack
  unfolding tcp_found segment_of
  tcp_input p inp s = elim (tcp_check b lwip chains p s) [
    | none ↦ none
    | some (none, s1) ↦ some (tt, s1)
    | some (some i, s1) ↦ elim (s1.ip_data.current_input_netif) [
      | none ↦ none
      | some netif ↦ tcp_found p i (segment_of i s1.ip_data netif) s1
    ]
  ]
