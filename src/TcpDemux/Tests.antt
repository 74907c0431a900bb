-- ===== src/TcpDemux/Tests.antt =====
-- A connection from 10.0.0.2:40000 to 8.8.8.8:443.
use tun2socket_lwip.Prelude.{◌+◌, ◌-◌, ◌^◌, ◌≡◌, refl, true, false, some, [], ◌∷◌}
use tun2socket_lwip.Lwip.{err_ok}
use tun2socket_lwip.TcpDemux.{
  TcpPcb, Segment, TcpPcbs, time_wait, is_flow, search_first, tcp_demux, tcp_listen_input,
  tcp_timewait_input, seq_between, acknowledge, new_pcb,
}
use tun2socket_lwip.TcpDemux.Sample.{listener, blank}
use tun2socket_lwip.TcpDemux.Distinct.{IsTcp}
use tun2socket_lwip.TcpDemux.System.{here, next, connect, Reach-IsTcp}
use tun2socket_lwip.TcpDemux.Accept.{IsAnyListener, IsNew}

abbrev syn : Segment
syn = record {
  src_ip = 0x200000a;
  dst_ip = 0x8080808;
  src = 40000;
  dest = 443;
  seqno = 2 ^ 32 - 1;
  ackno = 0;
  wnd = 1000;
  tcplen = 1;
  rst = false;
  ack = false;
  syn = true;
  fin = false;
  input = 1;
}

abbrev data_segment : Segment
data_segment = record syn { seqno = 0; tcplen = 5; ack = true; syn = false }

-- an older connection, to another port
abbrev older : TcpPcb
older = record blank {
  self = 29;
  local_ip = 0x8080808;
  local_port = 80;
  remote_ip = 0x200000a;
  remote_port = 40000;
  netif_idx = 1;
}

abbrev waiting : TcpPcb
waiting = record older { state = time_wait; rcv_nxt = 2 ^ 32 - 10 }

abbrev idle : TcpPcbs
idle = record { active = older ∷ []; tw = []; listening = listener ∷ [] }

idle-IsNew : IsNew syn idle
unfolding is_flow search_first
idle-IsNew = record { not_active = refl; not_waiting = refl }

listener-IsAnyListener : IsAnyListener syn listener
listener-IsAnyListener = record { port_eq = refl; ip_eq = refl; netif_ok = refl }

next_number : (new_pcb syn listener blank 7).rcv_nxt ≡ 0
unfolding new_pcb
next_number = refl

-- a window that goes round the end of the numbers
wrapped : seq_between 5 (2 ^ 32 - 10) (2 ^ 32 - 10 + 100) ≡ true
unfolding seq_between
wrapped = refl

answered : tcp_timewait_input data_segment 99 waiting ≡ (waiting, acknowledge ∷ [])
unfolding tcp_timewait_input
answered = refl

abbrev empty : TcpPcbs
empty = record idle { active = [] }

Reach-IsTcp_example :
    IsTcp 1 (tcp_listen_input syn (some blank) 7 err_ok listener [] (tcp_demux syn empty).1).0
unfolding tcp_demux
Reach-IsTcp_example =
    Reach-IsTcp {t = empty} refl
      (next here (connect syn listener [] (some blank) 7 err_ok refl refl refl))
