-- ===== src/TcpDemux/Backlog/Tests.antt =====
-- A listener with one connection that waits.
use tun2socket_lwip.Prelude.{◌≡◌, ◌≤◌, refl, true, false, some, [], ◌∷◌, arith}
use tun2socket_lwip.Lwip.{err_ok}
use tun2socket_lwip.TcpDemux.{
  TcpPcb, ListenPcb, Segment, TcpPcbs, tcp_demux, tcp_listen_input, new_pcb,
}
use tun2socket_lwip.TcpDemux.Sample.{listener, blank}
use tun2socket_lwip.TcpDemux.Backlog.{tcp_backlog_accepted}
use tun2socket_lwip.TcpDemux.Backlog.Count.{pending}
use tun2socket_lwip.TcpDemux.Backlog.System.{
  Reach, here, next, connect, IsFresh, backlog_lem, accepted_lem,
}

abbrev syn : Segment
syn = record {
  src_ip = 0x200000a;
  dst_ip = 0x8080808;
  src = 40000;
  dest = 443;
  seqno = 5;
  ackno = 0;
  wnd = 1000;
  tcplen = 1;
  rst = false;
  ack = false;
  syn = true;
  fin = false;
  input = 1;
}

abbrev start : TcpPcbs
start = record { active = []; tw = []; listening = listener ∷ [] }

abbrev one_waits : TcpPcbs
one_waits = (tcp_listen_input syn (some blank) 7 err_ok listener [] (tcp_demux syn start).1).0

start-IsFresh : IsFresh listener start
start-IsFresh = record {
  none_yet = refl;
  only = refl;
  set = omega arith;
  zero_ = refl;
  small = omega arith;
}

one_waits-Reach : Reach start one_waits
unfolding tcp_demux
one_waits-Reach = next here (connect syn listener [] (some blank) 7 err_ok refl refl)

backlog_lem_example :
    (l' : ListenPcb) × (one_waits.listening ≡ l' ∷ [])
    × (l'.accepts_pending ≡ pending l'.self one_waits.active)
    × (l'.accepts_pending ≤ l'.backlog)
backlog_lem_example = backlog_lem listener start-IsFresh one_waits-Reach

accepted_lem_example :
    (c1 : TcpPcb) × (l' : ListenPcb) × (tcp_backlog_accepted
        (new_pcb syn listener blank 7)
        one_waits.listening
      ≡ some (c1, l' ∷ []))
    × (l'.accepts_pending ≡ pending l'.self [])
unfolding tcp_demux tcp_listen_input
accepted_lem_example =
    accepted_lem listener start-IsFresh one_waits-Reach [] (new_pcb syn listener blank 7) [] refl
