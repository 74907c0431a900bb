-- ===== src/TcpDemux/Sample.antt =====
-- Data for the tests: the listener of native/tcp.c, and a block of `tcp_alloc`.
use tun2socket_lwip.Prelude.{false}
use tun2socket_lwip.Demux.{addr_any}
use tun2socket_lwip.TcpDemux.{TcpPcb, ListenPcb, other, tcp_accept_any_port}

abbrev pub listener : ListenPcb
listener = record {
  self = 20;
  local_ip = addr_any;
  local_port = tcp_accept_any_port;
  netif_idx = 1;
  accepts_pending = 0;
  backlog = 128;
  callback_arg = 21;
}

-- a block of `tcp_alloc`
abbrev pub blank : TcpPcb
blank = record {
  self = 30;
  local_ip = 0;
  local_port = 0;
  remote_ip = 0;
  remote_port = 0;
  netif_idx = 0;
  state = other;
  backlog_pending = false;
  rcv_nxt = 0;
  rcv_wnd = 65535;
  rcv_ann_right_edge = 0;
  snd_nxt = 0;
  snd_wl1 = 0;
  snd_wl2 = 0;
  snd_lbb = 0;
  lastack = 0;
  snd_wnd = 0;
  snd_wnd_max = 0;
  tmr = 0;
  callback_arg = 0;
  listener = 0;
}
