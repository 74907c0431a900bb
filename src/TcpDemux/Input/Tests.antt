-- ===== src/TcpDemux/Input/Tests.antt =====
-- A SYN from 10.0.0.2:40000 to 8.8.8.8:443, with four bytes of options.
use tun2socket_lwip.Prelude.{
  ℕ, refl, some, List, [], ◌∷◌, arith, length, length-drop, if◌then◌else◌, ◌==◌,
}
use tun2socket_lwip.Lwip.{null, err_ok, err_mem}
use tun2socket_lwip.Lwip.Model.{pbufs}
use tun2socket_lwip.Ip4.{Core, Handler, isbroadcast, ismulticast}
use tun2socket_lwip.Ip4.Model.{calls}
use tun2socket_lwip.Ip4.Input.{no_packet}
use tun2socket_lwip.Ip4.Output.Checksum.{words}
use tun2socket_lwip.UdpIo.Sample.{tun, blocks}
use tun2socket_lwip.TcpDemux.{TcpPcb, Segment}
use tun2socket_lwip.TcpDemux.Sample.{listener, blank}
use tun2socket_lwip.TcpDemux.Header.{Chains, parse_tcp}
use tun2socket_lwip.TcpDemux.Header.Chain.{ChainLaws}
use tun2socket_lwip.TcpDemux.Input.{TcpStack, TcpCalls}
use tun2socket_lwip.TcpDemux.Input.Connect.{seg, conn, IsTcp}

-- buffers of one piece
abbrev one_piece : Chains pbufs
one_piece = record { next = λ _ _. null; tot = λ p h. length (h.bytes p); set_tot_len = λ _ _ h. h }

one_piece-ChainLaws : ChainLaws pbufs (calls {A = TcpStack}) one_piece
one_piece-ChainLaws = record {
  len_le = λ p h. omega arith;
  next_set = λ p h more. absurd (omega arith);
  next_bytes = λ p h set. absurd (set refl);
  remove_ok = λ p n h fits. ground arith;
  remove_bytes = λ p n h ok. ground arith;
  remove_len = λ p n h fits. ground (arith, length-drop n (h.bytes p));
  remove_next = λ p n h. refl;
  remove_next_len = λ p n h set. absurd (set refl);
  remove_behind = λ p n h set. absurd (set refl);
  set_bytes = λ p q n h. refl;
  set_len = λ p q n h. refl;
  remove_tot = λ p n h fits. ground (arith, length-drop n (h.bytes p));
  remove_next_tot = λ p n h set. absurd (set refl);
  set_tot = λ p n h set. absurd (set refl);
}

abbrev packet : List ℕ
packet =
    69 ∷ 0 ∷ 0 ∷ 44 ∷ 0 ∷ 7 ∷ 0 ∷ 0 ∷ 64 ∷ 6 ∷ 96 ∷ 180 ∷ 10 ∷ 0 ∷ 0 ∷ 2 ∷ 8 ∷ 8 ∷ 8 ∷ 8 ∷ 156 ∷ 64
    ∷ 1 ∷ 187 ∷ 255 ∷ 255 ∷ 255 ∷ 255 ∷ 0 ∷ 0 ∷ 0 ∷ 0 ∷ 96 ∷ 2 ∷ 3 ∷ 232 ∷ 0 ∷ 0 ∷ 0 ∷ 0 ∷ 2 ∷ 4 ∷ 5
    ∷ 180 ∷ []

abbrev start : Core pbufs TcpStack
start = record {
  heap = record {
    next = 7;
    held = λ p. if p == 5 then 1 else 0;
    bytes = λ p. if p == 5 then packet else [];
  };
  ip_data = no_packet;
  ip_id = 7;
  udp_data = (0, 0);
  table = blocks;
  app = record { pcbs = record { active = []; tw = []; listening = listener ∷ [] }; actions = [] };
}

abbrev tcp_calls : TcpCalls pbufs
tcp_calls = record {
  tcp_ticks = 0;
  tcp_alloc = some blank;
  tcp_next_iss = 99;
  tcp_enqueue_flags = err_ok;
  process = λ c i p s. some (tt, s);
}

abbrev ignore : Handler pbufs TcpStack
ignore p inp s = some (tt, s)

packet-IsTcp : IsTcp pbufs calls one_piece tcp_calls 5 tun start
unfolding isbroadcast ismulticast words parse_tcp
packet-IsTcp = record {
  not_null = omega arith;
  passes = refl;
  proto_eq = refl;
  short = omega arith;
  acceptable = refl;
  counted = record { tot_eq = refl; next_eq = λ set. absurd (set refl) };
}

abbrev the_conn : TcpPcb
the_conn =
    conn pbufs calls one_piece tcp_calls 5 tun start one_piece-ChainLaws packet-IsTcp listener blank

abbrev syn : Segment
syn = seg pbufs calls one_piece tcp_calls 5 tun start

-- no memory for the answer
abbrev full_calls : TcpCalls pbufs
full_calls = record tcp_calls { tcp_enqueue_flags = err_mem }
