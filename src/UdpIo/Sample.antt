-- ===== src/UdpIo/Sample.antt =====
-- Data for the tests: the interface of native/, a block as `udp_conn_listen` leaves it, a packet.
use tun2socket_lwip.Prelude.{refl, true, false, none, some, List, [], ◌∷◌, arith, ℕ}
use tun2socket_lwip.Lwip.{null}
use tun2socket_lwip.Lwip.Model.{pbufs}
use tun2socket_lwip.Queues
use tun2socket_lwip.Interface.{Netif, global_if_output}
use tun2socket_lwip.Demux.{Pcb, accept_any_port}
use tun2socket_lwip.Udp.{UdpConn}
use tun2socket_lwip.Blocks.{Table, put, zero_pcb}
use tun2socket_lwip.Ip4.{Handler}
use tun2socket_lwip.Ip4.Input.AnyAddress.{IsOpen}
use tun2socket_lwip.UdpIo.{index}
use tun2socket_lwip.UdpIo.Input.Deliver.{Listens}
use tun2socket_lwip.UdpIo.Input.Capture.{App}

-- an interface with no address, and a block as `udp_conn_listen` leaves it
abbrev pub tun : Netif
tun = record {
  name = (b'e', b'n');
  num = 0;
  ip_addr = 0;
  netmask = 0;
  broadcast = false;
  output = some global_if_output;
  state = null;
  mtu = 1500;
  up = true;
  link_up = true;
  is_default = true;
}

abbrev pub listener : Pcb
listener = record (zero_pcb 3) {
  local_port = accept_any_port;
  netif_idx = 1;
  recv = 900;
  recv_arg = 901;
}

-- 10.0.0.2:40000 to 8.8.8.8:53, three bytes
abbrev pub packet : List ℕ
packet =
    69 ∷ 0 ∷ 0 ∷ 31 ∷ 0 ∷ 7 ∷ 0 ∷ 0 ∷ 64 ∷ 17 ∷ 96 ∷ 182 ∷ 10 ∷ 0 ∷ 0 ∷ 2 ∷ 8 ∷ 8 ∷ 8 ∷ 8 ∷ 156 ∷ 64
    ∷ 0 ∷ 53 ∷ 0 ∷ 11 ∷ 0 ∷ 0 ∷ 1 ∷ 2 ∷ 3 ∷ []

-- the control blocks, with the listener alone
abbrev pub blocks : Table
blocks = record { pcbs = put (λ p. none) 3 (some listener); udp_pcbs = 3 ∷ []; udp_port = 49152 }

pub blocks-Listens : Listens blocks listener 3 tun
unfolding index
blocks-Listens = record {
  only = refl;
  at_q = refl;
  listener = record {
    self_eq = refl;
    port_eq = refl;
    ip_eq = refl;
    netif_eq = refl;
    idle = refl;
    recv_set = omega arith;
  };
}

-- a connection as `udp_conn_listen` leaves it
abbrev pub fresh : UdpConn
fresh = record { pcb = 3; rx = Queues.zeroed; tx = Queues.zeroed; tx_polling = false }

pub tun-IsOpen : IsOpen tun
tun-IsOpen = record { up_eq = refl; link_up_eq = refl; addr_eq = refl }

-- an upper layer that takes every packet
abbrev pub ignore : Handler pbufs App
ignore p inp s = some (tt, s)
