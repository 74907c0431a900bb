-- ===== src/UdpIo/Output/ZeroPort.antt =====
-- A datagram without a source port.
use tun2socket_lwip.Prelude.{ℕ, ◌≡◌, ◌≢◌, some, arith}
use tun2socket_lwip.Lwip.{Ptr, Pbufs}
use tun2socket_lwip.Interface.{Netif}
use tun2socket_lwip.Demux.{Pcb}
use tun2socket_lwip.Blocks.{load}
use tun2socket_lwip.Ip4.{Core, Calls}
use tun2socket_lwip.Ip4.Output.{NetifOutputFn}
use tun2socket_lwip.UdpIo.Output.{source_port, udp_sendto_if_src_port}

module _ (b : Pbufs) {A : Type 0} (lwip : Calls b A) (netif_output : NetifOutputFn b A)
    (pcb p : Ptr) (dst_ip dst_port src_ip : ℕ) (netif : Netif) (s : Core b A) where
  -- On an allocated block with a port, a datagram with source port 0 is sent exactly as one with the
  -- port of the block: on a block of native/, which has the wildcard for its port, from port 1.
  pub sendto-zero_port :
      (c : Pcb)
      → s.table.pcbs pcb ≡ some c
      → c.local_port ≢ 0
      → udp_sendto_if_src_port b lwip netif_output pcb p dst_ip dst_port (some netif) src_ip 0 s
        ≡ udp_sendto_if_src_port b lwip netif_output pcb p dst_ip dst_port
            (some netif)
            src_ip
            c.local_port
            s
  unfolding udp_sendto_if_src_port source_port load
  sendto-zero_port c at_pcb bound = ground (arith, at_pcb, bound)
