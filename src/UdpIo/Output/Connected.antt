-- ===== src/UdpIo/Output/Connected.antt =====
-- `udp_send` on a connected block, down to `udp_sendto_if_src_port`.
use tun2socket_lwip.Prelude.{◌≡◌, ◌≢◌, Option, some, if◌then◌else◌, arith}
use tun2socket_lwip.Lwip.{Ptr, null, ErrT, err_rte, Pbufs}
use tun2socket_lwip.Interface.{Netif}
use tun2socket_lwip.Demux.{Pcb, addr_any, no_index}
use tun2socket_lwip.Blocks.{load}
use tun2socket_lwip.Ip4.{Core, Calls, isloopback}
use tun2socket_lwip.Ip4.Input.AnyAddress.{IsOpen, ip4_route-open}
use tun2socket_lwip.Ip4.Output.{NetifOutputFn}
use tun2socket_lwip.UdpIo.Output.{
  udp_send, udp_sendto, udp_sendto_if, udp_sendto_if_src, udp_sendto_if_src_port,
}

module _ (b : Pbufs) {A : Type 0} (lwip : Calls b A) (netif_output : NetifOutputFn b A)
    (pcb p : Ptr) (netif : Netif) (s : Core b A) where
  abbrev direct : Pcb → Option (ErrT × Core b A)
  direct c =
      udp_sendto_if_src_port b lwip netif_output pcb p c.remote_ip c.remote_port (some netif)
        netif.ip_addr c.local_port s

  udp_sendto_if-direct :
      (c : Pcb)
      → pcb ≢ null
      → p ≢ null
      → s.table.pcbs pcb ≡ some c
      → c.local_ip ≡ addr_any
      → udp_sendto_if b lwip netif_output pcb p c.remote_ip c.remote_port (some netif) s ≡ direct c
  unfolding udp_sendto_if udp_sendto_if_src load
  udp_sendto_if-direct c some_pcb some_p at_pcb any_ip = ground arith

  -- On an allocated block that is bound to no address and to no interface, with an interface
  -- that is up and has no address, `udp_send` of a buffer is `udp_sendto_if_src_port` to the
  -- remote end, from the port of the block and the address of the interface, unless the remote
  -- address is a loopback one: then it is ERR_RTE, and nothing changes.
  pub udp_send_lem :
      IsOpen netif
      → (c : Pcb) → pcb ≢ null
      → p ≢ null
      → s.table.pcbs pcb ≡ some c
      → c.local_ip ≡ addr_any
      → c.netif_idx ≡ no_index
      → udp_send b lwip netif_output (some netif) pcb p s
        ≡ (if isloopback c.remote_ip then some (err_rte, s) else direct c)
  unfolding udp_send udp_sendto load
  udp_send_lem open_ c some_pcb some_p at_pcb any_ip any_netif =
      let routed = ip4_route-open netif open_ c.remote_ip in
      let rest = udp_sendto_if-direct c some_pcb some_p at_pcb any_ip in
      ground (arith, routed, rest)
