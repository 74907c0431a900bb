-- ===== src/UdpIo/Input.antt =====
-- lwip/core/udp.c: `udp_input`.
pub mod Deliver
pub mod Capture
use tun2socket_lwip.Prelude.{
  ℕ, ◌+◌, Bool, true, false, not, ◌&&◌, ◌||◌, Option, none, some, List, ◌==◌, ltb, if◌then◌else◌,
  Cmd,
}
use tun2socket_lwip.Lwip.{Ptr, null, Pbufs, tot_len}
use tun2socket_lwip.Interface.{Netif}
use tun2socket_lwip.Demux.{Pcb}
use tun2socket_lwip.Ip4.{
  Core, freed, Calls, IpData, Handler, ismulticast, isbroadcast, protocol, proto_udp, proto_udplite,
  udp_hlen,
}
use tun2socket_lwip.UdpIo.{UdpHdr, parse, datagram, find, for_us}

-- A receive callback: the function and its argument, the block, the buffer, and the source.
abbrev pub Callback : Pbufs → Type 0 → Type 0
Callback b A = Ptr → Ptr → Ptr → Ptr → ℕ → ℕ → Cmd (Core b A) (Unit {0})

module _ (b : Pbufs) {A : Type 0} (lwip : Calls b A) where
  -- the test of the checksum; a length of 0 in UDP-Lite covers the whole datagram
  unfoldable pub chksum_ok : Ptr → UdpHdr → Core b A → Bool
  chksum_ok p hdr s =
      let total = tot_len b p s.heap in
      let src = s.ip_data.current_iphdr_src in
      let dest = s.ip_data.current_iphdr_dest in
      let sum = λ (chklen : ℕ).
        lwip.ip_chksum_pseudo_partial p proto_udplite total chklen src dest s.heap == 0 in
      if protocol s.ip_data.current_ip4_header == proto_udplite
      then (if hdr.len == 0 then sum total else not (ltb hdr.len udp_hlen) && sum hdr.len)
      else hdr.chksum == 0 || lwip.ip_chksum_pseudo p proto_udp total src dest s.heap == 0

  -- no block for a datagram to our address
  pub unreachable : Ptr → Bool → Core b A → Core b A
  unreachable p broadcast s =
      let ip = s.ip_data in
      let forced = record s {
        heap = lwip.pbuf_header_force p (ip.current_ip_header_tot_len + udp_hlen) s.heap;
      } in
      freed b p (
        if not broadcast && not (ismulticast ip.current_iphdr_dest)
        then lwip.icmp_port_unreach p forced
        else s)

  module _ (call : Callback b A) where
    -- the end of `udp_input`, once the header is removed
    pub give : Ptr → Option Pcb → UdpHdr → Bool → Cmd (Core b A) (Unit {0})
    unfolding unreachable
    give p none hdr broadcast s = some (tt, unreachable p broadcast s)
    give p (some c) hdr broadcast s =
        if c.recv == null
        then some (tt, freed b p s)
        else call c.recv c.recv_arg c.self p s.ip_data.current_iphdr_src hdr.src s

    -- `udp_input`, from the search on
    pub udp_input_found : Ptr → Netif → Option Pcb → UdpHdr → Bool → Cmd (Core b A) (Unit {0})
    unfolding give chksum_ok
    udp_input_found p inp pcb hdr broadcast s =
        let removed = b.pbuf_remove_header p udp_hlen s.heap in
        let s1 = record s { heap = removed.1 } in
        if not (for_us pcb s.ip_data.current_iphdr_dest inp) || not (chksum_ok p hdr s)
        then some (tt, freed b p s)
        else if removed.0
        then none
        else give p pcb hdr broadcast s1

    -- `udp_input`
    pub udp_input : Handler b A
    unfolding udp_input_found
    udp_input p inp s =
        let hdr = parse (b.payload p s.heap) in
        if p == null
        then none
        else if ltb (lwip.len p s.heap) udp_hlen
        then some (tt, freed b p s)
        else elim (s.ip_data.current_netif) [
          | none ↦ none
          | some netif ↦
              let broadcast = isbroadcast s.ip_data.current_iphdr_dest netif in
              let found = find inp (datagram hdr s.ip_data inp broadcast) s.table in
              udp_input_found p inp found.0 hdr broadcast
                (record s { udp_data = (hdr.src, hdr.dest); table = found.1 })
        ]
