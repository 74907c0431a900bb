-- ===== src/Ip4/Input.antt =====
-- lwip/core/ipv4/ip4.c: `ip4_input`.
pub mod AnyAddress
pub mod Filter
use tun2socket_lwip.Prelude.{
  ℕ, ◌+◌, Bool, true, false, not, ◌&&◌, ◌||◌, Option, none, some, List, [], ◌==◌, ltb,
  if◌then◌else◌, take, Cmd,
}
use tun2socket_lwip.Lwip.{Ptr, ErrT, err_ok, Pbufs, tot_len}
use tun2socket_lwip.Interface.{Netif}
use tun2socket_lwip.Demux.{addr_any}
use tun2socket_lwip.Ip4.{
  Core, freed, Calls, IpData, Handler, ismulticast, isbroadcast, ip4_input_accept, ip_hlen, version,
  header_len, packet_len, fragment, protocol, src_addr, dest_addr, proto_icmp, proto_tcp, proto_udp,
  proto_udplite,
}

-- the interface that takes the packet, if one does
pub accepting : ℕ → Netif → Option Netif
accepting dest inp =
    if ismulticast dest
    then (if inp.up && not (inp.ip_addr == addr_any) then some inp else none)
    else if ip4_input_accept dest inp
    then some inp
    else none

-- `ip_data` once a packet is dealt with
abbrev pub no_packet : IpData
no_packet = record {
  current_netif = none;
  current_input_netif = none;
  current_ip4_header = [];
  current_ip_header_tot_len = 0;
  current_iphdr_src = addr_any;
  current_iphdr_dest = addr_any;
}

module _ (b : Pbufs) {A : Type 0} (lwip : Calls b A) where
  -- `pbuf_realloc`, if the packet is shorter than its buffers
  abbrev pub trimmed : Ptr → ℕ → b.Heap → b.Heap
  trimmed p n h = if ltb n (tot_len b p h) then lwip.pbuf_realloc p n h else h

  -- the last case of the switch on the protocol
  pub unknown_protocol : Ptr → Netif → ℕ → Core b A → Core b A
  unknown_protocol p netif hlen s =
      let dest = s.ip_data.current_iphdr_dest in
      let forced = record s { heap = lwip.pbuf_header_force p hlen s.heap } in
      freed b p (
        if not (isbroadcast dest netif) && not (ismulticast dest)
        then lwip.icmp_proto_unreach p forced
        else s)

  module _ (udp_input tcp_input icmp_input : Handler b A) where
    -- the switch on the protocol
    pub dispatch : Ptr → Netif → Netif → ℕ → ℕ → Cmd (Core b A) (Unit {0})
    dispatch p inp netif hlen proto s =
        if proto == proto_udp || proto == proto_udplite
        then udp_input p inp s
        else if proto == proto_tcp
        then tcp_input p inp s
        else if proto == proto_icmp
        then icmp_input p inp s
        else some (tt, unknown_protocol p netif hlen s)

    -- `ip4_input`, once an interface takes the packet
    pub send_up : Ptr → Netif → Netif → List ℕ → Cmd (Core b A) ErrT
    unfolding dispatch
    send_up p inp netif iphdr s =
        let hlen = header_len iphdr in
        let s1 = record s {
          heap = (b.pbuf_remove_header p hlen s.heap).1;
          ip_data = record (s.ip_data) {
            current_netif = some netif;
            current_input_netif = some inp;
            current_ip4_header = iphdr;
            current_ip_header_tot_len = hlen;
          };
        } in
        elim (dispatch p inp netif hlen (protocol iphdr) s1) [
          | none ↦ none
          | some (_, s2) ↦ some (err_ok, record s2 { ip_data = no_packet })
        ]

    -- `ip4_input`, from the copy of the addresses to `ip_data`
    pub ip4_input_valid : Ptr → Netif → List ℕ → Cmd (Core b A) ErrT
    unfolding send_up accepting
    ip4_input_valid p inp iphdr s =
        let src = src_addr iphdr in
        let dest = dest_addr iphdr in
        let s1 = record s {
          ip_data = record (s.ip_data) { current_iphdr_src = src; current_iphdr_dest = dest };
        } in
        if isbroadcast src inp || ismulticast src
        then some (err_ok, freed b p s1)
        else elim (accepting dest inp) [
          | none ↦ some (err_ok, freed b p s1)
          | some netif ↦
              if not (fragment iphdr == 0)
              then some (err_ok, freed b p s1)
              else send_up p inp netif iphdr s1
        ]

    -- `ip4_input`
    pub ip4_input : Ptr → Netif → Cmd (Core b A) ErrT
    unfolding ip4_input_valid
    ip4_input p inp s =
        let iphdr = b.payload p s.heap in
        let hlen = header_len iphdr in
        let h1 = trimmed p (packet_len iphdr) s.heap in
        let s1 = record s { heap = h1 } in
        if not (version iphdr == 4)
        then some (err_ok, freed b p s)
        else if ltb (lwip.len p h1) hlen
            || ltb (tot_len b p h1) (packet_len iphdr)
            || ltb hlen ip_hlen
        then some (err_ok, freed b p s1)
        else if not (lwip.inet_chksum (take hlen iphdr) == 0)
        then some (err_ok, freed b p s1)
        else ip4_input_valid p inp iphdr s1
