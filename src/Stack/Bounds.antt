-- ===== src/Stack/Bounds.antt =====
-- What `udp_conn_sendto` makes the stack send, as a reader of the packet finds it.
use tun2socket_lwip.Prelude.{
  ℕ, ◌+◌, ◌<◌, ◌^◌, ◌≡◌, ◌∙◌, List, ◌++◌, length, take, drop, arith, ap, sym,
}
use tun2socket_lwip.Lwip.{Pbufs}
use tun2socket_lwip.Address.{ip4_addr-bound}
use tun2socket_lwip.Demux.{Pcb}
use tun2socket_lwip.Udp.{Metadata, UdpWorld, Udps, addr_of}
use tun2socket_lwip.Udp.Encoding.{IsMetadata}
use tun2socket_lwip.Ip4.{
  Calls, ip_hlen, version, header_len, packet_len, fragment, src_addr, dest_addr, udp_hlen,
}
use tun2socket_lwip.Ip4.Output.Checksum.{IsFields, InetLaw, drop-ip_header, ip_header_lem}
use tun2socket_lwip.UdpIo.{print, parse}
use tun2socket_lwip.UdpIo.Header.{IsUdpHdr, parse-print, drop-print}
use tun2socket_lwip.UdpIo.Output.Lengths.{header_length-bound}
use tun2socket_lwip.Stack.{lift, Device}
use tun2socket_lwip.Stack.Emit.{fields_of, header_of, packet_of, length-packet}

-- the fields of a block, and the next number of a packet, in their types
pub record IsSized (c : Pcb) (id : ℕ) : Type 0 where
  pub tos_lt : c.tos < 2 ^ 8
  pub ttl_lt : c.ttl < 2 ^ 8
  pub id_lt : id < 2 ^ 16

module _ (b : Pbufs) (lwip : Calls b Device) (others : Udps (lift b Device))
    (w : UdpWorld (lift b Device)) (m : Metadata) (data_ : List ℕ) (c : Pcb) where
  -- With ports, a type of service, a time to live and a packet number that fit their types, and 65507
  -- bytes of data at most, every field of the two headers in front of the data fits its place, if
  -- the checksum of UDP does, whatever the four bytes of the addresses are.
  packet-bounds :
      IsMetadata m
      → IsSized c w.heap.ip_id
      → (chksum : ℕ) → chksum < 2 ^ 16
      → length data_ + 28 < 2 ^ 16
      → IsFields (fields_of b lwip others w m data_ c)
        × IsUdpHdr (header_of b lwip others w m data_ c chksum)
  packet-bounds valid sized chksum small short =
      let tos = sized.tos_lt in
      let ttl = sized.ttl_lt in
      let id = sized.id_lt in
      let from = valid.src_port_lt in
      let to = valid.dst_port_lt in
      (
        record {
          tos_lt = tos;
          total_lt = short;
          id_lt = id;
          ttl_lt = ttl;
          proto_lt = ground arith;
          src_lt = ip4_addr-bound m.src_addr.0 m.src_addr.1 m.src_addr.2 m.src_addr.3;
          dest_lt = ip4_addr-bound m.dst_addr.0 m.dst_addr.1 m.dst_addr.2 m.dst_addr.3;
        },
        record {
          src_lt = from;
          dest_lt = to;
          len_lt = omega (arith, header_length-bound c (length data_ + udp_hlen));
          chksum_lt = small;
        },
      )

  module _ (valid : IsMetadata m) (sized : IsSized c w.heap.ip_id) (chksum : ℕ)
      (small : chksum < 2 ^ 16) (short : length data_ + 28 < 2 ^ 16) where
    abbrev whole : List ℕ
    whole = packet_of b lwip others w m data_ c chksum

    abbrev datagram : List ℕ
    datagram = print (header_of b lwip others w m data_ c chksum) ++ data_

    behind : drop ip_hlen whole ≡ datagram
    behind = drop-ip_header (fields_of b lwip others w m data_ c) datagram

    -- The packet that a datagram of 65507 bytes at most becomes, with ports, a type of service, a time
    -- to live, a packet number and a checksum of UDP that fit their types: a reader finds version 4, a
    -- header of 20 bytes with a right checksum, the length of the packet, no fragment, and the addresses
    -- that the application named; behind it a UDP header with the ports that the application named; and
    -- behind that the data.
    pub packet-read :
        (inet_chksum : List ℕ → ℕ)
        → InetLaw inet_chksum
        → (version whole ≡ 4)
          × (header_len whole ≡ ip_hlen)
          × (inet_chksum (take ip_hlen whole) ≡ 0)
          × (packet_len whole ≡ length whole)
          × (fragment whole ≡ 0)
          × (src_addr whole ≡ addr_of m.src_addr)
          × (dest_addr whole ≡ addr_of m.dst_addr)
          × ((parse (drop ip_hlen whole)).src ≡ m.src_port)
          × ((parse (drop ip_hlen whole)).dest ≡ m.dst_port)
          × (drop udp_hlen (drop ip_hlen whole) ≡ data_)
    packet-read inet_chksum law =
        let fit = packet-bounds valid sized chksum small short in
        let ip =
          ip_header_lem inet_chksum law (fields_of b lwip others w m data_ c) fit.0 datagram in
        let udp =
          ap parse behind ∙ parse-print (header_of b lwip others w m data_ c chksum) data_ fit.1 in
        (
          ip.0,
          ip.1,
          ap (λ n. inet_chksum (take n whole)) (sym ip.1) ∙ ip.7,
          ip.2 ∙ sym (length-packet b lwip others w m data_ c chksum),
          ip.3,
          ip.5,
          ip.6,
          ap (λ h. h.src) udp,
          ap (λ h. h.dest) udp,
          ap (drop udp_hlen) behind ∙ drop-print (header_of b lwip others w m data_ c chksum) data_,
        )
