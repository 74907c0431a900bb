-- ===== src/UdpIo/Output/Sent.antt =====
-- What `udp_sendto_if_src_port` hands to the interface, with the port that the caller gives.
use tun2socket_lwip.Prelude.{
  ℕ, ◌≡◌, ◌≢◌, ◌∙◌, refl, ap, ◌+◌, ◌^◌, ◌<◌, ◌≤◌, false, true, Option, none, some, ◌++◌, leb, ltb,
  if◌then◌else◌, drop, arith, length, length-append,
}
use tun2socket_lwip.Lwip.{Ptr, null, u16, ErrT, err_mem, Pbufs, PbufLaws, tot_len}
use tun2socket_lwip.Interface.{Netif, NetifOutput}
use tun2socket_lwip.Demux.{Pcb}
use tun2socket_lwip.Blocks.{load}
use tun2socket_lwip.Ip4.{Core, Calls, udp_hlen, ip_hlen, proto_udp, proto_udplite}
use tun2socket_lwip.Ip4.Output.{Fields, ip_header, NetifOutputFn, ip4_output_if_src}
use tun2socket_lwip.Ip4.Output.Sent.{
  CallLaws, fields, with_header, ip4_output_if_src-room, with_header-bytes, with_header-refs,
}
use tun2socket_lwip.UdpIo.{UdpHdr, print}
use tun2socket_lwip.UdpIo.Output.{
  header_length, chksum_of, add_header, write_header, put_out, send_from, source_port,
  udp_sendto_if_src_port,
}

module _ (b : Pbufs) {A : Type 0} (lwip : Calls b A) (netif_output : NetifOutputFn b A) (c : Pcb)
    (p : Ptr) (src_ip src_port dst_ip dst_port : ℕ) where
  abbrev blank : b.Heap → UdpHdr
  blank h = record {
    src = src_port;
    dest = dst_port;
    len = header_length c (tot_len b p h);
    chksum = 0;
  }

  -- the header that is sent
  abbrev pub header_of : b.Heap → UdpHdr
  header_of h = record (blank h) {
    chksum = chksum_of b lwip netif_output c p src_ip dst_ip (lwip.write p (print (blank h)) h);
  }

  module _ (call_laws : CallLaws b lwip) where
    write_header-bytes :
        (h : b.Heap)
        → leb udp_hlen (lwip.len p h) ≡ true
        → b.payload p (write_header b lwip netif_output c p src_ip src_port dst_ip dst_port h)
          ≡ print (header_of h) ++ drop udp_hlen (b.payload p h)
    unfolding write_header print
    write_header-bytes h long =
        let h1 = lwip.write p (print (blank h)) h in
        let long1 : leb udp_hlen (lwip.len p h1) ≡ true =
          ap (leb udp_hlen) (call_laws.write_len p (print (blank h)) h) ∙ long in
        call_laws.write_bytes p (print (header_of h)) h1 long1
        ∙ ap (λ r. print (header_of h) ++ drop udp_hlen r)
            (call_laws.write_bytes p (print (blank h)) h long)

module _ (b : Pbufs) {A : Type 0} (lwip : Calls b A) (netif_output : NetifOutputFn b A)
    (pcb p : Ptr) (dst_ip dst_port src_ip src_port : ℕ) (netif : Netif) (s : Core b A) where
  -- The buffer with room for the header
  abbrev roomy : b.Heap
  roomy = (b.pbuf_add_header p udp_hlen s.heap).1

  abbrev pub sent_header : Pcb → UdpHdr
  sent_header c = header_of b lwip netif_output c p src_ip src_port dst_ip dst_port roomy

  -- the state in which the datagram is handed to IPv4
  abbrev pub at_ip : Pcb → Core b A
  at_ip c = record s {
    heap = write_header b lwip netif_output c p src_ip src_port dst_ip dst_port roomy;
  }

  abbrev pub proto_of : Pcb → ℕ
  proto_of c = if c.udplite then proto_udplite else proto_udp

  abbrev pub out_fields : Pcb → Fields
  out_fields c = fields b lwip netif_output p src_ip dst_ip c.ttl c.tos (proto_of c) netif (at_ip c)

  -- the state in which the packet is handed to the interface
  abbrev pub at_netif : Pcb → Core b A
  at_netif c =
      with_header b lwip netif_output p src_ip dst_ip c.ttl c.tos (proto_of c) netif (at_ip c)

  at_ip-refs : PbufLaws b → CallLaws b lwip → (c : Pcb) → b.refs p (at_ip c).heap ≡ b.refs p s.heap
  unfolding write_header
  at_ip-refs laws call_laws c =
      call_laws.write_refs p _ _ ∙ call_laws.write_refs p _ _ ∙ laws.add_refs p udp_hlen s.heap

  put_out-same :
      (c : Pcb) (o : Option (ErrT × Core b A))
      → ip4_output_if_src b lwip netif_output p src_ip
          (some dst_ip)
          c.ttl
          c.tos
          (proto_of c)
          netif
          (at_ip c)
        ≡ o
      → put_out b lwip netif_output c p p src_ip dst_ip netif (at_ip c) ≡ o
  unfolding put_out
  put_out-same c none e = ground (arith, e)
  put_out-same c (some (err, s1)) e = ground (arith, e)

  send_from-room :
      (c : Pcb)
      → p ≢ null
      → s.table.pcbs pcb ≡ some c
      → tot_len b p s.heap + udp_hlen < 2 ^ 16
      → (b.pbuf_add_header p udp_hlen s.heap).0 ≡ false
      → leb udp_hlen (lwip.len p roomy) ≡ true
      → send_from b lwip netif_output pcb p dst_ip dst_port src_ip src_port netif s
        ≡ put_out b lwip netif_output c p p src_ip dst_ip netif (at_ip c)
  unfolding send_from add_header load
  send_from-room c ne at_pcb short room long =
      let over : ltb (u16 (tot_len b p s.heap + udp_hlen)) (tot_len b p s.heap) ≡ false =
        ground arith in
      ground (arith, over)

  at_ip-bytes :
      PbufLaws b
      → CallLaws b lwip
      → (c : Pcb) → (b.pbuf_add_header p udp_hlen s.heap).0 ≡ false
      → b.payload p (at_ip c).heap ≡ print (sent_header c) ++ b.payload p s.heap
  at_ip-bytes laws call_laws c room =
      write_header-bytes b lwip netif_output c p src_ip src_port dst_ip dst_port call_laws roomy
        (call_laws.add_len p udp_hlen s.heap room)
      ∙ ap (λ r. print (sent_header c) ++ r) (laws.add_bytes p udp_hlen s.heap room).0

  -- The headers say the length of the datagram, with 8 and with 28 bytes of headers.
  pub sent-lengths :
      PbufLaws b
      → CallLaws b lwip
      → (c : Pcb) → (b.pbuf_add_header p udp_hlen s.heap).0 ≡ false
      → (b.pbuf_add_header p ip_hlen (at_ip c).heap).0 ≡ false
      → ((sent_header c).len ≡ header_length c (tot_len b p s.heap + udp_hlen))
        × ((out_fields c).total ≡ tot_len b p s.heap + 28)
  unfolding print
  sent-lengths laws call_laws c room room' =
      let added = (laws.add_bytes p udp_hlen s.heap room).1 in
      let added' = (laws.add_bytes p ip_hlen (at_ip c).heap room').1 in
      let here = ap length (at_ip-bytes laws call_laws c room) in
      let total : tot_len b p roomy ≡ tot_len b p s.heap + udp_hlen = omega (arith, added) in
      (
        ap (header_length c) total,
        omega (arith, added', here, length-append (print (sent_header c)) (b.payload p s.heap)),
      )

  pub at_netif-refs :
      PbufLaws b → CallLaws b lwip → (c : Pcb) → b.refs p (at_netif c).heap ≡ b.refs p s.heap
  at_netif-refs laws call_laws c =
      with_header-refs b lwip netif_output p src_ip dst_ip c.ttl c.tos (proto_of c) netif (at_ip c)
        laws call_laws
      ∙ at_ip-refs laws call_laws c

  -- A datagram that is sent on an allocated block in a buffer with one reference, with a port of the
  -- caller's which is not 0,
  -- over an interface that has an output function, below 65528 bytes and with room for both
  -- headers in its first buffer, goes to the interface as an IPv4 header with the caller's
  -- addresses, a UDP header with the caller's ports, and its bytes. The control blocks are as
  -- before: none is bound.
  pub sendto_lem :
      PbufLaws b
      → CallLaws b lwip
      → {f : NetifOutput} (c : Pcb) → pcb ≢ null
      → p ≢ null
      → b.refs p s.heap ≡ 1
      → src_port ≢ 0
      → netif.output ≡ some f
      → s.table.pcbs pcb ≡ some c
      → tot_len b p s.heap + udp_hlen < 2 ^ 16
      → (b.pbuf_add_header p udp_hlen s.heap).0 ≡ false
      → (b.pbuf_add_header p ip_hlen (at_ip c).heap).0 ≡ false
      → (udp_sendto_if_src_port b lwip netif_output pcb p dst_ip dst_port
            (some netif)
            src_ip
            src_port
            s
          ≡ netif_output netif p dst_ip (at_netif c))
        × (b.payload p (at_netif c).heap
            ≡ ip_header (out_fields c) ++ (print (sent_header c) ++ b.payload p s.heap))
        × ((sent_header c).src ≡ src_port)
        × ((sent_header c).dest ≡ dst_port)
        × ((out_fields c).src ≡ src_ip)
        × ((out_fields c).dest ≡ dst_ip)
        × ((at_netif c).table ≡ s.table)
  unfolding udp_sendto_if_src_port source_port
  sendto_lem laws call_laws c some_pcb some_p one some_port set at_pcb short room room' =
      let long = call_laws.add_len p udp_hlen s.heap room in
      let out =
        ip4_output_if_src-room b lwip netif_output p src_ip dst_ip c.ttl c.tos (proto_of c) netif
          (at_ip c) laws call_laws (at_ip-refs laws call_laws c ∙ one) set room' in
      let sent = send_from-room c some_p at_pcb short room long ∙ put_out-same c _ out in
      (
        ground (arith, sent),
        with_header-bytes b lwip netif_output p src_ip dst_ip c.ttl c.tos (proto_of c) netif
              (at_ip c) laws call_laws room'
            ∙ ap (λ r. ip_header (out_fields c) ++ r) (at_ip-bytes laws call_laws c room),
        refl,
        refl,
        refl,
        refl,
        refl,
      )

  -- With a port of the caller's, a datagram of more than 65527 bytes, in a chain whose length fits in 16
  -- bits, is refused with ERR_MEM, and nothing changes.
  pub sendto-too_long :
      pcb ≢ null
      → p ≢ null
      → src_port ≢ 0
      → tot_len b p s.heap < 2 ^ 16
      → 2 ^ 16 ≤ tot_len b p s.heap + udp_hlen
      → udp_sendto_if_src_port b lwip netif_output pcb p dst_ip dst_port
          (some netif)
          src_ip
          src_port
          s
        ≡ some (err_mem, s)
  unfolding udp_sendto_if_src_port source_port send_from
  sendto-too_long some_pcb some_p some_port counted long =
      let over : ltb (u16 (tot_len b p s.heap + udp_hlen)) (tot_len b p s.heap) ≡ true =
        ground arith in
      ground (arith, over)
