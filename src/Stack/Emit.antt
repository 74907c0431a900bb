-- ===== src/Stack/Emit.antt =====
-- From the application to the reader of the tunnel device: `udp_conn_sendto`, `udp_poll_tx`,
-- `udp_sendto_if_src_port`, `ip4_output_if_src`, `global_if_output` and `link_read`.
use tun2socket_lwip.Prelude.{
  ℕ, ◌+◌, ◌<◌, ◌≤◌, ◌^◌, ◌≡◌, ◌≢◌, ap, ◌∙◌, false, none, some, List, [], ◌++◌, length, arith,
  length-append, if◌then◌else◌,
}
use tun2socket_lwip.Lwip.{Ptr, null, err_ok, Pbufs, PbufLaws, tot_len}
use tun2socket_lwip.Queues.Holds.{Holds}
use tun2socket_lwip.Interface.{Netif, NetifOutput}
use tun2socket_lwip.Link.{Link, World, reads, link_read}
use tun2socket_lwip.Demux.{Pcb}
use tun2socket_lwip.Ip4.{Core, Calls, ip_hlen, udp_hlen, proto_udp, proto_udplite}
use tun2socket_lwip.Ip4.Output.{Fields, ip_header}
use tun2socket_lwip.Ip4.Output.Checksum.{length-ip_header}
use tun2socket_lwip.Ip4.Output.Sent.{CallLaws}
use tun2socket_lwip.Udp.{
  Metadata, UdpWorld, Udps, addr_of, header_size, sent, udp_conn_sendto, udp_poll_tx,
}
use tun2socket_lwip.Udp.Encoding.{IsMetadata}
use tun2socket_lwip.Udp.Send.{buf, widened, packed, packed-data, packed-refs, send-then-poll}
use tun2socket_lwip.UdpIo.{UdpHdr, print}
use tun2socket_lwip.UdpIo.Header.{length-print}
use tun2socket_lwip.UdpIo.Output.{header_length, udp_sendto_if_src_port}
use tun2socket_lwip.UdpIo.Output.Sent.{
  at_ip, at_netif, at_netif-refs, sent_header, sent-lengths, sendto_lem,
}
use tun2socket_lwip.Stack.{lift, lift-PbufLaws, Device, link_world, netif_output, sending}
use tun2socket_lwip.Stack.Down.{IsReady, netif_output-read}

module _ (b : Pbufs) (lwip : Calls b Device) (others : Udps (lift b Device))
    (w : UdpWorld (lift b Device)) (m : Metadata) (data_ : List ℕ) where
  abbrev heap : Pbufs
  heap = lift b Device

  -- the buffer of the datagram, and the stack once `udp_poll_tx` has taken its metadata off
  abbrev p : Ptr
  p = buf heap w m data_ err_ok

  abbrev waiting : Core b Device
  waiting = packed heap w m data_ err_ok

  abbrev at_udp : Core b Device
  at_udp = (heap.pbuf_remove_header p header_size waiting).1

  abbrev pub ctx : Ptr
  ctx = w.heap.app.iface.output_context

  abbrev netif : Netif
  netif = w.heap.app.iface.global_if

  abbrev src : ℕ
  src = addr_of m.src_addr

  abbrev dst : ℕ
  dst = addr_of m.dst_addr

  module _ (c : Pcb) where
    -- the stack once the UDP header is written, and once the IPv4 header is
    abbrev at_ip4 : Core b Device
    at_ip4 =
        at_ip b lwip (netif_output b) (w.conn.pcb) p dst m.dst_port src m.src_port netif at_udp c

    abbrev at_device : Core b Device
    at_device =
        at_netif b lwip (netif_output b) (w.conn.pcb) p dst m.dst_port src m.src_port netif at_udp c

    -- lwIP had memory for the datagram, with room in front for what is put there
    pub record HasRoom : Type 0 where
      pub allocated : p ≢ null
      pub for_metadata : (widened heap w m data_ err_ok).0 ≡ false
      pub taken_off : (heap.pbuf_remove_header p header_size waiting).0 ≡ false
      pub for_udp : (b.pbuf_add_header p udp_hlen at_udp.heap).0 ≡ false
      pub for_ip4 : (b.pbuf_add_header p ip_hlen at_ip4.heap).0 ≡ false

    -- the headers of the packet, the second with the checksum given
    abbrev pub fields_of : Fields
    fields_of = record {
      tos = c.tos;
      total = length data_ + 28;
      id = w.heap.ip_id;
      ttl = c.ttl;
      proto = if c.udplite then proto_udplite else proto_udp;
      src = src;
      dest = dst;
    }

    abbrev pub header_of : ℕ → UdpHdr
    header_of chksum = record {
      src = m.src_port;
      dest = m.dst_port;
      len = header_length c (length data_ + udp_hlen);
      chksum = chksum;
    }

    abbrev pub packet_of : ℕ → List ℕ
    packet_of chksum = ip_header fields_of ++ (print (header_of chksum) ++ data_)

    pub length-packet : (chksum : ℕ) → length (packet_of chksum) ≡ length data_ + 28
    length-packet chksum = omega (
      arith,
      length-append (ip_header fields_of) (print (header_of chksum) ++ data_),
      length-append (print (header_of chksum)) data_,
      length-ip_header fields_of,
      length-print (header_of chksum),
    )

    module _ (laws : PbufLaws b) (call_laws : CallLaws b lwip) (room : HasRoom) where
      at_device-refs : b.refs p at_device.heap ≡ 1
      at_device-refs =
          at_netif-refs b lwip (netif_output b) (w.conn.pcb) p dst m.dst_port src m.src_port netif
            at_udp laws call_laws c
          ∙ laws.remove_refs p header_size waiting.heap
          ∙ packed-refs heap w m data_ err_ok (lift-PbufLaws b Device laws) room.allocated

      at_device-bytes :
          {f : NetifOutput}
          → w.conn.pcb ≢ null
          → m.src_port ≢ 0
          → w.heap.table.pcbs (w.conn.pcb) ≡ some c
          → w.heap.app.iface.global_if.output ≡ some f
          → length data_ + 28 < 2 ^ 16
          → b.payload p at_udp.heap ≡ data_
          → (udp_sendto_if_src_port b lwip
                (netif_output b)
                (w.conn.pcb)
                p
                dst
                m.dst_port
                (some netif)
                src
                m.src_port
                at_udp
              ≡ netif_output b netif p dst at_device)
            × ((chksum : ℕ) × (b.payload p at_device.heap ≡ packet_of chksum))
      at_device-bytes some_pcb some_port at_pcb set short data_eq =
          let total = ap length data_eq in
          let one : b.refs p at_udp.heap ≡ 1 =
            laws.remove_refs p header_size waiting.heap
            ∙ packed-refs heap w m data_ err_ok (lift-PbufLaws b Device laws) room.allocated in
          let out =
            sendto_lem b lwip (netif_output b) (w.conn.pcb) p dst m.dst_port src m.src_port netif
              at_udp laws call_laws c some_pcb room.allocated one some_port set at_pcb
              (omega (arith, total, short)) room.for_udp room.for_ip4 in
          let lengths =
            sent-lengths b lwip (netif_output b) (w.conn.pcb) p dst m.dst_port src m.src_port netif
              at_udp laws call_laws c room.for_udp room.for_ip4 in
          let hdr =
            sent_header b lwip (netif_output b) (w.conn.pcb) p dst m.dst_port src m.src_port netif
              at_udp c in
          (
            out.0,
            (
              hdr.chksum,
              out.1
                  ∙ ap
                      (λ n.
                        ip_header (record fields_of { total = n })
                        ++ (print hdr ++ b.payload p at_udp.heap))
                      (lengths.1 ∙ ap (λ n. n + 28) total)
                  ∙ ap
                      (λ n.
                        ip_header fields_of
                        ++ (print (record (header_of (hdr.chksum)) { len = n })
                            ++ b.payload p at_udp.heap))
                      (lengths.0 ∙ ap (λ n. header_length c (n + udp_hlen)) total)
                  ∙ ap (λ d. ip_header fields_of ++ (print (header_of (hdr.chksum)) ++ d)) data_eq,
            ),
          )

      -- A datagram that the application sends from a port which is not 0, between ports below
      -- 65536, on an open connection with an allocated block, nothing queued before it, and memory
      -- and room for it, over an interface that has an output function and an attached link whose
      -- reader has nothing waiting, is what the next read of the link gets once the callback has
      -- run, which ends without an abort, if it has 65507 bytes at most and fits in `size` with its headers: an IPv4 header, a
      -- UDP header, and its bytes. The headers carry the addresses and the ports that the
      -- application named, and the lengths. The buffer has then no reference left, and the
      -- connection has nothing queued.
      pub emit_lem :
          {f : NetifOutput} {l : Link} (size : ℕ)
          → w.conn.pcb ≢ null
          → m.src_port ≢ 0
          → IsMetadata m
          → w.heap.table.pcbs (w.conn.pcb) ≡ some c
          → w.heap.app.iface.global_if.output ≡ some f
          → Holds (w.conn.tx) []
          → IsReady w.heap.app l
          → length data_ + 28 < 2 ^ 16
          → length data_ + 28 ≤ size
          → let (r, w1) = udp_conn_sendto heap m data_ err_ok w in
            (r ≡ sent (length data_))
            × ((w2 : UdpWorld heap) × (udp_poll_tx heap (sending b lwip others) w1 ≡ some w2)
                × Holds (w2.conn.tx) []
                × ((chksum : ℕ) × (w' : World b) × (link_read b ctx size (link_world b w2.heap)
                      ≡ some (reads (length data_ + 28) (packet_of chksum), w'))
                    × (b.refs p w'.heap ≡ 0)))
      unfolding sending
      emit_lem size some_pcb some_port valid at_pcb set none_queued ready short fits =
          let data_eq =
            packed-data heap w m data_ err_ok (lift-PbufLaws b Device laws) room.allocated
              room.for_metadata (omega (arith, short)) room.taken_off in
          let down = at_device-bytes some_pcb some_port at_pcb set short data_eq in
          let chksum = down.1.0 in
          let long : tot_len b p at_device.heap ≡ length data_ + 28 =
            ap length down.1.1 ∙ length-packet chksum in
          let read =
            netif_output-read b p dst netif at_device laws size ready room.allocated
              (omega (arith, at_device-refs)) (omega (arith, long, fits)) in
          let handed =
            ap (λ o. elim o [ none ↦ none | some (_, s') ↦ some s' ]) (down.0 ∙ read.1) in
          let out =
            send-then-poll heap (sending b lwip others) w (lift-PbufLaws b Device laws) m data_
              valid (omega (arith, short)) none_queued some_pcb room.allocated room.for_metadata
              room.taken_off (read.0) handed in
          (
            out.0,
            (
              out.1.0,
              out.1.1,
              out.1.3,
              (
                chksum,
                read.2.0,
                ap (λ s. link_read b ctx size (link_world b s)) out.1.2
                    ∙ read.2.1
                    ∙ ap (λ bs. some (reads (length bs) bs, read.2.0)) down.1.1
                    ∙ ap (λ n. some (reads n (packet_of chksum), read.2.0)) (length-packet chksum),
                omega (arith, read.2.2, at_device-refs),
              ),
            ),
          )
