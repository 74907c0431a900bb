-- ===== src/UdpIo/Input/Capture.antt =====
-- From the interface to the application: `ip4_input`, `udp_input`, native's `udp_on_received` and
-- `udp_conn_recv` put together.
use tun2socket_lwip.Prelude.{
  ℕ, ◌≡◌, ◌≢◌, ◌≤◌, ◌<◌, ◌+◌, ◌^◌, refl, ap, ◌∙◌, true, false, inl, inr, some, List, [], leb, arith,
  drop,
}
use tun2socket_lwip.Lwip.{Ptr, null, err_ok, Pbufs, PbufLaws, tot_len}
use tun2socket_lwip.Interface.{Netif}
use tun2socket_lwip.Demux.{Pcb}
use tun2socket_lwip.Queues.Holds.{Holds}
use tun2socket_lwip.Udp.{UdpConn, UdpWorld, udp_on_received, udp_conn_recv, header_size, received}
use tun2socket_lwip.Udp.Encoding.{IsMetadata}
use tun2socket_lwip.Udp.Receive.{buffer, metadata, arrived, received-then-recv}
use tun2socket_lwip.Ip4.{
  Core, Calls, Handler, proto_udp, udp_hlen, header_len, protocol, src_addr, dest_addr,
}
use tun2socket_lwip.Ip4.Input.{ip4_input, no_packet}
use tun2socket_lwip.Ip4.Input.AnyAddress.{IsOpen}
use tun2socket_lwip.Ip4.Input.Filter.{
  ip_bytes, cut, took, entered, closed, ip4_input_lem, handed-udp,
}
use tun2socket_lwip.UdpIo.{UdpHdr, parse}
use tun2socket_lwip.UdpIo.Input.{Callback, chksum_ok, udp_input}
use tun2socket_lwip.UdpIo.Input.Deliver.{Listens, noted, udp_input-listener}

-- the application: the connection, and the callbacks that are due
abbrev pub App : Type 0
App = UdpConn × ℕ

-- the connection in the heap of the stack
abbrev pub world : {b : Pbufs} → Core b App → UdpWorld b
world s = record { heap = s.heap; conn = s.app.0; due = s.app.1 }

-- the callback that `udp_conn_listen` registers: `udp_on_received`, which reads the destination from
-- `ip_data` and `udp_data`
pub on_received : (b : Pbufs) → Callback b App
on_received b recv recv_arg pcb p src_ip src s =
    let w = udp_on_received b p src_ip src s.ip_data.current_iphdr_dest s.udp_data.1 (world s) in
    some (tt, record s { heap = w.heap; app = (w.conn, w.due) })

module _ (b : Pbufs) (lwip : Calls b App) (tcp_input icmp_input : Handler b App) (p : Ptr)
    (inp : Netif) (s : Core b App) where
  abbrev pub bytes : List ℕ
  bytes = ip_bytes b lwip p inp s

  abbrev pub at_udp : Core b App
  at_udp = entered b lwip p inp s

  abbrev pub hdr : UdpHdr
  hdr = parse (b.payload p at_udp.heap)

  -- the state in which the callback runs
  abbrev pub at_app : Core b App
  at_app = record (noted b lwip (on_received b) p inp inp at_udp) {
    heap = (b.pbuf_remove_header p udp_hlen at_udp.heap).1;
  }

  -- a UDP datagram with its header in the first buffer and a checksum that is right
  pub record IsUdp : Type 0 where
    pub not_null : p ≢ null
    pub passes : took b lwip p inp s ≡ true
    pub proto_eq : protocol bytes ≡ proto_udp
    pub ip_room : (b.pbuf_remove_header p (header_len bytes) (cut b lwip p inp s)).0 ≡ false
    pub long : leb udp_hlen (lwip.len p at_udp.heap) ≡ true
    pub sum_ok : chksum_ok b lwip p hdr (noted b lwip (on_received b) p inp inp at_udp) ≡ true
    pub udp_room : (b.pbuf_remove_header p udp_hlen at_udp.heap).0 ≡ false
    pub live : 0 < b.refs p (cut b lwip p inp s)

  abbrev pub data_bytes : List ℕ
  data_bytes = drop udp_hlen (drop (header_len bytes) (b.payload p (cut b lwip p inp s)))

  pub data_bytes-at_app : PbufLaws b → IsUdp → b.payload p at_app.heap ≡ data_bytes
  data_bytes-at_app laws ok =
      laws.remove_bytes p udp_hlen at_udp.heap ok.udp_room
      ∙ ap (drop udp_hlen) (laws.remove_bytes p (header_len bytes) (cut b lwip p inp s) ok.ip_room)

  live-at_app : PbufLaws b → IsUdp → 0 < b.refs p at_app.heap
  live-at_app laws ok =
      rw
        (
          laws.remove_refs p udp_hlen at_udp.heap,
          laws.remove_refs p (header_len bytes) (cut b lwip p inp s),
        )
        ok.live

  abbrev pub after : Core b App
  after =
      let w = arrived b (world at_app) p (src_addr bytes) hdr.src (dest_addr bytes) hdr.dest in
      record at_app { heap = w.heap; app = (w.conn, w.due); ip_data = no_packet }

  ip4_input-after :
      IsOpen inp
      → (l : Pcb) (q : Ptr) → Listens s.table l q inp
      → IsUdp
      → ip4_input b lwip (udp_input b lwip (on_received b)) tcp_input icmp_input p inp s
        ≡ some (err_ok, after)
  unfolding on_received
  ip4_input-after open_ l q listens ok =
      let udp = udp_input b lwip (on_received b) in
      let called : closed (udp p inp at_udp) ≡ some (err_ok, after) = ap closed (
        udp_input-listener b lwip (on_received b) p inp inp at_udp l q listens ok.not_null refl
          ok.long ok.sum_ok ok.udp_room) in
      elim (ip4_input_lem b lwip udp tcp_input icmp_input p inp s open_) [
        | inl (yes_, e) ↦
            e ∙ handed-udp b lwip udp tcp_input icmp_input p inp s ok.proto_eq ∙ called
        | inr (no_, dropped) ↦ absurd (ground (arith, no_, ok.passes))
      ]

  -- A live UDP datagram that is well formed, in one piece and with a right checksum, that
  -- comes from a host to any port of any address but a multicast one, at an interface that is
  -- up and has no address, when the one block on the list is a listener's and nothing is
  -- queued, with memory for its metadata and below 65536 bytes with it: `ip4_input` returns,
  -- and the next `udp_conn_recv` with room for its bytes returns them with the addresses and
  -- the ports of the headers.
  pub capture_lem :
      PbufLaws b
      → IsOpen inp
      → (l : Pcb) (q : Ptr) (size : ℕ) → Listens s.table l q inp
      → IsUdp
      → Holds (s.app.0.rx) []
      → buffer b (world at_app) p (src_addr bytes) hdr.src (dest_addr bytes) hdr.dest ≢ null
      → IsMetadata (metadata b (world at_app) p (src_addr bytes) hdr.src (dest_addr bytes) hdr.dest)
      → tot_len b p at_app.heap + header_size < 2 ^ 16
      → tot_len b p at_app.heap ≤ size
      → (ip4_input b lwip (udp_input b lwip (on_received b)) tcp_input icmp_input p inp s
          ≡ some (err_ok, after))
        × ((udp_conn_recv b size (world after)).0
            ≡ received
                (metadata b (world at_app) p (src_addr bytes) hdr.src (dest_addr bytes) hdr.dest)
                data_bytes)
  capture_lem laws open_ l q size listens ok h ne valid short fits = (
    ip4_input-after open_ l q listens ok,
    received-then-recv b (world at_app) p (src_addr bytes) hdr.src (dest_addr bytes) hdr.dest laws
          size h ne (live-at_app laws ok) valid short fits
        ∙ ap
            (received
              (metadata b (world at_app) p (src_addr bytes) hdr.src (dest_addr bytes) hdr.dest))
            (data_bytes-at_app laws ok),
  )
