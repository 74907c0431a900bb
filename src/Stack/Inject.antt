-- ===== src/Stack/Inject.antt =====
-- From the writer of the tunnel device to the application: `link_write`, `poll_tx`, `ip4_input`,
-- `udp_input`, `udp_on_received` and `udp_conn_recv`.
use tun2socket_lwip.Prelude.{
  ℕ, ◌+◌, ◌<◌, ◌≤◌, ◌^◌, ◌≡◌, ◌≢◌, ap, sym, subst, refl, ◌∙◌, false, none, some, List, [], length,
  drop, arith, Cmd, ◌>>=◌,
}
use tun2socket_lwip.Lwip.{Ptr, null, ErrT, err_ok, Pbufs, PbufLaws}
use tun2socket_lwip.Interface.{Netif}
use tun2socket_lwip.Demux.{Pcb}
use tun2socket_lwip.Queues.Holds.{Holds}
use tun2socket_lwip.Link.{Link, World, link_write, run_callback}
use tun2socket_lwip.Link.Poll.{inject_all-one}
use tun2socket_lwip.Link.Transmit.{taken_up, at_input, write-then-poll-inject}
use tun2socket_lwip.Link.Write.{target, filled, filled_lem}
use tun2socket_lwip.Udp.{Metadata, header, header_size, udp_conn_recv, received}
use tun2socket_lwip.Udp.Encoding.{IsMetadata}
use tun2socket_lwip.Udp.Receive.{buffer, metadata}
use tun2socket_lwip.Ip4.{
  Core, Calls, Handler, header_len, packet_len, src_addr, dest_addr, udp_hlen,
}
use tun2socket_lwip.Ip4.Input.{ip4_input}
use tun2socket_lwip.Ip4.Input.Filter.{cut}
use tun2socket_lwip.Ip4.Input.AnyAddress.{IsOpen}
use tun2socket_lwip.UdpIo.{UdpHdr, parse}
use tun2socket_lwip.UdpIo.Input.{udp_input}
use tun2socket_lwip.UdpIo.Input.Deliver.{Listens}
use tun2socket_lwip.UdpIo.Input.Capture.{
  App, world, bytes, on_received, IsUdp, at_app, hdr, after, data_bytes, data_bytes-at_app,
  capture_lem,
}
use tun2socket_lwip.Stack.{lift, lift-PbufLaws}

module _ (b : Pbufs) (lwip : Calls b App) (tcp_input icmp_input : Handler b App) where
  -- `netif->input` of the interface, `ip_input`, which is `ip4_input`
  unfoldable pub ip_input : Ptr → Cmd (World (lift b App)) ErrT
  ip_input p w =
      elim (ip4_input b lwip (udp_input b lwip (on_received b)) tcp_input icmp_input p
        (w.iface.global_if) (w.heap)) [
          | none ↦ none
          | some (err, s) ↦ some (err, record w { heap = s })
        ]

  module _ (ctx : Ptr) (w : World (lift b App)) {l : Link} (at_ctx : w.links ctx ≡ some l)
      (packet : List ℕ) where
    -- the buffer of the packet, and the stack once it holds the packet
    abbrev p : Ptr
    p = target (lift b App) ctx w at_ctx packet err_ok

    abbrev s : Core b App
    s = filled (lift b App) ctx w at_ctx packet err_ok

    abbrev inp : Netif
    inp = w.iface.global_if

    -- what follows the IPv4 header
    abbrev pub datagram : List ℕ
    datagram = drop (header_len packet) packet

    abbrev pub metadata_of : Metadata
    metadata_of =
        header b (src_addr packet) (parse datagram).src (dest_addr packet) (parse datagram).dest

    -- the world when the stack gets the packet, and once it is with the application
    abbrev start : World (lift b App)
    start = at_input (lift b App) ip_input ctx w at_ctx packet

    abbrev delivered : Core b App
    delivered = after b lwip tcp_input icmp_input p inp s

    -- `ip4_input` reads the packet that was written
    module _ (laws : PbufLaws b) (ok : IsUdp b lwip tcp_input icmp_input p inp s)
        (short : length packet < 2 ^ 16) (whole : packet_len packet ≡ length packet) where
      bytes-eq : b.payload p s.heap ≡ packet
      bytes-eq =
          (filled_lem (lift b App) ctx w at_ctx packet err_ok (lift-PbufLaws b App laws) ok.not_null
            short).0

      cut-eq : cut b lwip p inp s ≡ s.heap
      cut-eq = ground (arith, bytes-eq, ap length bytes-eq, ap packet_len bytes-eq)

      behind-eq :
          drop (header_len (b.payload p s.heap)) (b.payload p (cut b lwip p inp s)) ≡ datagram
      behind-eq =
          ap (λ h. drop (header_len (b.payload p s.heap)) (b.payload p h)) cut-eq
          ∙ ap (λ bs. drop (header_len bs) bs) bytes-eq

      hdr-eq : hdr b lwip tcp_input icmp_input p inp s ≡ parse datagram
      hdr-eq = ap parse (laws.remove_bytes p _ _ ok.ip_room ∙ behind-eq)

      metadata-eq :
          metadata b
            (world (at_app b lwip tcp_input icmp_input p inp s))
            p
            (src_addr (bytes b lwip tcp_input icmp_input p inp s))
            (hdr b lwip tcp_input icmp_input p inp s).src
            (dest_addr (bytes b lwip tcp_input icmp_input p inp s))
            (hdr b lwip tcp_input icmp_input p inp s).dest
          ≡ metadata_of
      metadata-eq =
          ap
            (λ (h : UdpHdr).
              header b (src_addr (b.payload p s.heap)) h.src (dest_addr (b.payload p s.heap))
                h.dest)
            hdr-eq
          ∙ ap
              (λ bs.
                header b (src_addr bs) (parse datagram).src (dest_addr bs) (parse datagram).dest)
              bytes-eq

      ip_input-start :
          start.heap ≡ s
          → ip4_input b lwip (udp_input b lwip (on_received b)) tcp_input icmp_input p inp s
            ≡ some (err_ok, delivered)
          → ip_input p start ≡ some (err_ok, record start { heap = delivered })
      unfolding ip_input
      ip_input-start heap_eq taken = ground (arith, heap_eq, taken)

      -- A UDP packet below 65536 bytes that a program writes to an idle open link, with no callback
      -- waiting, over an interface that is up and has no address, is what the application receives
      -- next with room for its data, once the stack's thread has run the callback: if the packet is
      -- as long as its header says, in one piece, with right checksums and with room for its two
      -- headers in the first buffer, from a host, to any port of any address but a multicast one,
      -- with ports below 65536 and data below 65524 bytes; if the one block on the list is a
      -- listener's with nothing queued; and with memory for the packet and for the metadata. The
      -- application gets the bytes behind the two headers, with the addresses and the ports that
      -- the headers name. The link is idle again.
      pub inject_lem :
          l.closed ≡ false
          → l.tx_polling ≡ false
          → Holds l.tx []
          → w.mbox ≡ []
          → IsOpen w.iface.global_if
          → (c : Pcb) (q : Ptr) (size : ℕ) → Listens (s.table) c q inp
          → Holds (s.app.0.rx) []
          → buffer b
              (world (at_app b lwip tcp_input icmp_input p inp s))
              p
              (src_addr (bytes b lwip tcp_input icmp_input p inp s))
              (hdr b lwip tcp_input icmp_input p inp s).src
              (dest_addr (bytes b lwip tcp_input icmp_input p inp s))
              (hdr b lwip tcp_input icmp_input p inp s).dest
            ≢ null
          → IsMetadata metadata_of
          → length (drop udp_hlen datagram) + header_size < 2 ^ 16
          → length (drop udp_hlen datagram) ≤ size
          → (w' : World (lift b App)) × (l' : Link) × ((link_write (lift b App) ctx packet err_ok
                  >>= λ _. run_callback (lift b App) ip_input)
                w
              ≡ some (tt, w'))
            × ((udp_conn_recv b size (world (w'.heap))).0
                ≡ received metadata_of (drop udp_hlen datagram))
            × (w'.links ctx ≡ some l')
            × (l'.tx_polling ≡ false)
            × Holds l'.tx []
      inject_lem open_ idle empty none_due tun c q size listens none_queued ne valid fits room =
          let sent =
            write-then-poll-inject (lift b App) ip_input ctx w at_ctx packet open_ idle empty
              none_due ok.not_null in
          let data_eq =
            data_bytes-at_app b lwip tcp_input icmp_input p inp s laws ok
            ∙ ap (drop udp_hlen) behind-eq in
          let long = ap length data_eq in
          let got =
            capture_lem b lwip tcp_input icmp_input p inp s laws tun c q size listens ok none_queued
              ne (subst IsMetadata (sym metadata-eq) valid) (omega (arith, long, fits))
              (omega (arith, long, room)) in
          (
            record start { heap = delivered },
            taken_up (lift b App) ip_input ctx w at_ctx packet,
            sent.0
                ∙ inject_all-one (lift b App) ip_input p start ok.not_null
                    (ip_input-start sent.1 got.0),
            got.1
                ∙ ap (λ m. received m (data_bytes b lwip tcp_input icmp_input p inp s)) metadata-eq
                ∙ ap (λ d. received metadata_of (drop udp_hlen d)) behind-eq,
            sent.2,
            refl,
            sent.3,
          )
