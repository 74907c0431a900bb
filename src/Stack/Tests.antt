-- ===== src/Stack/Tests.antt =====
-- The parts together at concrete inputs.
use tun2socket_lwip.Prelude.{
  ℕ, ◌≡◌, refl, false, none, some, Option, List, [], ◌∷◌, ◌++◌, arith, length, take, drop, pos,
  ◌>>=◌, ◌==◌, if◌then◌else◌,
}
use tun2socket_lwip.Lwip.{Ptr, err_ok}
use tun2socket_lwip.Lwip.Model.{empty_memory, pbufs, pbufs-PbufLaws}
use tun2socket_lwip.Queues.Holds.{Holds, zeroed-Holds}
use tun2socket_lwip.Interface.{Interface, if_output}
use tun2socket_lwip.Link.{Link, World, reads, link_read, link_write, run_callback}
use tun2socket_lwip.Link.Attach.{new_link}
use tun2socket_lwip.Address.{get_byte}
use tun2socket_lwip.Udp.{
  addr_of, encode, Metadata, UdpWorld, Udps, udp_conn_recv, udp_conn_sendto, udp_poll_tx, sent,
  received,
}
use tun2socket_lwip.Ip4.{
  Core, ip_hlen, udp_hlen, version, header_len, packet_len, fragment, src_addr, dest_addr,
  isbroadcast, ismulticast,
}
use tun2socket_lwip.Ip4.Input.{no_packet}
use tun2socket_lwip.Ip4.Model.{calls, calls-CallLaws, rfc_chksum, rfc_chksum-InetLaw}
use tun2socket_lwip.Ip4.Output.{ip_header}
use tun2socket_lwip.Ip4.Output.Checksum.{words}
use tun2socket_lwip.UdpIo.{print, parse}
use tun2socket_lwip.Udp.Encoding.{IsMetadata}
use tun2socket_lwip.UdpIo.Input.{chksum_ok}
use tun2socket_lwip.UdpIo.Sample.{
  tun, tun-IsOpen, listener, packet, blocks, blocks-Listens, fresh, ignore,
}
use tun2socket_lwip.UdpIo.Input.Capture.{App, world}
use tun2socket_lwip.Stack.{lift, Device, link_world, sending}
use tun2socket_lwip.Stack.Emit.{fields_of, header_of, packet_of, emit_lem}
use tun2socket_lwip.Stack.Bounds.{IsSized, packet-read}
use tun2socket_lwip.Stack.Inject.{ip_input, inject_lem}

-- the link at address 9, attached
abbrev attached : Interface
attached = record { global_if = tun; output_func = some if_output; output_context = 9 }

abbrev links : Ptr → Option Link
links p = if p == 9 then some (new_link (pos 1500)) else none

abbrev core : {A : Type 0} → A → Core pbufs A
core app = record {
  heap = empty_memory;
  ip_data = no_packet;
  ip_id = 7;
  udp_data = (0, 0);
  table = blocks;
  app = app;
}

abbrev device : Device
device = record { iface = attached; links = links; mbox = [] }

abbrev sender : UdpWorld (lift pbufs Device)
sender = record { heap = core device; conn = fresh; due = 0 }

abbrev others : Udps (lift pbufs Device)
others = record {
  udp_new = λ s. (3, s);
  udp_bind_any = λ _ s. (err_ok, s);
  udp_bind_netif = λ _ s. s;
  udp_recv = λ _ s. s;
  udp_remove = λ _ s. s;
  udp_sendto = λ _ _ _ _ _ _ s. some s;
}

-- from 8.8.8.8:53 to 10.0.0.2:40000
abbrev reply : Metadata
reply = record {
  src_addr = (8, 8, 8, 8);
  dst_addr = (10, 0, 0, 2);
  src_port = 53;
  dst_port = 40000;
}

abbrev answer : List ℕ
answer = 7 ∷ 8 ∷ 9 ∷ []

emit_lem_example :
    let (r, w1) = udp_conn_sendto (lift pbufs Device) reply answer err_ok sender in
    (r ≡ sent 3)
    × ((w2 : UdpWorld (lift pbufs Device)) × (udp_poll_tx
            (lift pbufs Device)
            (sending pbufs calls others)
            w1
          ≡ some w2)
        × Holds (w2.conn.tx) []
        × ((chksum : ℕ) × (w' : World pbufs) × (link_read pbufs 9 1500 (link_world pbufs (w2.heap))
              ≡ some (
                reads 31 (
                    ip_header (fields_of pbufs calls others sender reply answer listener)
                    ++ (print (header_of pbufs calls others sender reply answer listener chksum)
                        ++ answer)),
                w',
              ))
            × (pbufs.refs 1 (w'.heap) ≡ 0)))
unfolding encode
emit_lem_example =
    emit_lem pbufs calls others sender reply answer listener pbufs-PbufLaws calls-CallLaws
      (record {
        allocated = omega arith;
        for_metadata = refl;
        taken_off = refl;
        for_udp = refl;
        for_ip4 = refl;
      })
      1500 (omega arith) (omega arith)
      (record { src_port_lt = omega arith; dst_port_lt = omega arith }) refl refl zeroed-Holds
      (record { on = refl; at_ctx = refl; empty = zeroed-Holds }) (omega arith) (omega arith)

abbrev writer : World (lift pbufs App)
writer = record { heap = core (fresh, 0); iface = attached; links = links; mbox = [] }

inject_lem_example :
    (w' : World (lift pbufs App)) × (l' : Link) × ((link_write (lift pbufs App) 9 packet err_ok
          >>= λ _. run_callback (lift pbufs App) (ip_input pbufs calls ignore ignore))
        writer
      ≡ some (tt, w'))
    × ((udp_conn_recv pbufs 1500 (world (w'.heap))).0
        ≡ received
            (record {
              src_addr = (10, 0, 0, 2);
              dst_addr = (8, 8, 8, 8);
              src_port = 40000;
              dst_port = 53;
            })
            (1 ∷ 2 ∷ 3 ∷ []))
    × (w'.links 9 ≡ some l')
    × (l'.tx_polling ≡ false)
    × Holds l'.tx []
unfolding parse get_byte isbroadcast ismulticast chksum_ok words
inject_lem_example =
    inject_lem pbufs calls ignore ignore 9 writer refl packet pbufs-PbufLaws
      (record {
        not_null = omega arith;
        passes = refl;
        proto_eq = refl;
        ip_room = refl;
        long = refl;
        sum_ok = refl;
        udp_room = refl;
        live = omega arith;
      })
      (omega arith) refl refl refl zeroed-Holds refl tun-IsOpen listener 3 1500 blocks-Listens
      zeroed-Holds (omega arith) (record { src_port_lt = omega arith; dst_port_lt = omega arith })
      (omega arith) (omega arith)

listener-IsSized : IsSized listener 7
listener-IsSized = record { tos_lt = omega arith; ttl_lt = omega arith; id_lt = omega arith }

reply-IsMetadata : IsMetadata reply
reply-IsMetadata = record { src_port_lt = omega arith; dst_port_lt = omega arith }

abbrev sent_packet : List ℕ
sent_packet = packet_of pbufs calls others sender reply answer listener 9

packet-read_example :
    (version sent_packet ≡ 4)
    × (header_len sent_packet ≡ ip_hlen)
    × (rfc_chksum (take ip_hlen sent_packet) ≡ 0)
    × (packet_len sent_packet ≡ length sent_packet)
    × (fragment sent_packet ≡ 0)
    × (src_addr sent_packet ≡ addr_of (8, 8, 8, 8))
    × (dest_addr sent_packet ≡ addr_of (10, 0, 0, 2))
    × ((parse (drop ip_hlen sent_packet)).src ≡ 53)
    × ((parse (drop ip_hlen sent_packet)).dest ≡ 40000)
    × (drop udp_hlen (drop ip_hlen sent_packet) ≡ answer)
packet-read_example =
    packet-read pbufs calls others sender reply answer listener reply-IsMetadata listener-IsSized 9
      (omega arith) (omega arith) rfc_chksum rfc_chksum-InetLaw
