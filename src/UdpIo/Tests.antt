-- ===== src/UdpIo/Tests.antt =====
-- A datagram from the interface to the application, and one from the application to the interface.
use tun2socket_lwip.Prelude.{
  ◌≡◌, ◌⊎◌, refl, true, false, none, some, [], ◌∷◌, ◌++◌, arith, if◌then◌else◌, ◌==◌,
}
use tun2socket_lwip.Lwip.{Ptr, err_ok}
use tun2socket_lwip.Lwip.Model.{Memory, pbufs, pbufs-PbufLaws}
use tun2socket_lwip.Demux.{Pcb, accept_any_port}
use tun2socket_lwip.Queues.Holds.{zeroed-Holds}
use tun2socket_lwip.Address.{get_byte}
use tun2socket_lwip.Udp.{Metadata, udp_conn_recv, received}
use tun2socket_lwip.Blocks.{Table, put}
use tun2socket_lwip.Ip4.{Core, isbroadcast, ismulticast}
use tun2socket_lwip.Ip4.Model.{calls, calls-CallLaws}
use tun2socket_lwip.Ip4.Input.{no_packet, ip4_input}
use tun2socket_lwip.Ip4.Input.Filter.{took, input, handed, Dropped, ip4_input_lem}
use tun2socket_lwip.Ip4.Output.{Fields, ip_header, NetifOutputFn}
use tun2socket_lwip.Ip4.Output.Checksum.{words}
use tun2socket_lwip.UdpIo.{parse, print}
use tun2socket_lwip.UdpIo.Sample.{
  tun, listener, packet, blocks, blocks-Listens, fresh, tun-IsOpen, ignore,
}
use tun2socket_lwip.UdpIo.Listen.{listen, listening, the_listener, listen_lem, listen-again}
use tun2socket_lwip.Blocks.System.{started}
use tun2socket_lwip.UdpIo.Input.{chksum_ok, udp_input}
use tun2socket_lwip.UdpIo.Input.Deliver.{Listens}
use tun2socket_lwip.UdpIo.Input.Capture.{App, world, on_received, IsUdp, after, capture_lem}
use tun2socket_lwip.UdpIo.Output.{udp_sendto_if_src_port}
use tun2socket_lwip.UdpIo.Output.ZeroPort.{sendto-zero_port}
use tun2socket_lwip.UdpIo.Output.Sent.{sent_header, out_fields, at_netif, sendto_lem}

abbrev memory : Memory
memory = record {
  next = 7;
  held = λ p. if p == 5 then 1 else if p == 6 then 1 else 0;
  bytes = λ p. if p == 5 then packet else if p == 6 then 1 ∷ 2 ∷ 3 ∷ [] else [];
}

abbrev idle : Core pbufs App
idle = record {
  heap = memory;
  ip_data = no_packet;
  ip_id = 7;
  udp_data = (0, 0);
  table = blocks;
  app = (fresh, 0);
}

abbrev netif_output : NetifOutputFn pbufs App
netif_output netif p dest s = some (err_ok, s)

abbrev fields : Fields
fields = record {
  tos = 0;
  total = 31;
  id = 7;
  ttl = 64;
  proto = 17;
  src = 0x200000a;
  dest = 0x8080808;
}

ip4_input_lem_example :
    ((took pbufs calls 5 tun idle ≡ true)
      × (input pbufs calls ignore ignore ignore 5 tun idle
          ≡ handed pbufs calls ignore ignore ignore 5 tun idle))
    ⊎ ((took pbufs calls 5 tun idle ≡ false)
        × Dropped pbufs calls 5 tun idle (input pbufs calls ignore ignore ignore 5 tun idle))
ip4_input_lem_example = ip4_input_lem pbufs calls ignore ignore ignore 5 tun idle tun-IsOpen

packet-IsUdp : IsUdp pbufs calls ignore ignore 5 tun idle
unfolding isbroadcast ismulticast parse chksum_ok words
packet-IsUdp = record {
  not_null = omega arith;
  passes = refl;
  proto_eq = refl;
  ip_room = refl;
  long = refl;
  sum_ok = refl;
  udp_room = refl;
  live = omega arith;
}

abbrev metadata_of_packet : Metadata
metadata_of_packet = record {
  src_addr = (10, 0, 0, 2);
  dst_addr = (8, 8, 8, 8);
  src_port = 40000;
  dst_port = 53;
}

capture_lem_example :
    (ip4_input pbufs calls (udp_input pbufs calls (on_received pbufs)) ignore ignore 5 tun idle
      ≡ some (err_ok, after pbufs calls ignore ignore 5 tun idle))
    × ((udp_conn_recv pbufs 100 (world (after pbufs calls ignore ignore 5 tun idle))).0
        ≡ received metadata_of_packet (1 ∷ 2 ∷ 3 ∷ []))
unfolding parse get_byte
capture_lem_example =
    capture_lem pbufs calls ignore ignore 5 tun idle pbufs-PbufLaws tun-IsOpen listener 3 100
      blocks-Listens packet-IsUdp zeroed-Holds (omega arith) (omega arith) (omega arith)
      (omega arith)

sendto_lem_example :
    (udp_sendto_if_src_port pbufs calls netif_output 3 6 0x200000a 40000
        (some tun)
        0x8080808
        53
        idle
      ≡ some (
        err_ok,
        at_netif pbufs calls netif_output 3 6 0x200000a 40000 0x8080808 53 tun idle listener,
      ))
    × (pbufs.payload 6
          (at_netif pbufs calls netif_output 3 6 0x200000a 40000 0x8080808 53 tun idle
            listener).heap
        ≡ ip_header
            (out_fields pbufs calls netif_output 3 6 0x200000a 40000 0x8080808 53 tun idle listener)
          ++ (print (
                sent_header pbufs calls netif_output 3 6 0x200000a 40000 0x8080808 53 tun idle
                  listener)
              ++ (1 ∷ 2 ∷ 3 ∷ [])))
    × ((sent_header pbufs calls netif_output 3 6 0x200000a 40000 0x8080808 53 tun idle listener).src
        ≡ 53)
    × ((sent_header pbufs calls netif_output 3 6 0x200000a 40000 0x8080808 53 tun idle
          listener).dest
        ≡ 40000)
    × ((out_fields pbufs calls netif_output 3 6 0x200000a 40000 0x8080808 53 tun idle listener).src
        ≡ 0x8080808)
    × ((out_fields pbufs calls netif_output 3 6 0x200000a 40000 0x8080808 53 tun idle listener).dest
        ≡ 0x200000a)
    × ((at_netif pbufs calls netif_output 3 6 0x200000a 40000 0x8080808 53 tun idle listener).table
        ≡ idle.table)
sendto_lem_example =
    sendto_lem pbufs calls netif_output 3 6 0x200000a 40000 0x8080808 53 tun idle pbufs-PbufLaws
      calls-CallLaws listener (omega arith) (omega arith) refl (omega arith) refl refl (omega arith)
      refl refl

-- the listener connected to 8.8.8.8:53
abbrev connected : Pcb
connected = record listener { netif_idx = 0; remote_ip = 0x8080808; remote_port = 53 }

abbrev ready : Core pbufs App
ready = record idle { table = record (idle.table) { pcbs = put (λ p. none) 3 (some connected) } }

abbrev first_listen : Table
first_listen = listening 3 900 901 tun (started 49152) (omega arith)

listen_lem_example :
    (listen 3 900 901 tun (started 49152) ≡ some (some 3, first_listen))
    × Listens first_listen (the_listener 3 900 901 tun) 3 tun
listen_lem_example = listen_lem 3 900 901 tun (started 49152) (omega arith) refl (omega arith)

listen-again_example :
    (t' : Table) × (listen 4 900 902 tun idle.table ≡ some (none, t'))
    × (t'.udp_pcbs ≡ 3 ∷ [])
    × ((r : Ptr) → t'.pcbs r ≡ idle.table.pcbs r)
listen-again_example =
    listen-again 4 900 902 tun idle.table (omega arith) listener 3 blocks-Listens refl

sendto-zero_port_example :
    udp_sendto_if_src_port pbufs calls netif_output 3 6 0x200000a 40000 (some tun) 0x8080808 0 idle
    ≡ udp_sendto_if_src_port pbufs calls netif_output 3 6 0x200000a 40000
        (some tun)
        0x8080808
        accept_any_port
        idle
sendto-zero_port_example =
    sendto-zero_port pbufs calls netif_output 3 6 0x200000a 40000 0x8080808 tun idle listener refl
      (omega arith)
