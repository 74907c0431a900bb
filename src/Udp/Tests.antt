-- ===== src/Udp/Tests.antt =====
-- Connections and addresses at concrete inputs, over the concrete heap.
use tun2socket_lwip.Prelude.{
  some, ℕ, ◌≡◌, refl, false, List, [], ◌∷◌, ◌++◌, arith, ◌==◌, if◌then◌else◌,
}
use tun2socket_lwip.Lwip.{err_ok}
use tun2socket_lwip.Lwip.Model.{Memory, update, pbufs, pbufs-PbufLaws}
use tun2socket_lwip.Queues
use tun2socket_lwip.Queues.Holds.{Holds, zeroed-Holds}
use tun2socket_lwip.Queues.Overflow.{append_lem}
use tun2socket_lwip.Udp.{
  Metadata, encode, UdpConn, received, UdpWorld, Udps, udp_conn_recv, udp_conn_sendto,
  udp_conn_listen,
}
use tun2socket_lwip.Udp.Encoding.{IsMetadata}
use tun2socket_lwip.Udp.Receive.{metadata, arrived, received-then-recv}
use tun2socket_lwip.Udp.System.{IsSoundWorld, here, next, sendto, listen-Reach-IsSound}

-- a datagram of three bytes in buffer 5, and one behind its metadata in buffer 6
abbrev query : Metadata
query = record {
  src_addr = (10, 0, 0, 2);
  dst_addr = (8, 8, 8, 8);
  src_port = 40000;
  dst_port = 53;
}

abbrev memory : Memory
memory = record {
  next = 7;
  held = λ p. if p == 5 then 1 else if p == 6 then 1 else 0;
  bytes = λ p. if p == 5 then 1 ∷ 2 ∷ 3 ∷ [] else if p == 6 then encode query ++ (4 ∷ []) else [];
}

-- no address is left for a new buffer
abbrev exhausted : Memory
exhausted = record memory { next = 5 }

abbrev fresh : UdpConn
fresh = record { pcb = 3; rx = Queues.zeroed; tx = Queues.zeroed; tx_polling = false }

abbrev world : UdpWorld pbufs
world = record { heap = memory; conn = fresh; due = 0 }

abbrev one_received : UdpConn
one_received = record fresh { rx = (Queues.append pbufs.pbuf_free Queues.zeroed (6 ∷ []) memory).1 }

one_received-Holds : Holds (one_received.rx) (6 ∷ [])
one_received-Holds = (append_lem pbufs.pbuf_free (6 ∷ []) memory zeroed-Holds).1

abbrev receiving : UdpWorld pbufs
receiving = record world { conn = one_received }

-- what is sent is left at address 1000, behind its ports
abbrev udps : Udps pbufs
udps = record {
  udp_new = λ h. (3, h);
  udp_bind_any = λ _ h. (err_ok, h);
  udp_bind_netif = λ _ h. h;
  udp_recv = λ _ h. h;
  udp_remove = λ _ h. h;
  udp_sendto = λ pcb p dst dst_port src src_port h.
      some (record h { bytes = update h.bytes 1000 (dst_port ∷ src_port ∷ h.bytes p) });
}

query-IsMetadata : IsMetadata query
query-IsMetadata = omega arith

encode_ports : encode query ≡ 10 ∷ 0 ∷ 0 ∷ 2 ∷ 8 ∷ 8 ∷ 8 ∷ 8 ∷ 64 ∷ 156 ∷ 53 ∷ 0 ∷ []
unfolding encode
encode_ports = refl

abbrev starved : UdpWorld pbufs
starved = record world { heap = exhausted }

received-then-recv_example :
    (udp_conn_recv pbufs 100 (arrived pbufs world 5 0x200000a 40000 0x8080808 53)).0
    ≡ received (metadata pbufs world 5 0x200000a 40000 0x8080808 53) (1 ∷ 2 ∷ 3 ∷ [])
received-then-recv_example =
    received-then-recv pbufs world 5 0x200000a 40000 0x8080808 53 pbufs-PbufLaws 100 zeroed-Holds
      (omega arith) (omega arith) (omega arith) (omega arith) (omega arith)

abbrev answer : List ℕ
answer = 7 ∷ 8 ∷ 9 ∷ []

abbrev one_sent : UdpWorld pbufs
one_sent = (udp_conn_sendto pbufs query answer err_ok world).1

listen-Reach-IsSound_example : IsSoundWorld one_sent
unfolding udp_conn_listen
listen-Reach-IsSound_example =
    listen-Reach-IsSound pbufs udps memory memory {c = fresh} refl
      (next here (sendto query answer err_ok))
