-- ===== src/Go/Tests.antt =====
-- The Go bindings at concrete inputs.
use tun2socket_lwip.Prelude.{
  ℕ, ◌≡◌, refl, true, false, none, some, Option, List, [], ◌∷◌, arith, ◌==◌, if◌then◌else◌, Bool,
  pos,
}
use tun2socket_lwip.Lwip.{err_ok}
use tun2socket_lwip.Lwip.Model.{Memory, pbufs, pbufs-PbufLaws}
use tun2socket_lwip.Queues.Holds.{zeroed-Holds}
use tun2socket_lwip.Udp.{UdpWorld, header, udp_conn_sendto}
use tun2socket_lwip.Udp.Receive.{arrived}
use tun2socket_lwip.UdpIo.Sample.{fresh}
use tun2socket_lwip.Go.{panics, returns, local_addr, remote_addr, of_send, read_from, write_to}
use tun2socket_lwip.Go.Reply.{To4Law, reply_lem}
use tun2socket_lwip.Go.NewStack.{Natives, new_stack}

abbrev memory : Memory
memory = record {
  next = 7;
  held = λ p. if p == 5 then 1 else 0;
  bytes = λ p. if p == 5 then 1 ∷ 2 ∷ 3 ∷ [] else [];
}

abbrev start : UdpWorld pbufs
start = record { heap = memory; conn = fresh; due = 0 }

-- an IP of four bytes, and no other
abbrev to4 : List ℕ → Option (ℕ × ℕ × ℕ × ℕ)
to4 (a ∷ b ∷ c ∷ d ∷ []) = some (a, b, c, d)
to4 _ = none

to4-To4Law : To4Law to4
to4-To4Law a b c d = refl

-- An empty slice of capacity 0 cannot be sent.
empty_slice :
    (write_to pbufs to4 [] 0
      (local_addr pbufs (header pbufs 0x200000a 40000 0x8080808 53))
      (remote_addr pbufs (header pbufs 0x200000a 40000 0x8080808 53))
      err_ok
      start).0
    ≡ panics
unfolding write_to
empty_slice = refl

-- from 10.0.0.2:40000 to 8.8.8.8:53
reply_lem_example :
    let m = header pbufs 0x200000a 40000 0x8080808 53 in
    let back =
      udp_conn_sendto pbufs (header pbufs 0x8080808 53 0x200000a 40000) (7 ∷ 8 ∷ []) err_ok start in
    ((read_from pbufs 100 128 (arrived pbufs start 5 0x200000a 40000 0x8080808 53)).0
      ≡ returns (1 ∷ 2 ∷ 3 ∷ [], local_addr pbufs m, remote_addr pbufs m))
    × (write_to pbufs to4 (7 ∷ 8 ∷ []) 2 (local_addr pbufs m) (remote_addr pbufs m) err_ok start
        ≡ (of_send pbufs back.0, back.1))
reply_lem_example =
    reply_lem pbufs start 5 0x200000a 40000 0x8080808 53 pbufs-PbufLaws to4 to4-To4Law 100 128 2
      (omega arith) (omega arith) zeroed-Holds (omega arith) (omega arith) (omega arith)
      (omega arith) (omega arith) (omega arith) (7 ∷ 8 ∷ []) err_ok start

-- what is open, where UDP has no memory
abbrev Open : Type 0
Open = Bool × Bool × Bool

abbrev natives : Natives Open
natives = record {
  link_attach = λ mtu w. (1, (true, w.1, w.2));
  link_close = λ p w. (false, w.1, w.2);
  tcp_listener_listen = λ w. (2, (w.0, true, w.2));
  tcp_listener_close = λ p w. (w.0, false, w.2);
  udp_conn_listen = λ w. (0, w);
  udp_conn_close = λ p w. (w.0, w.1, false);
}

-- The listener for TCP and the link are closed again.
no_udp : new_stack natives (pos 1500) (false, false, false) ≡ (none, (false, false, false))
unfolding new_stack
no_udp = refl
