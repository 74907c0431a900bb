-- ===== src/Go/Reply.antt =====
-- `ReadFrom` and `WriteTo`: the answer to a datagram.
use tun2socket_lwip.Prelude.{
  ℕ, ◌+◌, ◌<◌, ◌≤◌, ◌%◌, ◌^◌, ◌≡◌, ◌≢◌, Option, some, List, [], ◌∷◌, arith,
}
use tun2socket_lwip.Lwip.{Ptr, null, ErrT, Pbufs, PbufLaws, tot_len}
use tun2socket_lwip.Queues.Holds.{Holds}
use tun2socket_lwip.Udp.{
  Metadata, header, header_size, UdpWorld, udp_conn_recv, udp_conn_sendto, received,
}
use tun2socket_lwip.Udp.Encoding.{IsMetadata}
use tun2socket_lwip.Udp.Receive.{buffer, arrived, received-then-recv}
use tun2socket_lwip.Go.{returns, local_addr, remote_addr, of_send, read_from, write_to}

-- What Go documents of `net.IP.To4`: an IP of four bytes is those.
abbrev pub To4Law : (List ℕ → Option (ℕ × ℕ × ℕ × ℕ)) → Type 0
To4Law to4 = (a b c d : ℕ) → to4 (a ∷ b ∷ c ∷ d ∷ []) ≡ some (a, b, c, d)

module _ (b : Pbufs) where
  read_from-received :
      (len cap : ℕ) (w : UdpWorld b) (m : Metadata) (bytes : List ℕ)
      → cap ≢ 0
      → (udp_conn_recv b len w).0 ≡ received m bytes
      → (read_from b len cap w).0 ≡ returns (bytes, local_addr b m, remote_addr b m)
  unfolding read_from
  read_from-received len cap w m bytes some_cap got = ground (arith, some_cap, got)

  write_to-back :
      (to4 : List ℕ → Option (ℕ × ℕ × ℕ × ℕ))
      → To4Law to4
      → (answer : List ℕ) (cap : ℕ) (m : Metadata) (posted : ErrT) (w : UdpWorld b) → cap ≢ 0
      → IsMetadata m
      → let back : Metadata = record {
        src_addr = m.dst_addr;
        dst_addr = m.src_addr;
        src_port = m.dst_port;
        dst_port = m.src_port;
      } in
        write_to b to4 answer cap (local_addr b m) (remote_addr b m) posted w ≡ (
          of_send b (udp_conn_sendto b back answer posted w).0,
          (udp_conn_sendto b back answer posted w).1,
        )
  unfolding write_to
  write_to-back to4 law answer cap m posted w some_cap valid =
      let from = law m.src_addr.0 m.src_addr.1 m.src_addr.2 m.src_addr.3 in
      let to = law m.dst_addr.0 m.dst_addr.1 m.dst_addr.2 m.dst_addr.3 in
      let src : m.src_port % 2 ^ 16 ≡ m.src_port = omega (arith, valid.src_port_lt) in
      let dst : m.dst_port % 2 ^ 16 ≡ m.dst_port = omega (arith, valid.dst_port_lt) in
      ground (arith, from, to, src, dst, some_cap)

  module _ (w : UdpWorld b) (p : Ptr) (src_addr src_port dst_addr dst_port : ℕ) where
    -- A live datagram below 65524 bytes that lwIP hands to a connection with nothing queued,
    -- between ports below 65536 and with memory for its metadata, is what `ReadFrom` returns next,
    -- if there is room for it. Given the two addresses that come with it, and with `To4` leaving an
    -- IP of four bytes as it is, `WriteTo` is, in any state, `udp_conn_sendto` from the address and
    -- port that the datagram was for to those that it came from. The two slices have a capacity
    -- that is not 0.
    pub reply_lem :
        PbufLaws b
        → (to4 : List ℕ → Option (ℕ × ℕ × ℕ × ℕ)) → To4Law to4
        → (size cap cap' : ℕ) → cap ≢ 0
        → cap' ≢ 0
        → Holds (w.conn.rx) []
        → buffer b w p src_addr src_port dst_addr dst_port ≢ null
        → 0 < b.refs p w.heap
        → src_port < 2 ^ 16
        → dst_port < 2 ^ 16
        → tot_len b p w.heap + header_size < 2 ^ 16
        → tot_len b p w.heap ≤ size
        → (answer : List ℕ) (posted : ErrT) (later : UdpWorld b)
        → let m = header b src_addr src_port dst_addr dst_port in
          let sent =
            udp_conn_sendto b (header b dst_addr dst_port src_addr src_port) answer posted later in
          ((read_from b size cap (arrived b w p src_addr src_port dst_addr dst_port)).0
            ≡ returns (b.payload p w.heap, local_addr b m, remote_addr b m))
          × (write_to b to4 answer cap' (local_addr b m) (remote_addr b m) posted later
              ≡ (of_send b sent.0, sent.1))
    reply_lem laws to4 law size cap cap' some_cap some_cap' none_queued ne live src_lt dst_lt short
          fits answer posted later =
        let m = header b src_addr src_port dst_addr dst_port in
        let valid : IsMetadata m = record { src_port_lt = src_lt; dst_port_lt = dst_lt } in
        (
          read_from-received size cap (arrived b w p src_addr src_port dst_addr dst_port) m
              (b.payload p w.heap) some_cap
              (received-then-recv b w p src_addr src_port dst_addr dst_port laws size none_queued ne
                live valid short fits),
          write_to-back to4 law answer cap' m posted later some_cap' valid,
        )
