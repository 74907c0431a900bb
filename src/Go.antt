-- ===== src/Go.antt =====
-- The Go bindings: link.go, udp.go and tun2socket.go. A panic is an outcome of its own. A slice is its
-- length, its capacity and what is in it; the address of its first element is taken of the slice up to
-- its capacity, which panics if that is 0. `C.int(len(b))` is taken to keep the length.
pub mod NewStack
pub mod Reply
mod Tests
use tun2socket_lwip.Prelude.{
  ℕ, ◌%◌, ◌^◌, Option, none, some, List, [], ◌∷◌, ◌==◌, if◌then◌else◌, length, Cmd,
}
use tun2socket_lwip.Lwip.{Ptr, ErrT, Pbufs}
use tun2socket_lwip.Link.{World, ReadResult, WriteResult, link_read, link_write}
use tun2socket_lwip.Udp.{Metadata, RecvResult, SendResult, UdpWorld, udp_conn_recv, udp_conn_sendto}

-- ErrNative and ErrUnsupported
pub data Err : Type 0 where
  err_native err_unsupported : Err

-- what a call of Go comes to; a blocking call waits
pub data Outcome (A : Type 0) : Type 0 where
  panics : Outcome A
  blocks : Outcome A
  fails : Err → Outcome A
  returns : A → Outcome A

-- `net.Addr`: a `*net.UDPAddr`, by its IP and its port, or another
pub data Addr : Type 0 where
  udp_addr : List ℕ → ℕ → Addr
  other_addr : Addr

module _ (b : Pbufs) where
  -- what C gives back, as Go sees it
  abbrev of_read : ReadResult → Outcome (ℕ × List ℕ)
  of_read ReadResult.waits = blocks
  of_read ReadResult.failed = fails err_native
  of_read (ReadResult.reads n bytes) = returns (n, bytes)

  abbrev of_write : WriteResult → Outcome ℕ
  of_write WriteResult.rejected = fails err_native
  of_write (WriteResult.wrote n) = returns n

  abbrev pub of_send : SendResult → Outcome ℕ
  of_send SendResult.rejected = fails err_native
  of_send (SendResult.sent n) = returns n

  -- `(*link).Read`
  pub read : Ptr → (len cap : ℕ) → Cmd (World b) (Outcome (ℕ × List ℕ))
  read ctx len cap w =
      if cap == 0
      then some (panics, w)
      else elim (link_read b ctx len w) [ none ↦ none | some (r, w') ↦ some (of_read r, w') ]

  -- `(*link).Write`
  pub write : Ptr → List ℕ → (cap : ℕ) → ErrT → Cmd (World b) (Outcome ℕ)
  write ctx buf cap posted w =
      if cap == 0 then some (panics, w) else elim (link_write b ctx buf posted w) [
        | none ↦ none
        | some (r, w') ↦ some (of_write r, w')
      ]

  -- the addresses that `ReadFrom` makes of the metadata
  abbrev pub local_addr : Metadata → Addr
  local_addr m =
      udp_addr (m.src_addr.0 ∷ m.src_addr.1 ∷ m.src_addr.2 ∷ m.src_addr.3 ∷ []) m.src_port

  abbrev pub remote_addr : Metadata → Addr
  remote_addr m =
      udp_addr (m.dst_addr.0 ∷ m.dst_addr.1 ∷ m.dst_addr.2 ∷ m.dst_addr.3 ∷ []) m.dst_port

  of_recv : RecvResult → Outcome (List ℕ × Addr × Addr)
  of_recv RecvResult.waits = blocks
  of_recv RecvResult.failed = fails err_native
  of_recv (RecvResult.received m bytes) = returns (bytes, local_addr m, remote_addr m)

  -- `(*udp).ReadFrom`
  pub read_from : (len cap : ℕ) → UdpWorld b → Outcome (List ℕ × Addr × Addr) × UdpWorld b
  unfolding of_recv
  read_from len cap w =
      let (r, w') = udp_conn_recv b len w in if cap == 0 then (panics, w) else (of_recv r, w')

  -- `(*udp).WriteTo`; `to4` is `net.IP.To4`, and a port is cut to a `uint16_t`
  pub write_to :
      (to4 : List ℕ → Option (ℕ × ℕ × ℕ × ℕ))
      → (buf : List ℕ) → (cap : ℕ) → (l_addr r_addr : Addr) → ErrT
      → UdpWorld b
      → Outcome ℕ × UdpWorld b
  write_to to4 buf cap (udp_addr l_ip l_port) (udp_addr r_ip r_port) posted w = elim (to4 l_ip) [
    | none ↦ (fails err_unsupported, w)
    | some l ↦ elim (to4 r_ip) [
      | none ↦ (fails err_unsupported, w)
      | some r ↦
          let metadata : Metadata = record {
            src_addr = r;
            dst_addr = l;
            src_port = r_port % 2 ^ 16;
            dst_port = l_port % 2 ^ 16;
          } in
          let (out, w') = udp_conn_sendto b metadata buf posted w in
          if cap == 0 then (panics, w) else (of_send out, w')
    ]
  ]
  write_to to4 buf cap (udp_addr l_ip l_port) other_addr posted w = (fails err_unsupported, w)
  write_to to4 buf cap other_addr r_addr posted w = (fails err_unsupported, w)
