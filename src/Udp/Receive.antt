-- ===== src/Udp/Receive.antt =====
-- From the stack to the application: `udp_on_received` and `udp_conn_recv`.
use tun2socket_lwip.Prelude.{
  ℕ, ◌+◌, ◌-◌, ◌≤◌, ◌<◌, ◌^◌, ◌≡◌, ◌≢◌, sym, ap, ◌∙◌, false, List, [], ◌∷◌, ◌++◌, append-nil, arith,
  ltb, length, take, drop, ◌==◌, if◌then◌else◌, length-append, take-length, ◌%◌,
}
use tun2socket_lwip.Lwip.{Ptr, null, raw, ram, u16, Pbufs, PbufLaws, tot_len}
use tun2socket_lwip.Lwip.Fill.{fill_lem}
use tun2socket_lwip.Queues
use tun2socket_lwip.Queues.{Queue}
use tun2socket_lwip.Queues.Holds.{Holds, count-length, pop-take-drop}
use tun2socket_lwip.Queues.Overflow.{release_all, excess, append_lem}
use tun2socket_lwip.Udp.{
  Metadata, encode, decode, header, header_size, UdpConn, received, failed, waits, UdpWorld,
  udp_on_received, deliver, udp_conn_recv,
}
use tun2socket_lwip.Udp.Encoding.{
  IsMetadata, length-encode, take-encode, drop-encode, decode-encode,
}

-- the connection once its oldest datagram is gone
abbrev pub rx_popped : UdpConn → UdpConn
rx_popped c = record c { rx = (Queues.pop c.rx 1).1 }

module _ (b : Pbufs) (w : UdpWorld b) where
  -- With nothing queued a reader waits while the connection is open, and gets -1 once it is closed;
  -- nothing changes.
  pub udp_conn_recv-empty :
      (size : ℕ)
      → Holds (w.conn.rx) []
      → udp_conn_recv b size w ≡ (if w.conn.pcb == null then failed else waits, w)
  unfolding udp_conn_recv
  udp_conn_recv-empty size h = ground (arith, count-length h)

  pub udp_conn_recv-cons :
      (size : ℕ) {p : Ptr} {ps : List Ptr}
      → Holds (w.conn.rx) (p ∷ ps)
      → udp_conn_recv b size w ≡ deliver b p size (record w { conn = rx_popped (w.conn) })
  unfolding udp_conn_recv
  udp_conn_recv-cons size h = ground (arith, count-length h, (pop-take-drop 1 h).0)

  -- The two copies that `udp_conn_recv` takes out of a datagram.
  copies :
      PbufLaws b
      → (p : Ptr) (m : Metadata) (data_ : List ℕ) → IsMetadata m
      → b.payload p w.heap ≡ encode m ++ data_
      → (decode (b.pbuf_copy_partial p header_size 0 w.heap) ≡ m)
        × (b.pbuf_copy_partial p (length data_) header_size w.heap ≡ data_)
  copies laws p m data_ valid bytes = (
    rw (laws.copy_bytes p header_size 0 w.heap, bytes, take-encode m data_, ← append-nil (encode m))
        (decode-encode m [] valid),
    rw (laws.copy_bytes p (length data_) header_size w.heap, bytes, drop-encode m data_)
        (take-length data_),
  )

  deliver_lem :
      PbufLaws b
      → (size : ℕ) (p : Ptr) (m : Metadata) (data_ : List ℕ) → p ≢ null
      → IsMetadata m
      → b.payload p w.heap ≡ encode m ++ data_
      → tot_len b p w.heap < 2 ^ 16
      → deliver b p size w ≡ (
        if ltb size (length data_) then failed else received m data_,
        record w { heap = b.pbuf_free p w.heap },
      )
  unfolding deliver
  deliver_lem laws size p m data_ ne valid bytes short =
      let total : tot_len b p w.heap ≡ header_size + length data_ =
        ap length bytes
        ∙ length-append (encode m) data_
        ∙ ap (λ n. n + length data_) (length-encode m) in
      let long : (tot_len b p w.heap + 2 ^ 64 - header_size) % 2 ^ 64 ≡ length data_ =
        omega (arith, total) in
      let whole : u16 (length data_) ≡ length data_ = omega (arith, total) in
      ground (arith, long, whole, copies laws p m data_ valid bytes)

module _ (b : Pbufs) (w : UdpWorld b) where
  -- If the oldest datagram queued carries the metadata `m` and `data_`, in less than 65536 bytes with
  -- the header, `udp_conn_recv` returns them when `data_` fits in `size` bytes, and -1 when it does
  -- not. Either way the datagram is freed, and the later ones stay.
  pub udp_conn_recv_lem :
      PbufLaws b
      → (size : ℕ) {p : Ptr} {ps : List Ptr} (m : Metadata) (data_ : List ℕ)
      → Holds (w.conn.rx) (p ∷ ps)
      → p ≢ null
      → IsMetadata m
      → b.payload p w.heap ≡ encode m ++ data_
      → tot_len b p w.heap < 2 ^ 16
      → (udp_conn_recv b size w ≡ (
        if ltb size (length data_) then failed else received m data_,
        record w { heap = b.pbuf_free p w.heap; conn = rx_popped (w.conn) },
      ))
        × Holds (rx_popped (w.conn)).rx ps
  udp_conn_recv_lem laws size {p} m data_ h ne valid bytes short = (
    udp_conn_recv-cons b w size h
        ∙ deliver_lem b (record w { conn = rx_popped (w.conn) }) laws size p m data_ ne valid bytes
            short,
    (pop-take-drop 1 h).1,
  )

module _ (b : Pbufs) (w : UdpWorld b) (p : Ptr) (src_addr src_port dst_addr dst_port : ℕ) where
  -- the buffer for the metadata, and the heap in which the datagram is chained to it
  abbrev pub buffer : Ptr
  buffer = (b.pbuf_alloc raw header_size ram w.heap).0

  abbrev pub metadata : Metadata
  metadata = header b src_addr src_port dst_addr dst_port

  abbrev headed : b.Heap
  headed = (b.pbuf_take buffer (encode metadata) (b.pbuf_alloc raw header_size ram w.heap).1).1

  abbrev pub chained : b.Heap
  chained = b.pbuf_cat buffer p headed

  abbrev pub arrived : UdpWorld b
  arrived = udp_on_received b p src_addr src_port dst_addr dst_port w

  chained-bytes :
      PbufLaws b
      → buffer ≢ null
      → 0 < b.refs p w.heap
      → b.payload buffer chained ≡ encode metadata ++ b.payload p w.heap
  chained-bytes laws ne live =
      let got = laws.alloc_fresh raw header_size ram w.heap ne in
      let h1 = (b.pbuf_alloc raw header_size ram w.heap).1 in
      let other : p ≢ buffer = λ e. omega (arith, got.0, ap (λ q. b.refs q w.heap) e) in
      let kept : b.payload p headed ≡ b.payload p w.heap =
        (laws.take_same buffer (encode metadata) h1).bytes p other
        ∙ (laws.alloc_same raw header_size ram w.heap).bytes p other in
      laws.cat_bytes buffer p headed (λ e. other (sym e))
      ∙ rw (
        (fill_lem b laws raw header_size ram (encode metadata) w.heap (length-encode metadata)
            ne).0,
        kept,
      )

  -- With memory for its metadata, a live datagram that arrives is queued last, behind its addresses and
  -- ports; the datagrams queued before stay, but for the oldest of 256, which is freed.
  pub udp_on_received_lem :
      PbufLaws b
      → {ps : List Ptr} → Holds (w.conn.rx) ps
      → buffer ≢ null
      → 0 < b.refs p w.heap
      → let all = ps ++ (buffer ∷ []) in
        let over = excess (length all) in
        Holds (arrived.conn.rx) (drop over all)
        × (arrived.heap ≡ release_all b.pbuf_free (take over all) chained)
        × (b.payload buffer chained ≡ encode metadata ++ b.payload p w.heap)
  unfolding udp_on_received
  udp_on_received_lem laws h ne live =
      let queued = append_lem b.pbuf_free (buffer ∷ []) chained h in
      let there : (buffer == null) ≡ false = ground arith in
      rw there (queued.1, queued.2, chained-bytes laws ne live)

  -- A live datagram that arrives with nothing queued, with memory for its metadata, below 65536 bytes
  -- with the header and not longer than `size`, is what the next `udp_conn_recv` returns, byte for
  -- byte, with the address bytes and the ports that it came with.
  pub received-then-recv :
      PbufLaws b
      → (size : ℕ) → Holds (w.conn.rx) []
      → buffer ≢ null
      → 0 < b.refs p w.heap
      → IsMetadata metadata
      → tot_len b p w.heap + header_size < 2 ^ 16
      → tot_len b p w.heap ≤ size
      → (udp_conn_recv b size arrived).0 ≡ received metadata (b.payload p w.heap)
  unfolding release_all
  received-then-recv laws size h ne live valid short fits =
      let came = udp_on_received_lem laws h ne live in
      let bytes : b.payload buffer arrived.heap ≡ encode metadata ++ b.payload p w.heap =
        rw came.1 came.2 in
      let total : tot_len b buffer arrived.heap ≡ header_size + tot_len b p w.heap =
        ap length bytes
        ∙ length-append (encode metadata) (b.payload p w.heap)
        ∙ ap (λ n. n + tot_len b p w.heap) (length-encode metadata) in
      let out =
        (udp_conn_recv_lem b arrived laws size metadata (b.payload p w.heap) came.0 ne valid bytes
          (omega (arith, total))).0 in
      rw out (ground arith)
