-- ===== src/Udp/Send.antt =====
-- From the application to the stack: `udp_conn_sendto` and `udp_poll_tx`.
use tun2socket_lwip.Prelude.{
  ℕ, ◌+◌, ◌-◌, ◌<◌, ◌^◌, ◌≡◌, ◌≢◌, refl, sym, ap, ◌∙◌, Bool, false, none, some, Option, List, [],
  ◌∷◌, ◌++◌, arith, length, take, drop, ◌==◌, if◌then◌else◌, take-length, ◌||◌,
}
use tun2socket_lwip.Lwip.{Ptr, null, ErrT, err_ok, is_ok, transport, ram, u16, Pbufs, PbufLaws}
use tun2socket_lwip.Lwip.Fill.{fill_lem}
use tun2socket_lwip.Queues
use tun2socket_lwip.Queues.{Queue}
use tun2socket_lwip.Queues.Holds.{Holds, pop-take-drop}
use tun2socket_lwip.Queues.Overflow.{release_all, excess, append_lem}
use tun2socket_lwip.Udp.{
  Metadata, encode, decode, addr_of, header_size, sent, rejected, UdpWorld, Udps, schedule,
  udp_conn_sendto, send_one, send_all, udp_poll_tx,
}
use tun2socket_lwip.Udp.Encoding.{IsMetadata, length-encode, drop-encode, decode-encode}

pub schedule_lem :
    (b : Pbufs) (posted : ErrT) (w : UdpWorld b)
    → schedule b posted w ≡ record w {
      conn = record (w.conn) { tx_polling = w.conn.tx_polling || is_ok posted };
      due = if w.conn.tx_polling then w.due else if is_ok posted then w.due + 1 else w.due;
    }
unfolding schedule
schedule_lem b posted w = ground arith

module _ (b : Pbufs) (w : UdpWorld b) (metadata : Metadata) (buffer : List ℕ) (posted : ErrT) where
  -- A closed connection rejects a send, and nothing changes.
  pub udp_conn_sendto-closed :
      w.conn.pcb ≡ null → udp_conn_sendto b metadata buffer posted w ≡ (rejected, w)
  unfolding udp_conn_sendto
  udp_conn_sendto-closed closed = ground arith

  -- the buffer, and the heap once it holds the data, has room for the metadata, and holds both
  abbrev pub buf : Ptr
  buf = (b.pbuf_alloc transport (u16 (length buffer)) ram w.heap).0

  abbrev filled : b.Heap
  filled =
      (b.pbuf_take buf (take (u16 (length buffer)) buffer)
        (b.pbuf_alloc transport (u16 (length buffer)) ram w.heap).1).1

  abbrev pub widened : Bool × b.Heap
  widened = b.pbuf_add_header buf header_size filled

  abbrev pub packed : b.Heap
  packed = (b.pbuf_take buf (encode metadata) widened.1).1

  abbrev pub queued : ℕ × Queue × b.Heap
  queued = Queues.append b.pbuf_free (w.conn.tx) (buf ∷ []) packed

  abbrev after_send : UdpWorld b
  after_send = record w {
    heap = queued.2;
    conn = record (w.conn) { tx = queued.1; tx_polling = w.conn.tx_polling || is_ok posted };
    due = if w.conn.tx_polling then w.due else if is_ok posted then w.due + 1 else w.due;
  }

  pub udp_conn_sendto-open :
      {ps : List Ptr}
      → w.conn.pcb ≢ null
      → buf ≢ null
      → widened.0 ≡ false
      → Holds (w.conn.tx) ps
      → let all = ps ++ (buf ∷ []) in
        (udp_conn_sendto b metadata buffer posted w ≡ (sent (length buffer), after_send))
        × Holds queued.1 (drop (excess (length all)) all)
        × (queued.2 ≡ release_all b.pbuf_free (take (excess (length all)) all) packed)
  unfolding udp_conn_sendto
  udp_conn_sendto-open open_ ne room h =
      let done = append_lem b.pbuf_free (buf ∷ []) packed h in
      (
        ground (
          arith,
          schedule_lem b posted
              (record w { heap = queued.2; conn = record (w.conn) { tx = queued.1 } }),
        ),
        done.1,
        done.2,
      )

  -- What is queued is the metadata in front of the data, if the length fits lwIP's `u16_t`.
  packed-bytes :
      PbufLaws b
      → buf ≢ null
      → widened.0 ≡ false
      → length buffer < 2 ^ 16
      → b.payload buf packed ≡ encode metadata ++ buffer
  packed-bytes laws ne room short =
      let size : u16 (length buffer) ≡ length buffer = omega arith in
      let whole : take (u16 (length buffer)) buffer ≡ buffer = rw size (take-length buffer) in
      let full =
        fill_lem b laws transport (u16 (length buffer)) ram (take (u16 (length buffer)) buffer)
          w.heap (ap length whole ∙ sym size) ne in
      let added = laws.add_bytes buf header_size filled room in
      laws.take_bytes buf (encode metadata) widened.1 ne
        (omega (arith, added.1, length-encode metadata))
      ∙ ap (λ n. encode metadata ++ drop n (b.payload buf widened.1)) (length-encode metadata)
      ∙ ap (λ r. encode metadata ++ r) (added.0 ∙ full.0 ∙ whole)

  -- Its bytes are the data again, once the metadata is off.
  pub packed-data :
      PbufLaws b
      → buf ≢ null
      → widened.0 ≡ false
      → length buffer < 2 ^ 16
      → (b.pbuf_remove_header buf header_size packed).0 ≡ false
      → b.payload buf (b.pbuf_remove_header buf header_size packed).1 ≡ buffer
  packed-data laws ne room short cut =
      laws.remove_bytes buf header_size packed cut
      ∙ rw (packed-bytes laws ne room short) (drop-encode metadata buffer)

  -- What is queued has one reference.
  pub packed-refs : PbufLaws b → buf ≢ null → b.refs buf packed ≡ 1
  packed-refs laws ne =
      laws.take_refs buf (encode metadata) widened.1
      ∙ laws.add_refs buf header_size filled
      ∙ laws.take_refs buf (take (u16 (length buffer)) buffer) _
      ∙ (laws.alloc_fresh transport (u16 (length buffer)) ram w.heap ne).1

-- A buffer that carries metadata and data is handed to `udp_sendto_if_src_port` with the metadata's
-- addresses and ports and with the data as its payload, and is then freed.
send_one_lem :
    (b : Pbufs) (lwip : Udps b)
    → PbufLaws b
    → (pcb p : Ptr) (m : Metadata) (data_ : List ℕ) (h : b.Heap) → pcb ≢ null
    → IsMetadata m
    → b.payload p h ≡ encode m ++ data_
    → (b.pbuf_remove_header p header_size h).0 ≡ false
    → let h' = (b.pbuf_remove_header p header_size h).1 in
      (h'' : b.Heap)
      → lwip.udp_sendto pcb p (addr_of m.dst_addr) m.dst_port (addr_of m.src_addr) m.src_port h'
        ≡ some h''
      → (send_one b lwip pcb p h ≡ some (b.pbuf_free p h'')) × (b.payload p h' ≡ data_)
unfolding send_one
send_one_lem b lwip laws pcb p m data_ h ne valid bytes cut h'' handed =
    let read : decode (b.payload p h) ≡ m = rw bytes (decode-encode m data_ valid) in
    let open_ : (pcb == null) ≡ false = ground arith in
    (
      rw (cut, open_, read, handed) refl,
      laws.remove_bytes p header_size h cut ∙ rw bytes (drop-encode m data_),
    )

module _ (b : Pbufs) (lwip : Udps b) (w : UdpWorld b) where
  -- the connection behind the loop
  abbrev after_loop : Option b.Heap → Option (UdpWorld b)
  after_loop o = elim o [
    | none ↦ none
    | some h ↦ some (record {
      heap = h;
      conn = record (w.conn) { tx_polling = false; tx = (Queues.pop (w.conn.tx) 32).1 };
      due = w.due - 1;
    })
  ]

  udp_poll_tx_lem :
      {ps : List Ptr} {h : b.Heap}
      → Holds (w.conn.tx) ps
      → send_all b lwip (w.conn.pcb) (take 32 ps) w.heap ≡ some h
      → (w' : UdpWorld b) × (udp_poll_tx b lwip w ≡ some w')
        × (w'.heap ≡ h)
        × Holds (w'.conn.tx) (drop 32 ps)
        × (w'.conn.tx_polling ≡ false)
  unfolding udp_poll_tx
  udp_poll_tx_lem {ps} {h} holds sent_ =
      let out = pop-take-drop 32 holds in
      (
        record {
          heap = h;
          conn = record (w.conn) { tx_polling = false; tx = (Queues.pop (w.conn.tx) 32).1 };
          due = w.due - 1;
        },
        ap after_loop (ap (λ ps. send_all b lwip (w.conn.pcb) ps w.heap) out.0 ∙ sent_),
        refl,
        out.1,
        refl,
      )

module _ (b : Pbufs) (lwip : Udps b) (w : UdpWorld b) where
  -- A datagram below 65536 bytes sent on an open connection with nothing queued is, if lwIP had memory
  -- for it and room for the header, and its send does not abort, handed to lwIP once when the callback runs: to the destination
  -- and from the source that the metadata names, with exactly the bytes given. Then it is freed, and
  -- the queue is empty.
  pub send-then-poll :
      PbufLaws b
      → (m : Metadata) (data_ : List ℕ) → IsMetadata m
      → length data_ < 2 ^ 16
      → Holds (w.conn.tx) []
      → w.conn.pcb ≢ null
      → let p = buf b w m data_ err_ok in
        let h = packed b w m data_ err_ok in
        let h' = (b.pbuf_remove_header p header_size h).1 in
        p ≢ null
        → (widened b w m data_ err_ok).0 ≡ false
        → (b.pbuf_remove_header p header_size h).0 ≡ false
        → (h'' : b.Heap)
        → lwip.udp_sendto
            (w.conn.pcb)
            p
            (addr_of m.dst_addr)
            m.dst_port
            (addr_of m.src_addr)
            m.src_port
            h'
          ≡ some h''
        → let (r, w1) = udp_conn_sendto b m data_ err_ok w in
          (r ≡ sent (length data_))
          × ((w2 : UdpWorld b) × (udp_poll_tx b lwip w1 ≡ some w2)
              × (w2.heap ≡ b.pbuf_free p h'')
              × Holds (w2.conn.tx) [])
  unfolding release_all send_all
  send-then-poll laws m data_ valid short h open_ ne room cut h'' handed =
      let p = buf b w m data_ err_ok in
      let out = udp_conn_sendto-open b w m data_ err_ok open_ ne room h in
      let one =
        send_one_lem b lwip laws (w.conn.pcb) p m data_ (packed b w m data_ err_ok) open_ valid
          (packed-bytes b w m data_ err_ok laws ne room short) cut h'' handed in
      let all : send_all b lwip (w.conn.pcb) (p ∷ []) (after_send b w m data_ err_ok).heap
          ≡ some (b.pbuf_free p h'') =
        ap (send_all b lwip (w.conn.pcb) (p ∷ [])) out.2
        ∙ ap (λ o. elim o [ none ↦ none | some h' ↦ some h' ]) one.0 in
      let polled = udp_poll_tx_lem b lwip (after_send b w m data_ err_ok) out.1 all in
      rw out.0 (refl, (polled.0, polled.1, polled.2, polled.3))
