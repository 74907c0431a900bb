-- ===== src/Udp.antt =====
-- native/udp.h and native/udp.c: datagrams between the stack and the application, each with its
-- addresses in front.
-- A region under a mutex is one step. `due` counts the callbacks `udp_poll_tx` that lwIP has
-- accepted and not run yet. `sizeof(udp_metadata_t)` is 12, and `size_t` has 64 bits.
pub mod Encoding
pub mod Receive
pub mod Send
pub mod System
mod Tests
use tun2socket_lwip.Prelude.{
  ℕ, ◌+◌, ◌-◌, ◌*◌, ◌/◌, ◌%◌, ◌^◌, Bool, true, false, not, Option, none, some, List, [], ◌∷◌, ◌==◌,
  ltb, if◌then◌else◌, length, get_or, take,
}
use tun2socket_lwip.Lwip.{Ptr, null, ErrT, is_ok, transport, raw, ram, u16, Pbufs, tot_len}
use tun2socket_lwip.Address.{get_byte, ip4_addr}
use tun2socket_lwip.Queues
use tun2socket_lwip.Queues.{Queue}

-- `udp_metadata_t`
pub record Metadata : Type 0 where
  pub src_addr : ℕ × ℕ × ℕ × ℕ
  pub dst_addr : ℕ × ℕ × ℕ × ℕ
  pub src_port : ℕ
  pub dst_port : ℕ

-- `sizeof(udp_metadata_t)`
abbrev pub header_size : ℕ
header_size = 12

-- the bytes of a `udp_metadata_t` in memory, ports little-endian
unfoldable pub encode : Metadata → List ℕ
encode m =
    m.src_addr.0
    ∷ m.src_addr.1
    ∷ m.src_addr.2
    ∷ m.src_addr.3
    ∷ m.dst_addr.0
    ∷ m.dst_addr.1
    ∷ m.dst_addr.2
    ∷ m.dst_addr.3
    ∷ (m.src_port % 2 ^ 8)
    ∷ (m.src_port / 2 ^ 8)
    ∷ (m.dst_port % 2 ^ 8)
    ∷ (m.dst_port / 2 ^ 8)
    ∷ []

-- what is read through a `udp_metadata_t *`
pub decode : List ℕ → Metadata
decode bs =
    let at = λ (i : ℕ). get_or bs i 0 in
    record {
      src_addr = (at 0, at 1, at 2, at 3);
      dst_addr = (at 4, at 5, at 6, at 7);
      src_port = at 8 + at 9 * 2 ^ 8;
      dst_port = at 10 + at 11 * 2 ^ 8;
    }

-- the four calls of `ip4_addr_get_byte`
abbrev bytes_of : ℕ → ℕ × ℕ × ℕ × ℕ
bytes_of addr = (get_byte addr 0, get_byte addr 1, get_byte addr 2, get_byte addr 3)

-- `IP4_ADDR` of four bytes
abbrev pub addr_of : ℕ × ℕ × ℕ × ℕ → ℕ
addr_of (a, b, c, d) = ip4_addr a b c d

-- `struct udp_conn_t`, less its mutexes and its condition variable
pub record UdpConn : Type 0 where
  pub pcb : Ptr
  pub rx : Queue
  pub tx : Queue
  pub tx_polling : Bool

-- the outcome of one pass of the loop of `udp_conn_recv`
pub data RecvResult : Type 0 where
  waits failed : RecvResult
  received : Metadata → List ℕ → RecvResult

pub data SendResult : Type 0 where
  rejected : SendResult
  sent : ℕ → SendResult

pub record UdpWorld (b : Pbufs) : Type 0 where
  pub heap : b.Heap
  pub conn : UdpConn
  pub due : ℕ

-- lwIP's calls on UDP control blocks. `udp_sendto` is `udp_sendto_if_src_port` on the interface of
-- native/: pcb, buffer, destination and its port, source and its port. An assertion of lwIP that fails
-- aborts the program: then there is no heap after it, `none`.
pub record Udps (b : Pbufs) : Type 0 where
  pub udp_new : b.Heap → Ptr × b.Heap
  pub udp_bind_any : Ptr → b.Heap → ErrT × b.Heap
  pub udp_bind_netif : Ptr → b.Heap → b.Heap
  pub udp_recv : Ptr → b.Heap → b.Heap
  pub udp_remove : Ptr → b.Heap → b.Heap
  pub udp_sendto : Ptr → Ptr → ℕ → ℕ → ℕ → ℕ → b.Heap → Option b.Heap

module _ (b : Pbufs) where
  -- the metadata of a datagram from `src_addr` to `dst_addr`, both as lwIP holds them
  abbrev pub header : (src_addr src_port dst_addr dst_port : ℕ) → Metadata
  header src_addr src_port dst_addr dst_port = record {
    src_addr = bytes_of src_addr;
    dst_addr = bytes_of dst_addr;
    src_port = src_port;
    dst_port = dst_port;
  }

  -- `udp_on_received`; `dst_addr` and `dst_port` are `ip_current_dest_addr` and `udp_current_dst`
  pub udp_on_received :
      (p : Ptr) (src_addr src_port dst_addr dst_port : ℕ) → UdpWorld b → UdpWorld b
  udp_on_received p src_addr src_port dst_addr dst_port w =
      let (buffer, h1) = b.pbuf_alloc raw header_size ram w.heap in
      let (_, h2) = b.pbuf_take buffer (encode (header src_addr src_port dst_addr dst_port)) h1 in
      let h3 = b.pbuf_cat buffer p h2 in
      let (_, rx, h4) = Queues.append b.pbuf_free (w.conn.rx) (buffer ∷ []) h3 in
      if buffer == null
      then record w { heap = h1 }
      else record w { heap = h4; conn = record (w.conn) { rx = rx } }

  -- what `udp_conn_recv` does with the buffer that it took from the queue; the subtraction is in
  -- `size_t`
  pub deliver : Ptr → ℕ → UdpWorld b → RecvResult × UdpWorld b
  deliver buf size w =
      let total = tot_len b buf w.heap in
      let data_length = (total + 2 ^ 64 - header_size) % 2 ^ 64 in
      let freed = record w { heap = b.pbuf_free buf w.heap } in
      if buf == null then (failed, w) else if ltb size data_length then (failed, freed) else (
        received (decode (b.pbuf_copy_partial buf header_size 0 w.heap))
            (b.pbuf_copy_partial buf (u16 data_length) header_size w.heap),
        freed,
      )

  -- `udp_conn_recv`, from one test of its loop to the next; `size` is not negative
  pub udp_conn_recv : ℕ → UdpWorld b → RecvResult × UdpWorld b
  unfolding deliver
  udp_conn_recv size w =
      let (out, rx) = Queues.pop (w.conn.rx) 1 in
      let w' : UdpWorld b = record w { conn = record (w.conn) { rx = rx } } in
      if Queues.count (w.conn.rx) == 0
      then (if w.conn.pcb == null then (failed, w) else (waits, w))
      else elim out [ [] ↦ deliver null size w' | buf ∷ _ ↦ deliver buf size w' ]

  -- The end of `udp_conn_sendto`: `posted` is what `tcpip_try_callback` returns if it is called.
  pub schedule : ErrT → UdpWorld b → UdpWorld b
  schedule posted w =
      if w.conn.tx_polling
      then w
      else if is_ok posted
      then record w { conn = record (w.conn) { tx_polling = true }; due = w.due + 1 }
      else w

  -- `udp_conn_sendto`; the list is `buffer[0..size)`, and lengths go to lwIP as `u16_t`
  pub udp_conn_sendto : Metadata → List ℕ → ErrT → UdpWorld b → SendResult × UdpWorld b
  udp_conn_sendto metadata buffer posted w =
      let size = length buffer in
      let (buf, h1) = b.pbuf_alloc transport (u16 size) ram w.heap in
      let (_, h2) = b.pbuf_take buf (take (u16 size) buffer) h1 in
      let (no_room, h3) = b.pbuf_add_header buf header_size h2 in
      let (_, h4) = b.pbuf_take buf (encode metadata) h3 in
      let (_, tx, h5) = Queues.append b.pbuf_free (w.conn.tx) (buf ∷ []) h4 in
      if w.conn.pcb == null
      then (rejected, w)
      else if buf == null
      then (rejected, record w { heap = h1 })
      else if no_room
      then (rejected, record w { heap = b.pbuf_free buf h3 })
      else (sent size, schedule posted (record w { heap = h5; conn = record (w.conn) { tx = tx } }))

  module _ (lwip : Udps b) where
    -- one round of the loop of `udp_poll_tx`
    pub send_one : Ptr → Ptr → b.Heap → Option b.Heap
    send_one pcb buf h =
        let metadata = decode (b.payload buf h) in
        let (no_header, h1) = b.pbuf_remove_header buf header_size h in
        let handed =
          lwip.udp_sendto pcb buf (addr_of metadata.dst_addr) metadata.dst_port
            (addr_of metadata.src_addr) metadata.src_port h1 in
        if no_header
        then some (b.pbuf_free buf h1)
        else if pcb == null
        then some (b.pbuf_free buf h1)
        else elim handed [ none ↦ none | some h2 ↦ some (b.pbuf_free buf h2) ]

    pub send_all : Ptr → List Ptr → b.Heap → Option b.Heap
    send_all pcb [] h = some h
    send_all pcb (buf ∷ bufs) h = elim (send_one pcb buf h) [
      | none ↦ none
      | some h' ↦ send_all pcb bufs h'
    ]

    -- `udp_poll_tx`, as the stack's thread runs a callback that is due. It runs under the core lock,
    -- so `pcb` stays as it is through the loop. It is `none` when a send aborts the program.
    pub udp_poll_tx : UdpWorld b → Option (UdpWorld b)
    udp_poll_tx w =
        let (array, tx) = Queues.pop (w.conn.tx) 32 in
        elim (send_all (w.conn.pcb) array w.heap) [
          | none ↦ none
          | some h ↦ some (record {
            heap = h;
            conn = record (w.conn) { tx_polling = false; tx = tx };
            due = w.due - 1;
          })
        ]

    -- `udp_conn_listen`; `malloc` is taken to succeed, as the code takes it. `udp_bind` of NULL aborts
    -- the program, since `LWIP_ERROR` calls `abort` in this build: the result is `none`.
    pub udp_conn_listen : b.Heap → Option (Option UdpConn × b.Heap)
    udp_conn_listen h =
        let (pcb, h1) = lwip.udp_new h in
        let (err, h2) = lwip.udp_bind_any pcb h1 in
        if pcb == null
        then none
        else if is_ok err
        then some (
          some (record { pcb = pcb; rx = Queues.zeroed; tx = Queues.zeroed; tx_polling = false }),
          lwip.udp_recv pcb (lwip.udp_bind_netif pcb h2),
        )
        else some (none, lwip.udp_remove pcb h2)

    -- `udp_conn_close`
    pub udp_conn_close : UdpWorld b → UdpWorld b
    udp_conn_close w = record w {
      heap = if w.conn.pcb == null then w.heap else lwip.udp_remove (w.conn.pcb) w.heap;
      conn = record (w.conn) { pcb = null };
    }

    -- `udp_conn_free` closes first; the heap that is left once the connection is gone
    udp_conn_free : UdpWorld b → b.Heap
    unfolding udp_conn_close
    udp_conn_free w = (udp_conn_close w).heap
