-- ===== src/Tcp.antt =====
-- native/tcp.h and native/tcp.c: connections as byte streams, and the listener, over lwIP's netconn
-- interface, which is a parameter.
-- lwIP's heap is abstract. A listener or a connection is a value; the address that `malloc` gives
-- it plays no part. A blocking call of lwIP is one call of a parameter.
pub mod Accept
pub mod Listener
pub mod Stream
mod Tests
use tun2socket_lwip.Prelude.{
  ℕ, ◌+◌, ◌*◌, ◌%◌, ◌^◌, Bool, true, false, Option, none, some, List, [], ◌∷◌, ◌++◌, ◌==◌, leb, ltb,
  if◌then◌else◌, length, zero, suc,
}
use tun2socket_lwip.Lwip.{Ptr, null, ErrT, is_ok, u16}
use tun2socket_lwip.Address.{get_byte}

pub record Netconns : Type 1 where
  pub Heap : Type 0
  pub netconn_new : Heap → Ptr × Heap
  -- `netconn_bind` to `IP4_ADDR_ANY` and `TCP_ACCEPT_ANY_PORT`
  pub netconn_bind_any : Ptr → Heap → ErrT × Heap
  -- `netconn_bind_if` to the interface of native/
  pub netconn_bind_if : Ptr → Heap → ErrT × Heap
  pub netconn_listen : Ptr → Heap → ErrT × Heap
  pub netconn_accept : Ptr → Heap → ErrT × Ptr × Heap
  -- the argument `local`: `true` asks for lwIP's own end, `false` for the peer's
  pub netconn_getaddr : Ptr → Bool → Heap → ErrT × ℕ × ℕ × Heap
  pub netconn_close : Ptr → Heap → Heap
  pub netconn_prepare_delete : Ptr → Heap → Heap
  pub netconn_delete : Ptr → Heap → Heap
  pub netconn_recv : Ptr → Heap → ErrT × Ptr × Heap
  pub netconn_write : Ptr → List ℕ → Heap → ErrT × Heap
  pub netbuf_copy_partial : Ptr → ℕ → ℕ → Heap → List ℕ
  pub netbuf_len : Ptr → Heap → ℕ
  pub netbuf_free : Ptr → Heap → Heap
  pub netbuf_delete : Ptr → Heap → Heap

-- `struct tcp_conn_t`. The application's local end is lwIP's peer, and the other way round.
pub record TcpConn : Type 0 where
  pub conn : Ptr
  pub local : ℕ
  pub remote : ℕ
  pub local_port : ℕ
  pub remote_port : ℕ
  pub pending : Ptr
  pub offset : ℕ

-- what `tcp_conn_read` returns: -1, or the bytes that it copied
pub data ReadResult : Type 0 where
  failed : ReadResult
  reads : List ℕ → ReadResult

pub data WriteResult : Type 0 where
  failed : WriteResult
  wrote : ℕ → WriteResult

-- what one pass of the loop of `tcp_listener_accept` comes to
pub data Accepted : Type 0 where
  stopped skipped : Accepted
  accepted : TcpConn → Accepted

module _ (n : Netconns) where
  open n use {
    Heap, netconn_new, netconn_bind_any, netconn_bind_if, netconn_listen, netconn_accept,
    netconn_getaddr, netconn_close, netconn_prepare_delete, netconn_delete, netconn_recv,
    netconn_write, netbuf_copy_partial, netbuf_len, netbuf_free, netbuf_delete,
  }

  -- `tcp_listener_listen`; the `abort` label deletes the connection, if there is one. `netconn_bind`
  -- of NULL aborts the program, since `LWIP_ERROR` calls `abort` in this build: the result is `none`.
  pub tcp_listener_listen : Heap → Option (Option Ptr × Heap)
  tcp_listener_listen h =
      let (conn, h1) = netconn_new h in
      let (bound, h2) = netconn_bind_any conn h1 in
      let (bound_if, h3) = netconn_bind_if conn h2 in
      let (listening, h4) = netconn_listen conn h3 in
      let abort = λ (h' : Heap). if conn == null then h' else netconn_delete conn h' in
      if conn == null
      then none
      else some (
          if is_ok bound
          then (if is_ok bound_if
              then (if is_ok listening then (some conn, h4) else (none, abort h4))
              else (none, abort h3))
          else (none, abort h2))

  -- one pass of the loop of `tcp_listener_accept`
  pub accept_one : Ptr → Heap → Accepted × Heap
  accept_one listener h =
      let (err, new_conn, h1) = netconn_accept listener h in
      let (has_local, local, local_port, h2) = netconn_getaddr new_conn false h1 in
      let (has_remote, remote, remote_port, h3) = netconn_getaddr new_conn true h2 in
      if is_ok err
      then (if is_ok has_local
          then (if is_ok has_remote
              then (
                accepted (record {
                  conn = new_conn;
                  local = local;
                  remote = remote;
                  local_port = local_port;
                  remote_port = remote_port;
                  pending = null;
                  offset = 0;
                }),
                h3,
              )
              else (skipped, netconn_delete new_conn h3))
          else (skipped, netconn_delete new_conn h2))
      else (stopped, h1)

  -- `tcp_listener_accept`, with a bound on its passes; the outer `none` is a loop that goes on
  pub tcp_listener_accept : ℕ → Ptr → Heap → Option (Option TcpConn × Heap)
  tcp_listener_accept zero listener h = none
  tcp_listener_accept (suc fuel) listener h = elim (accept_one listener h).0 [
    | stopped ↦ some (none, (accept_one listener h).1)
    | skipped ↦ tcp_listener_accept fuel listener (accept_one listener h).1
    | accepted c ↦ some (some c, (accept_one listener h).1)
  ]

  -- `tcp_listener_close` and `tcp_conn_close`
  pub close : Ptr → Heap → Heap
  close conn h = netconn_prepare_delete conn (netconn_close conn h)

  -- `tcp_listener_free`
  tcp_listener_free : Ptr → Heap → Heap
  tcp_listener_free conn h = netconn_delete conn h

  -- `netbuf_free(buf); netbuf_delete(buf);`
  abbrev pub drop_netbuf : Ptr → Heap → Heap
  drop_netbuf buf h = netbuf_delete buf (netbuf_free buf h)

  -- the first branch of `tcp_conn_read`; lengths go to lwIP as `u16_t`
  pub read_pending : TcpConn → ℕ → Heap → ReadResult × TcpConn × Heap
  read_pending c size h =
      let bytes = netbuf_copy_partial c.pending (u16 size) (u16 c.offset) h in
      let offset' = c.offset + length bytes in
      if leb (netbuf_len c.pending h) offset'
      then (reads bytes, record c { pending = null; offset = 0 }, drop_netbuf c.pending h)
      else (reads bytes, record c { offset = offset' }, h)

  -- the rest of `tcp_conn_read`
  pub read_next : TcpConn → ℕ → Heap → ReadResult × TcpConn × Heap
  read_next c size h =
      let (err, buf, h1) = netconn_recv c.conn h in
      let bytes = netbuf_copy_partial buf (u16 size) 0 h1 in
      if is_ok err
      then (if ltb (length bytes) (netbuf_len buf h1)
          then (reads bytes, record c { pending = buf; offset = length bytes }, h1)
          else (reads bytes, c, drop_netbuf buf h1))
      else (failed, c, h1)

  -- `tcp_conn_read`; `size` is not negative
  pub tcp_conn_read : TcpConn → ℕ → Heap → ReadResult × TcpConn × Heap
  unfolding read_pending read_next
  tcp_conn_read c size h = if c.pending == null then read_next c size h else read_pending c size h

  -- `tcp_conn_write`
  tcp_conn_write : TcpConn → List ℕ → Heap → WriteResult × Heap
  tcp_conn_write c bytes h =
      let (err, h1) = netconn_write c.conn bytes h in
      if is_ok err then (wrote (length bytes), h1) else (failed, h1)

  -- `tcp_conn_free`
  tcp_conn_free : TcpConn → Heap → Heap
  tcp_conn_free c h =
      let h1 = (if c.pending == null then h else netbuf_free c.pending h) in
      netconn_delete c.conn h1

-- `tcp_conn_local_addr` and `tcp_conn_remote_addr`: the four bytes and the port
pub tcp_conn_local_addr : TcpConn → (ℕ × ℕ × ℕ × ℕ) × ℕ
tcp_conn_local_addr c =
    ((get_byte c.local 0, get_byte c.local 1, get_byte c.local 2, get_byte c.local 3), c.local_port)

pub tcp_conn_remote_addr : TcpConn → (ℕ × ℕ × ℕ × ℕ) × ℕ
tcp_conn_remote_addr c = (
  (get_byte c.remote 0, get_byte c.remote 1, get_byte c.remote 2, get_byte c.remote 3),
  c.remote_port,
)
