-- ===== src/Tcp/Stream.antt =====
-- `tcp_conn_read` hands out the byte stream of the connection in order, with nothing lost or repeated.
use tun2socket_lwip.Prelude.{
  ℕ, ◌+◌, ◌%◌, ◌^◌, ◌<◌, ◌≡◌, ◌≢◌, ◌↔◌, refl, sym, ap, ◌∙◌, true, false, List, [], ◌∷◌, ◌++◌,
  append_assoc, arith, ◌==◌, leb, ltb, if◌then◌else◌, inl, inr, Bool-cases, length, take, drop,
  length-take, length-drop, take-append-drop, drop-drop, take-all,
}
use tun2socket_lwip.Lwip.{Ptr, null, is_ok, u16}
use tun2socket_lwip.Tcp.{
  Netconns, TcpConn, ReadResult, reads, failed, drop_netbuf, read_pending, read_next, tcp_conn_read,
}

-- What native/ relies on of lwIP's receive side, in terms of the bytes of a buffer and of the
-- buffers that a connection will still deliver.
pub record StreamLaws (n : Netconns) : Type 0 where
  pub payload : Ptr → n.Heap → List ℕ
  pub incoming : Ptr → n.Heap → List (List ℕ)
  pub copy_bytes :
      (p : Ptr) (size off : ℕ) (h : n.Heap)
      → n.netbuf_copy_partial p size off h ≡ take size (drop off (payload p h))
  pub len_bytes : (p : Ptr) (h : n.Heap) → n.netbuf_len p h ≡ length (payload p h)
  pub len_lt : (p : Ptr) (h : n.Heap) → length (payload p h) < 2 ^ 16
  -- A receive that succeeds gives the next buffer, and one that fails takes none.
  pub recv_next :
      (c : Ptr) (h : n.Heap)
      → let (err, p, h') = n.netconn_recv c h in
        is_ok err ≡ true → (p ≢ null) × (incoming c h ≡ payload p h' ∷ incoming c h')
  pub recv_fail :
      (c : Ptr) (h : n.Heap)
      → let (err, p, h') = n.netconn_recv c h in is_ok err ≡ false → incoming c h' ≡ incoming c h
  pub free_incoming : (c p : Ptr) (h : n.Heap) → incoming c (n.netbuf_free p h) ≡ incoming c h
  pub delete_incoming : (c p : Ptr) (h : n.Heap) → incoming c (n.netbuf_delete p h) ≡ incoming c h

abbrev concat : List (List ℕ) → List ℕ
concat [] = []
concat (xs ∷ xss) = xs ++ concat xss

-- the bytes that a read handed out
abbrev pub bytes_read : ReadResult → List ℕ
bytes_read failed = []
bytes_read (reads bs) = bs

split : (k : ℕ) (xs ys : List ℕ) → xs ++ ys ≡ take k xs ++ (drop k xs ++ ys)
split k xs ys =
    ap (λ r. r ++ ys) (sym (take-append-drop k xs)) ∙ append_assoc (take k xs) (drop k xs) ys

module _ (n : Netconns) (laws : StreamLaws n) where
  open laws use {payload, incoming}

  -- what is left of the buffer that is being read, and what lwIP will still deliver
  abbrev left : TcpConn → n.Heap → List ℕ
  left c h = if c.pending == null then [] else drop c.offset (payload c.pending h)

  abbrev pub remaining : TcpConn → n.Heap → List ℕ
  remaining c h = left c h ++ concat (incoming c.conn h)

  -- A buffer that is kept has bytes left.
  pub record IsReading (c : TcpConn) (h : n.Heap) : Type 0 where
    pub inside : c.pending ≢ null → c.offset < length (payload c.pending h)

  -- what holds after a read
  pub record Delivered (c : TcpConn) (h : n.Heap) (out : ReadResult × TcpConn × n.Heap)
      : Type 0 where
    pub stream : remaining c h ≡ bytes_read out.0 ++ remaining out.1 out.2
    pub still : IsReading out.1 out.2

  drop_netbuf-incoming : (c p : Ptr) (h : n.Heap) → incoming c (drop_netbuf n p h) ≡ incoming c h
  drop_netbuf-incoming c p h =
      laws.delete_incoming c p (n.netbuf_free p h) ∙ laws.free_incoming c p h

  read_pending-Delivered :
      (c : TcpConn) (size : ℕ) (h : n.Heap)
      → c.pending ≢ null
      → IsReading c h
      → Delivered c h (read_pending n c size h)
  unfolding read_pending
  read_pending-Delivered c size h ne ok =
      let all = payload c.pending h in
      let rest = drop c.offset all in
      let at_off : u16 c.offset ≡ c.offset = omega (arith, ok.inside ne, laws.len_lt c.pending h) in
      let copied : n.netbuf_copy_partial c.pending (u16 size) (u16 c.offset) h
          ≡ take (u16 size) rest =
        laws.copy_bytes c.pending (u16 size) (u16 c.offset) h
        ∙ ap (λ k. take (u16 size) (drop k all)) at_off in
      let is_open : (c.pending == null) ≡ false = ground arith in
      let sizes = length-take (u16 size) rest in
      let rests = length-drop c.offset all in
      rw (copied, laws.len_bytes c.pending h)
        (elim (Bool-cases (leb (length all) (c.offset + length (take (u16 size) rest)))) [
          | inl done ↦
              let whole : take (u16 size) rest ≡ rest =
                take-all (u16 size) rest (ground (arith, sizes, rests, ok.inside ne)) in
              rw done (record {
                stream = rw (is_open, whole, drop_netbuf-incoming c.conn c.pending h);
                still = record { inside = λ e. absurd (e refl) };
              })
          | inr more ↦
              let next : drop (c.offset + length (take (u16 size) rest)) all
                  ≡ drop (u16 size) rest =
                sym (drop-drop c.offset (length (take (u16 size) rest)) all)
                ∙ ap (λ k. drop k rest) (ground (arith, sizes, rests)) in
              rw more (record {
                stream = rw (is_open, next) (split (u16 size) rest (concat (incoming c.conn h)));
                still = record { inside = λ e. ground (arith, sizes) };
              })
        ])

  read_next-Delivered :
      (c : TcpConn) (size : ℕ) (h : n.Heap)
      → c.pending ≡ null
      → Delivered c h (read_next n c size h)
  unfolding read_next
  read_next-Delivered c size h idle =
      let buf = (n.netconn_recv c.conn h).1 in
      let h1 = (n.netconn_recv c.conn h).2 in
      let all = payload buf h1 in
      let closed : (c.pending == null) ≡ true = ground arith in
      let copied : n.netbuf_copy_partial buf (u16 size) 0 h1 ≡ take (u16 size) all =
        laws.copy_bytes buf (u16 size) 0 h1 in
      let sizes = length-take (u16 size) all in
      rw (copied, laws.len_bytes buf h1)
        (elim (Bool-cases (is_ok (n.netconn_recv c.conn h).0)) [
          | inr bad ↦ rw bad (record {
            stream = rw (closed, laws.recv_fail c.conn h bad);
            still = record { inside = λ e. absurd (e idle) };
          })
          | inl good ↦
              let came = laws.recv_next c.conn h good in
              elim (Bool-cases (ltb (length (take (u16 size) all)) (length all))) [
                | inl more ↦
                    let is_open : (buf == null) ≡ false = ground (arith, came.0) in
                    let next : drop (length (take (u16 size) all)) all ≡ drop (u16 size) all =
                      ap (λ k. drop k all) (ground (arith, sizes)) in
                    rw (good, more)
                      (record {
                        stream =
                            rw (closed, is_open, came.1, next)
                              (split (u16 size) all (concat (incoming c.conn h1)));
                        still = record { inside = λ e. ground arith };
                      })
                | inr done ↦
                    let whole : take (u16 size) all ≡ all =
                      take-all (u16 size) all (ground (arith, sizes)) in
                    rw (good, done)
                      (record {
                        stream = rw (closed, came.1, whole, drop_netbuf-incoming c.conn buf h1);
                        still = record { inside = λ e. absurd (e idle) };
                      })
              ]
        ])

  -- Each read hands out the next bytes of the stream: if a buffer that is kept has bytes left before
  -- it, then what was left of the stream is the bytes of the read followed by what is left after it,
  -- on every branch, and a buffer that is kept after it has bytes left again.
  pub tcp_conn_read-Delivered :
      (c : TcpConn) (size : ℕ) (h : n.Heap)
      → IsReading c h
      → Delivered c h (tcp_conn_read n c size h)
  unfolding tcp_conn_read
  tcp_conn_read-Delivered c size h ok = elim (Bool-cases (c.pending == null)) [
    | inl idle ↦ rw idle (read_next-Delivered c size h (ground arith))
    | inr kept ↦ rw kept (read_pending-Delivered c size h (ground arith) ok)
  ]

  -- the bytes that a series of reads hands out, and where it ends
  unfoldable pub read_all : TcpConn → List ℕ → n.Heap → List ℕ × TcpConn × n.Heap
  read_all c [] h = ([], c, h)
  read_all c (size ∷ sizes) h =
      let (r, c', h') = tcp_conn_read n c size h in
      let (bs, c'', h'') = read_all c' sizes h' in (bytes_read r ++ bs, c'', h'')

  -- A series of reads with buffers of any sizes, put together, is a prefix of the stream, and exactly the
  -- rest of the stream is left after it, if a buffer that is kept at the start has bytes left.
  pub read_all-stream :
      (sizes : List ℕ) (c : TcpConn) (h : n.Heap)
      → IsReading c h
      → let (bs, c', h') = read_all c sizes h in remaining c h ≡ bs ++ remaining c' h'
  unfolding read_all
  read_all-stream [] c h ok = refl
  read_all-stream (size ∷ sizes) c h ok =
      let one = tcp_conn_read-Delivered c size h ok in
      let (r, c', h') = tcp_conn_read n c size h in
      let rest = read_all-stream sizes c' h' one.still in
      one.stream ∙ ap (λ s. bytes_read r ++ s) rest ∙ sym (append_assoc (bytes_read r) _ _)

  pending-bytes :
      (c : TcpConn) (size : ℕ) (h : n.Heap)
      → c.pending ≢ null
      → IsReading c h
      → bytes_read (tcp_conn_read n c size h).0
        ≡ take (u16 size) (drop c.offset (payload c.pending h))
  unfolding tcp_conn_read
  pending-bytes c size h ne ok =
      let all = payload c.pending h in
      let at_off : u16 c.offset ≡ c.offset = omega (arith, ok.inside ne, laws.len_lt c.pending h) in
      let copied : n.netbuf_copy_partial c.pending (u16 size) (u16 c.offset) h
          ≡ take (u16 size) (drop c.offset all) =
        laws.copy_bytes c.pending (u16 size) (u16 c.offset) h
        ∙ ap (λ k. take (u16 size) (drop k all)) at_off in
      ground (arith, copied)

  -- A read of a pending buffer that has bytes left hands out none exactly when `size` is a multiple of
  -- 65536.
  pub tcp_conn_read-progress :
      (c : TcpConn) (size : ℕ) (h : n.Heap)
      → c.pending ≢ null
      → IsReading c h
      → (bytes_read (tcp_conn_read n c size h).0 ≡ []) ↔ (size % 2 ^ 16 ≡ 0)
  tcp_conn_read-progress c size h ne ok =
      let rest = drop c.offset (payload c.pending h) in
      let copied = pending-bytes c size h ne ok in
      (
        λ e. omega (
          arith,
          ap length (sym copied ∙ e),
          length-take (u16 size) rest,
          length-drop c.offset (payload c.pending h),
          ok.inside ne,
        ),
        λ e. copied ∙ ap (λ k. take k rest) e,
      )
