-- ===== src/UdpIo/Output.antt =====
-- lwip/core/udp.c: `udp_send`, `udp_sendto`, `udp_sendto_if`, `udp_sendto_if_src` and, of this
-- repository, `udp_sendto_if_src_port`. The addresses given are not NULL;
-- NULL for a block, a buffer or an interface aborts in this build.
pub mod Sent
pub mod Connected
pub mod Lengths
pub mod ZeroPort
use tun2socket_lwip.Prelude.{
  ℕ, ◌+◌, ◌-◌, ◌^◌, ◌%◌, Bool, true, false, not, ◌&&◌, ◌||◌, Option, none, some, List, ◌==◌, ltb,
  if◌then◌else◌, Cmd, pure, ◌>>=◌,
}
use tun2socket_lwip.Lwip.{
  Ptr, null, ErrT, err_ok, err_mem, err_rte, is_ok, ip, ram, u16, Pbufs, tot_len,
}
use tun2socket_lwip.Interface.{Netif}
use tun2socket_lwip.Demux.{Pcb, addr_any, no_index}
use tun2socket_lwip.Blocks.{Table, load, udp_bind}
use tun2socket_lwip.Ip4.{
  Core, freed, Calls, ismulticast, ip4_route, proto_udp, proto_udplite, udp_hlen,
}
use tun2socket_lwip.Ip4.Output.{NetifOutputFn, ip4_output_if_src}
use tun2socket_lwip.UdpIo.{UdpHdr, print, index}

-- the bytes that the checksum of UDP-Lite covers, and the length that its header says
pub covered : Pcb → ℕ → ℕ
covered c total =
    if ltb c.chksum_len_tx udp_hlen || ltb total c.chksum_len_tx then total else c.chksum_len_tx

pub header_length : Pcb → ℕ → ℕ
header_length c total =
    if not c.udplite
    then total
    else if ltb c.chksum_len_tx udp_hlen || ltb total c.chksum_len_tx
    then 0
    else c.chksum_len_tx

-- A checksum of 0 becomes 0xffff.
abbrev pub nonzero : ℕ → ℕ
nonzero chksum = if chksum == 0 then 2 ^ 16 - 1 else chksum

-- `netif_get_by_index`, with one interface
pub netif_get_by_index : Option Netif → ℕ → Option Netif
unfolding index
netif_get_by_index netif_default idx = elim netif_default [
  | none ↦ none
  | some netif ↦ if not (idx == no_index) && idx == index netif then some netif else none
]

module _ (b : Pbufs) {A : Type 0} (lwip : Calls b A) (netif_output : NetifOutputFn b A) where
  -- an operation on the control blocks
  abbrev pub on_table : {R : Type 0} → Cmd Table R → Cmd (Core b A) R
  on_table f s = elim (f s.table) [ none ↦ none | some (r, t) ↦ some (r, record s { table = t }) ]

  -- the port to send from, for which the block is bound if there is none
  pub source_port : Ptr → ℕ → Cmd (Core b A) (ErrT × ℕ)
  source_port pcb src_port =
      if src_port == 0
      then (do
        c ← on_table (load pcb)
        err ←
            (if c.local_port == 0
              then on_table (udp_bind pcb c.local_ip c.local_port)
              else pure err_ok)
        c' ← on_table (load pcb)
        pure (err, c'.local_port))
      else pure (err_ok, src_port)

  -- the buffer with room for the header in front: `p` itself, or a new one that `p` is chained to
  pub add_header : Ptr → b.Heap → Ptr × b.Heap
  add_header p h =
      let (no_room, h1) = b.pbuf_add_header p udp_hlen h in
      let (q, h2) = b.pbuf_alloc ip udp_hlen ram h1 in
      if not no_room
      then (p, h1)
      else if q == null
      then (null, h2)
      else if tot_len b p h2 == 0
      then (q, h2)
      else (q, lwip.pbuf_chain q p h2)

  -- the checksum of a datagram whose header is written but for it
  pub chksum_of : Pcb → Ptr → (src_ip dst_ip : ℕ) → b.Heap → ℕ
  unfolding covered
  chksum_of c q src_ip dst_ip h =
      let total = tot_len b q h in
      if c.udplite
      then nonzero
          (lwip.ip_chksum_pseudo_partial q proto_udplite total (covered c total) src_ip dst_ip h)
      else if c.nochksum
      then 0
      else nonzero (lwip.ip_chksum_pseudo q proto_udp total src_ip dst_ip h)

  -- the header, first without the checksum and then with it
  pub write_header : Pcb → Ptr → (src_ip src_port dst_ip dst_port : ℕ) → b.Heap → b.Heap
  unfolding chksum_of header_length
  write_header c q src_ip src_port dst_ip dst_port h =
      let blank : UdpHdr = record {
        src = src_port;
        dest = dst_port;
        len = header_length c (tot_len b q h);
        chksum = 0;
      } in
      let h1 = lwip.write q (print blank) h in
      lwip.write q (print (record blank { chksum = chksum_of c q src_ip dst_ip h1 })) h1

  -- `ip_output_if_src`, and `pbuf_free` of a buffer for the header alone
  pub put_out : Pcb → (p q : Ptr) → (src_ip dst_ip : ℕ) → Netif → Cmd (Core b A) ErrT
  put_out c p q src_ip dst_ip netif s =
      let proto = if c.udplite then proto_udplite else proto_udp in
      elim (ip4_output_if_src b lwip netif_output q src_ip (some dst_ip) c.ttl c.tos proto netif
        s) [ none ↦ none | some (err, s1) ↦ some (err, if q == p then s1 else freed b q s1) ]

  -- `udp_sendto_if_src_port`, once the port is known
  pub send_from :
      (pcb p : Ptr) → (dst_ip dst_port src_ip src_port : ℕ) → Netif → Cmd (Core b A) ErrT
  unfolding add_header write_header put_out
  send_from pcb p dst_ip dst_port src_ip src_port netif s =
      let total = tot_len b p s.heap in
      let (q, h1) = add_header p s.heap in
      if ltb (u16 (total + udp_hlen)) total
      then some (err_mem, s)
      else if q == null
      then some (err_mem, record s { heap = h1 })
      else if ltb (lwip.len q h1) udp_hlen
      then none
      else (do
        c ← on_table (load pcb)
        λ s1.
            put_out c p q src_ip dst_ip netif
              (record s1 { heap = write_header c q src_ip src_port dst_ip dst_port s1.heap }))
          (record s { heap = h1 })

  -- `udp_sendto_if_src_port`
  pub udp_sendto_if_src_port :
      (pcb p : Ptr)
      → (dst_ip dst_port : ℕ) → Option Netif
      → (src_ip src_port : ℕ) → Cmd (Core b A) ErrT
  unfolding source_port send_from
  udp_sendto_if_src_port pcb p dst_ip dst_port none src_ip src_port s = none
  udp_sendto_if_src_port pcb p dst_ip dst_port (some netif) src_ip src_port s =
      if pcb == null || p == null then none else elim (source_port pcb src_port s) [
        | none ↦ none
        | some ((err, port), s1) ↦
            if is_ok err
            then send_from pcb p dst_ip dst_port src_ip port netif s1
            else some (err, s1)
      ]

  -- `udp_sendto_if_src`
  pub udp_sendto_if_src :
      (pcb p : Ptr) → (dst_ip dst_port : ℕ) → Option Netif → (src_ip : ℕ) → Cmd (Core b A) ErrT
  unfolding udp_sendto_if_src_port
  udp_sendto_if_src pcb p dst_ip dst_port netif src_ip = do
    c ← on_table (load pcb)
    udp_sendto_if_src_port pcb p dst_ip dst_port netif src_ip c.local_port

  -- `udp_sendto_if`
  pub udp_sendto_if : (pcb p : Ptr) → (dst_ip dst_port : ℕ) → Option Netif → Cmd (Core b A) ErrT
  unfolding udp_sendto_if_src
  udp_sendto_if pcb p dst_ip dst_port none s = none
  udp_sendto_if pcb p dst_ip dst_port (some netif) s =
      if pcb == null || p == null
      then none
      else (do
        c ← on_table (load pcb)
        if c.local_ip == addr_any || ismulticast c.local_ip
            then udp_sendto_if_src pcb p dst_ip dst_port (some netif) netif.ip_addr
            else if not (c.local_ip == netif.ip_addr)
            then pure err_rte
            else udp_sendto_if_src pcb p dst_ip dst_port (some netif) c.local_ip)
          s

  -- `udp_sendto`
  pub udp_sendto : Option Netif → (pcb p : Ptr) → (dst_ip dst_port : ℕ) → Cmd (Core b A) ErrT
  unfolding udp_sendto_if
  udp_sendto netif_default pcb p dst_ip dst_port =
      if pcb == null || p == null then (λ s. none) else (do
        c ← on_table (load pcb)
        elim (if c.netif_idx == no_index
            then ip4_route netif_default dst_ip
            else netif_get_by_index netif_default c.netif_idx) [
              | none ↦ pure err_rte
              | some netif ↦ udp_sendto_if pcb p dst_ip dst_port (some netif)
            ])

  -- `udp_send`
  pub udp_send : Option Netif → (pcb p : Ptr) → Cmd (Core b A) ErrT
  unfolding udp_sendto
  udp_send netif_default pcb p =
      if pcb == null || p == null
      then (λ s. none)
      else (do c ← on_table (load pcb); udp_sendto netif_default pcb p c.remote_ip c.remote_port)
