-- ===== src/TcpDemux/Header.antt =====
-- lwip/core/tcp_in.c: the checks of `tcp_input`, before its searches. CHECKSUM_CHECK_TCP is 0 in
-- lwip/include/lwipopts.h, so there is no test of the checksum. The options of a segment may go on in
-- the second buffer of its chain. `none` is a failed assertion or an access to NULL, which aborts.
pub mod Chain
pub mod Options
pub mod Checks
mod Tests
use tun2socket_lwip.Prelude.{
  ℕ, ◌+◌, ◌-◌, ◌*◌, ◌/◌, ◌%◌, ◌^◌, Bool, true, false, not, ◌&&◌, ◌||◌, Option, none, some, List, [],
  ◌∷◌, ◌++◌, ◌==◌, ltb, if◌then◌else◌, get_or, take, drop, Cmd,
}
use tun2socket_lwip.Lwip.{Ptr, null, u16, Pbufs}
use tun2socket_lwip.Ip4.{Core, Calls, freed, be16, isbroadcast, ismulticast}

-- `lwip_ntohl` of the four bytes at an index
abbrev pub be32 : List ℕ → ℕ → ℕ
be32 bs i = be16 bs i * 2 ^ 16 + be16 bs (i + 2)

-- TCP_HLEN
abbrev pub tcp_hlen : ℕ
tcp_hlen = 20

-- `struct tcp_hdr` in host byte order, with TCPH_HDRLEN_BYTES and TCPH_FLAGS
pub record TcpHdr : Type 0 where
  pub src : ℕ
  pub dest : ℕ
  pub seqno : ℕ
  pub ackno : ℕ
  pub hdrlen : ℕ
  pub flags : ℕ
  pub wnd : ℕ

unfoldable pub parse_tcp : List ℕ → TcpHdr
parse_tcp bs = record {
  src = be16 bs 0;
  dest = be16 bs 2;
  seqno = be32 bs 4;
  ackno = be32 bs 8;
  hdrlen = get_or bs 12 0 / 2 ^ 4 * 4;
  flags = get_or bs 13 0 % 2 ^ 6;
  wnd = be16 bs 14;
}

-- TCP_FIN, TCP_SYN, TCP_RST and TCP_ACK, and the test `flags & bit`
abbrev pub tcp_fin : ℕ
tcp_fin = 1

abbrev pub tcp_syn : ℕ
tcp_syn = 2

abbrev pub tcp_rst : ℕ
tcp_rst = 4

abbrev pub tcp_ack : ℕ
tcp_ack = 16

abbrev pub has_flag : ℕ → ℕ → Bool
has_flag flags bit = flags / bit % 2 == 1

-- `flags & (TCP_FIN | TCP_SYN)`
abbrev pub takes_number : ℕ → Bool
takes_number flags = has_flag flags tcp_fin || has_flag flags tcp_syn

-- What the checks leave in the static variables: the header, the options in the first buffer, which are
-- `tcphdr_opt1len` bytes, those at `tcphdr_opt2`, and `tcplen`.
pub record TcpInput : Type 0 where
  pub hdr : TcpHdr
  pub opt1 : List ℕ
  pub opt2 : List ℕ
  pub tcplen : ℕ

-- `p->next`, `p->tot_len` and the assignment to it
pub record Chains (b : Pbufs) : Type 0 where
  pub next : Ptr → b.Heap → Ptr
  pub tot : Ptr → b.Heap → ℕ
  pub set_tot_len : Ptr → ℕ → b.Heap → b.Heap

module _ (b : Pbufs) {A : Type 0} (lwip : Calls b A) (chains : Chains b) where
  -- a segment that is dropped
  abbrev pub dropped : Ptr → Cmd (Core b A) (Option TcpInput)
  dropped p s = some (none, freed b p s)

  -- `tcplen`, at the end of the checks
  pub count_len : Ptr → TcpHdr → (opt1 opt2 : List ℕ) → Cmd (Core b A) (Option TcpInput)
  count_len p hdr opt1 opt2 s =
      let total = chains.tot p s.heap in
      let tcplen = if takes_number hdr.flags then u16 (total + 1) else total in
      if takes_number hdr.flags && ltb tcplen total
      then dropped p s
      else some (some (record { hdr = hdr; opt1 = opt1; opt2 = opt2; tcplen = tcplen }), s)

  -- the options go on in the next buffer
  pub split_options : Ptr → TcpHdr → Cmd (Core b A) (Option TcpInput)
  unfolding count_len
  split_options p hdr s =
      let q = chains.next p s.heap in
      let optlen = hdr.hdrlen - tcp_hlen in
      let h1 = (b.pbuf_remove_header p tcp_hlen s.heap).1 in
      let opt1len = lwip.len p h1 in
      let opt1 = take opt1len (b.payload p h1) in
      let opt2len = u16 (optlen + 2 ^ 16 - opt1len) in
      let h2 = (b.pbuf_remove_header p opt1len h1).1 in
      let opt2 = take opt2len (b.payload q h2) in
      let h3 = (b.pbuf_remove_header q opt2len h2).1 in
      let h4 = chains.set_tot_len p (u16 (chains.tot p h2 + 2 ^ 16 - opt2len)) h3 in
      if q == null
      then none
      else if ltb (lwip.len q h2) opt2len
      then dropped p (record s { heap = h2 })
      else if not (lwip.len p h4 == 0) || not (chains.tot p h4 == chains.tot q h4)
      then none
      else count_len p hdr opt1 opt2 (record s { heap = h4 })

  -- `tcp_input`, up to its searches
  pub tcp_check : Ptr → Cmd (Core b A) (Option TcpInput)
  unfolding split_options count_len
  tcp_check p s =
      let bytes = b.payload p s.heap in
      let hdr = parse_tcp bytes in
      let dest = s.ip_data.current_iphdr_dest in
      let optlen = hdr.hdrlen - tcp_hlen in
      let whole = record s { heap = (b.pbuf_remove_header p (hdr.hdrlen) s.heap).1 } in
      if p == null
      then none
      else if ltb (lwip.len p s.heap) tcp_hlen
      then dropped p s
      else elim (s.ip_data.current_netif) [
        | none ↦ none
        | some netif ↦
            if isbroadcast dest netif || ismulticast dest
            then dropped p s
            else if ltb (hdr.hdrlen) tcp_hlen || ltb (chains.tot p s.heap) (hdr.hdrlen)
            then dropped p s
            else if not (ltb (lwip.len p s.heap) (hdr.hdrlen))
            then count_len p hdr (take optlen (drop tcp_hlen bytes)) [] whole
            else split_options p hdr s
      ]
