-- ===== src/TcpDemux/Header/Checks.antt =====
-- `tcp_check`: which segments pass, and what is read of them.
use tun2socket_lwip.Prelude.{
  ℕ, ◌+◌, ◌-◌, ◌^◌, ◌<◌, ◌≤◌, ◌≡◌, ◌≢◌, ◌⊎◌, inl, inr, ap, ◌∙◌, Bool, true, false, not, ◌&&◌, ◌||◌,
  Option, none, some, List, [], ◌++◌, leb, if◌then◌else◌, length, take, drop, append-nil,
  length-drop, arith, Bool-cases,
}
use tun2socket_lwip.Lwip.{Ptr, null, Pbufs, tot_len}
use tun2socket_lwip.Interface.{Netif}
use tun2socket_lwip.Ip4.{Core, Calls, freed, isbroadcast, ismulticast}
use tun2socket_lwip.TcpDemux.Header.{
  tcp_hlen, TcpHdr, parse_tcp, takes_number, TcpInput, Chains, count_len, split_options, tcp_check,
}
use tun2socket_lwip.TcpDemux.Header.Chain.{ChainLaws, IsCounted}
use tun2socket_lwip.TcpDemux.Header.Options.{
  counts, count_len_lem, h1, h2, h4, opt2len, opt2len-eq, len-q, options-h4, data-h4, counted-h4,
  split_options-fit, split_options-long,
}

module _ (b : Pbufs) {A : Type 0} (lwip : Calls b A) (chains : Chains b) (p : Ptr) (netif : Netif)
    (s : Core b A) where
  abbrev pub segment_bytes : List ℕ
  segment_bytes = b.payload p s.heap

  abbrev pub hdr : TcpHdr
  hdr = parse_tcp segment_bytes

  -- what follows the header and its options
  abbrev pub data_bytes : List ℕ
  data_bytes = drop (hdr.hdrlen) segment_bytes

  abbrev len : ℕ
  len = lwip.len p s.heap

  -- `p->next->len`
  abbrev next_len : ℕ
  next_len = lwip.len (chains.next p s.heap) s.heap

  -- a whole header, for one host, whose length lies between 20 and that of the segment
  abbrev is_header : Bool
  is_header =
      leb tcp_hlen len
      && not (isbroadcast s.ip_data.current_iphdr_dest netif)
      && not (ismulticast s.ip_data.current_iphdr_dest)
      && leb tcp_hlen (hdr.hdrlen)
      && leb (hdr.hdrlen) (tot_len b p s.heap)

  -- The options end in the first two buffers, and the length fits in 16 bits.
  abbrev pub is_acceptable : Bool
  is_acceptable =
      is_header
      && (leb (hdr.hdrlen) len || leb (hdr.hdrlen) (len + next_len))
      && counts b lwip chains p (hdr.flags) (length data_bytes)

  -- what the checks read of a segment with these options
  abbrev pub read : (opt1 opt2 : List ℕ) → TcpInput
  read opt1 opt2 = record {
    hdr = hdr;
    opt1 = opt1;
    opt2 = opt2;
    tcplen = length data_bytes + (if takes_number (hdr.flags) then 1 else 0);
  }

  abbrev pub checked : Option (Option TcpInput × Core b A)
  checked = tcp_check b lwip chains p s

  abbrev pub Passes : Type 0
  Passes =
      (h : b.Heap) × (opt1 : List ℕ) × (opt2 : List ℕ) × (checked
        ≡ some (some (read opt1 opt2), record s { heap = h }))
      × (b.payload p h ≡ data_bytes)
      × (chains.tot p h ≡ length data_bytes)
      × (opt1 ++ opt2 ≡ take (hdr.hdrlen - tcp_hlen) (drop tcp_hlen segment_bytes))

  abbrev pub Drops : Type 0
  Drops = (h : b.Heap) × (checked ≡ some (none, freed b p (record s { heap = h })))

  -- the end of the checks
  counted :
      (h : b.Heap) (opt1 opt2 : List ℕ)
      → tot_len b p s.heap < 2 ^ 16
      → checked ≡ count_len b lwip chains p hdr opt1 opt2 (record s { heap = h })
      → b.payload p h ≡ data_bytes
      → chains.tot p h ≡ tot_len b p h
      → opt1 ++ opt2 ≡ take (hdr.hdrlen - tcp_hlen) (drop tcp_hlen segment_bytes)
      → is_acceptable ≡ counts b lwip chains p (hdr.flags) (length data_bytes)
      → ((is_acceptable ≡ true) × Passes) ⊎ ((is_acceptable ≡ false) × Drops)
  counted h opt1 opt2 short e data_eq tot_eq options_eq same =
      let total : chains.tot p h ≡ length data_bytes = tot_eq ∙ ap length data_eq in
      let out =
        count_len_lem b lwip chains p hdr opt1 opt2 (record s { heap = h })
          (omega (arith, total, length-drop (hdr.hdrlen) segment_bytes, short)) in
      elim (Bool-cases (counts b lwip chains p (hdr.flags) (length data_bytes))) [
        | inl good ↦ inl (
          same ∙ good,
          (h, opt1, opt2, ground (arith, e, out, total, good), data_eq, total, options_eq),
        )
        | inr bad ↦ inr (same ∙ bad, (h, ground (arith, e, out, total, bad)))
      ]

  module _ (chain : ChainLaws b lwip chains) (some_p : p ≢ null)
      (set : s.ip_data.current_netif ≡ some netif) (short : tot_len b p s.heap < 2 ^ 16)
      (whole : IsCounted b chains p s.heap) where
    tcp_check-bad : is_header ≡ false → checked ≡ some (none, freed b p s)
    unfolding tcp_check
    tcp_check-bad bad = let tot = whole.tot_eq in ground (arith, some_p, set, tot, bad)

    tcp_check-one :
        is_header ≡ true
        → leb (hdr.hdrlen) len ≡ true
        → checked
          ≡ count_len b lwip chains p hdr
              (take (hdr.hdrlen - tcp_hlen) (drop tcp_hlen segment_bytes))
              []
              (record s { heap = (b.pbuf_remove_header p (hdr.hdrlen) s.heap).1 })
    unfolding tcp_check
    tcp_check-one good one = let tot = whole.tot_eq in ground (arith, some_p, set, tot, good, one)

    tcp_check-two :
        is_header ≡ true
        → leb (hdr.hdrlen) len ≡ false
        → checked ≡ split_options b lwip chains p hdr s
    unfolding tcp_check
    tcp_check-two good more = let tot = whole.tot_eq in ground (arith, some_p, set, tot, good, more)

    one-tot :
        leb (hdr.hdrlen) len ≡ true
        → let h = (b.pbuf_remove_header p (hdr.hdrlen) s.heap).1 in chains.tot p h ≡ tot_len b p h
    one-tot one =
        let fits : hdr.hdrlen ≤ len = ground (arith, one) in
        omega (
          arith,
          chain.remove_tot p (hdr.hdrlen) s.heap fits,
          whole.tot_eq,
          ap length (
              chain.remove_bytes p (hdr.hdrlen) s.heap
                (chain.remove_ok p (hdr.hdrlen) s.heap fits)),
          length-drop (hdr.hdrlen) segment_bytes,
        )

    whole-case :
        is_header ≡ true
        → leb (hdr.hdrlen) len ≡ true
        → ((is_acceptable ≡ true) × Passes) ⊎ ((is_acceptable ≡ false) × Drops)
    whole-case good one =
        counted (b.pbuf_remove_header p (hdr.hdrlen) s.heap).1
          (take (hdr.hdrlen - tcp_hlen) (drop tcp_hlen segment_bytes)) [] short
          (tcp_check-one good one)
          (chain.remove_bytes p (hdr.hdrlen) s.heap
            (chain.remove_ok p (hdr.hdrlen) s.heap (ground (arith, one))))
          (one-tot one) (append-nil _) (ground (arith, good, one))

    module _ (good : is_header ≡ true) (more : leb (hdr.hdrlen) len ≡ false) where
      first_le : tcp_hlen ≤ len
      first_le = ground (arith, good)

      beyond_lt : len < hdr.hdrlen
      beyond_lt = ground (arith, more)

      within_le : hdr.hdrlen ≤ tot_len b p s.heap
      within_le = ground (arith, good)

      split-case : ((is_acceptable ≡ true) × Passes) ⊎ ((is_acceptable ≡ false) × Drops)
      split-case =
          let a = first_le in
          let c = beyond_lt in
          let d = within_le in
          let size = opt2len-eq b lwip chains p chain hdr s a c d short whole in
          let room = len-q b lwip chains p chain hdr s a c d short whole in
          elim (Bool-cases (leb (hdr.hdrlen) (len + next_len))) [
            | inl fit ↦
                let reach : hdr.hdrlen ≤ len + next_len = ground (arith, fit) in
                let fits : opt2len b lwip chains p chain hdr s a c d short whole
                    ≤ lwip.len (chains.next p s.heap)
                        (h2 b lwip chains p chain hdr s a c d short whole) =
                  omega (arith, size, room, reach) in
                counted (h4 b lwip chains p chain hdr s a c d short whole fits)
                  (take (lwip.len p (h1 b lwip chains p chain hdr s a c d short whole))
                    (b.payload p (h1 b lwip chains p chain hdr s a c d short whole)))
                  (take (opt2len b lwip chains p chain hdr s a c d short whole) (
                    b.payload (chains.next p s.heap)
                      (h2 b lwip chains p chain hdr s a c d short whole)))
                  short
                  (tcp_check-two good more
                    ∙ split_options-fit b lwip chains p chain hdr s a c d short whole fits)
                  (data-h4 b lwip chains p chain hdr s a c d short whole fits)
                  (counted-h4 b lwip chains p chain hdr s a c d short whole fits)
                  (options-h4 b lwip chains p chain hdr s a c d short whole fits)
                  (ground (arith, good, fit))
            | inr long ↦
                let reach : len + next_len < hdr.hdrlen = ground (arith, long) in
                inr (
                  ground (arith, more, long),
                  (
                    h2 b lwip chains p chain hdr s a c d short whole,
                    tcp_check-two good more
                        ∙ split_options-long b lwip chains p chain hdr s a c d short whole
                            (omega (arith, size, room, reach)),
                  ),
                )
          ]

    -- With an interface in `ip_data`, and a `tot_len` in the first two buffers that is the number of bytes
    -- from there on, `tcp_input` lets a segment below 65536 bytes on to its
    -- searches exactly when its first buffer has 20 bytes, its destination is one host, its header
    -- is at least 20 bytes and not longer than the segment, the options end in the first two
    -- buffers, and the length with that of SYN or FIN fits in 16 bits. Of those it reads the
    -- header; the options, in one piece or in two, are the bytes between the header and the data;
    -- and the buffer holds the data alone, of which its `tot_len` is the length. Every other segment is freed, and nothing but the
    -- buffers changes. No assertion fails on the way.
    pub tcp_check_lem : ((is_acceptable ≡ true) × Passes) ⊎ ((is_acceptable ≡ false) × Drops)
    tcp_check_lem = elim (Bool-cases is_header) [
      | inr bad ↦ inr (ground (arith, bad), (s.heap, tcp_check-bad bad))
      | inl good ↦ elim (Bool-cases (leb (hdr.hdrlen) len)) [
        | inl one ↦ whole-case good one
        | inr more ↦ split-case good more
      ]
    ]
