-- ===== src/TcpDemux/Header/Options.antt =====
-- The checks of `tcp_input`: which segments pass, and what is read of those that do, whether their options
-- lie in one buffer or in two.
use tun2socket_lwip.Prelude.{
  ℕ, ◌+◌, ◌-◌, ◌^◌, ◌<◌, ◌≤◌, ◌≡◌, ◌≢◌, inl, inr, ap, sym, ◌∙◌, Bool, not, ◌||◌, none, some, List,
  ◌++◌, ltb, if◌then◌else◌, length, length-drop, subst, take, drop, drop-drop, take-append-take,
  arith, Bool-cases,
}
use tun2socket_lwip.Lwip.{Ptr, null, u16, Pbufs, tot_len}
use tun2socket_lwip.Ip4.{Core, Calls, freed}
use tun2socket_lwip.TcpDemux.Header.Chain.{ChainLaws, IsCounted}
use tun2socket_lwip.TcpDemux.Header.{
  tcp_hlen, TcpHdr, takes_number, TcpInput, Chains, count_len, split_options,
}

module _ (b : Pbufs) {A : Type 0} (lwip : Calls b A) (chains : Chains b) (p : Ptr) where
  -- what a segment of these options leaves, in a state whose bytes are the data
  abbrev passed : TcpHdr → (opt1 opt2 : List ℕ) → Core b A → TcpInput
  passed hdr opt1 opt2 s = record {
    hdr = hdr;
    opt1 = opt1;
    opt2 = opt2;
    tcplen = chains.tot p s.heap + (if takes_number hdr.flags then 1 else 0);
  }

  -- With a SYN or a FIN the length still fits in 16 bits.
  abbrev pub counts : ℕ → ℕ → Bool
  counts flags n = not (takes_number flags) || ltb (n + 1) (2 ^ 16)

  pub count_len_lem :
      (hdr : TcpHdr) (opt1 opt2 : List ℕ) (s : Core b A)
      → chains.tot p s.heap < 2 ^ 16
      → count_len b lwip chains p hdr opt1 opt2 s
        ≡ some (
            if counts hdr.flags (chains.tot p s.heap)
            then (some (passed hdr opt1 opt2 s), s)
            else (none, freed b p s))
  unfolding count_len
  count_len_lem hdr opt1 opt2 s fits = elim (Bool-cases (takes_number hdr.flags)) [
    | inl yes_ ↦ ground (arith, yes_)
    | inr no_ ↦ ground (arith, no_)
  ]

  module _ (chain : ChainLaws b lwip chains) (hdr : TcpHdr) (s : Core b A)
      (first : tcp_hlen ≤ lwip.len p s.heap) (beyond : lwip.len p s.heap < hdr.hdrlen)
      (within : hdr.hdrlen ≤ tot_len b p s.heap) (short : tot_len b p s.heap < 2 ^ 16)
      (whole : IsCounted b chains p s.heap) where
    abbrev q : Ptr
    q = chains.next p s.heap

    -- the heap without the header, and then without the options of the first buffer
    abbrev pub h1 : b.Heap
    h1 = (b.pbuf_remove_header p tcp_hlen s.heap).1

    abbrev pub h2 : b.Heap
    h2 = (b.pbuf_remove_header p (lwip.len p h1) h1).1

    q-set : q ≢ null
    q-set = chain.next_set p s.heap (omega (arith, beyond, within))

    len-h1 : lwip.len p h1 ≡ lwip.len p s.heap - tcp_hlen
    len-h1 = chain.remove_len p tcp_hlen s.heap first

    bytes-h1 : b.payload p h1 ≡ drop tcp_hlen (b.payload p s.heap)
    bytes-h1 = chain.remove_bytes p tcp_hlen s.heap (chain.remove_ok p tcp_hlen s.heap first)

    next-h1 : chains.next p h1 ≡ q
    next-h1 = chain.remove_next p tcp_hlen s.heap

    len-h2 : lwip.len p h2 ≡ 0
    len-h2 = omega (arith, chain.remove_len p (lwip.len p h1) h1 (omega arith))

    bytes-h2 : b.payload p h2 ≡ drop (lwip.len p h1) (drop tcp_hlen (b.payload p s.heap))
    bytes-h2 =
        chain.remove_bytes p (lwip.len p h1) h1 (chain.remove_ok p (lwip.len p h1) h1 (omega arith))
        ∙ ap (drop (lwip.len p h1)) bytes-h1

    next-h2 : chains.next p h2 ≡ q
    next-h2 = chain.remove_next p (lwip.len p h1) h1 ∙ next-h1

    bytes-q : b.payload q h2 ≡ b.payload p h2
    bytes-q =
        ap (λ r. b.payload r h2) (sym next-h2)
        ∙ sym (chain.next_bytes p h2 (λ e. q-set (sym next-h2 ∙ e)))
        ∙ ap (λ n. drop n (b.payload p h2)) len-h2

    abbrev pub opt2len : ℕ
    opt2len = u16 (hdr.hdrlen - tcp_hlen + 2 ^ 16 - lwip.len p h1)

    pub opt2len-eq : opt2len ≡ hdr.hdrlen - lwip.len p s.heap
    opt2len-eq = omega (arith, len-h1, first, beyond, within, short)

    pub len-q : lwip.len q h2 ≡ lwip.len q s.heap
    len-q =
        ap (λ r. lwip.len r h2) (sym next-h1)
        ∙ chain.remove_next_len p (lwip.len p h1) h1 (λ e. q-set (sym next-h1 ∙ e))
        ∙ ap (λ r. lwip.len r h1) next-h1
        ∙ chain.remove_next_len p tcp_hlen s.heap q-set

    tot-h2 : chains.tot p h2 ≡ tot_len b p s.heap - lwip.len p s.heap
    tot-h2 = omega (
      arith,
      chain.remove_tot p (lwip.len p h1) h1,
      chain.remove_tot p tcp_hlen s.heap first,
      len-h1,
      whole.tot_eq,
      first,
    )

    next_tot-h2 : chains.tot q h2 ≡ tot_len b p s.heap - lwip.len p s.heap
    next_tot-h2 =
        ap (λ r. chains.tot r h2) (sym next-h1)
        ∙ chain.remove_next_tot p (lwip.len p h1) h1 (λ e. q-set (sym next-h1 ∙ e))
        ∙ ap (λ r. chains.tot r h1) next-h1
        ∙ chain.remove_next_tot p tcp_hlen s.heap q-set
        ∙ whole.next_eq q-set
        ∙ ap length (sym (chain.next_bytes p s.heap q-set))
        ∙ length-drop (lwip.len p s.heap) (b.payload p s.heap)

    -- the heap once the next buffer starts behind the options
    module _ (fits : opt2len ≤ lwip.len q h2) where
      abbrev h3 : b.Heap
      h3 = (b.pbuf_remove_header q opt2len h2).1

      abbrev pub h4 : b.Heap
      h4 = chains.set_tot_len p (u16 (chains.tot p h2 + 2 ^ 16 - opt2len)) h3

      behind : (lwip.len p h3 ≡ 0) × (chains.next p h3 ≡ q) × (chains.tot p h3 ≡ chains.tot p h2)
      behind =
          let r = chain.remove_behind p opt2len h2 (λ e. q-set (sym next-h2 ∙ e)) in
          (
            ap (λ a. lwip.len p (b.pbuf_remove_header a opt2len h2).1) (sym next-h2) ∙ r.0 ∙ len-h2,
            ap (λ a. chains.next p (b.pbuf_remove_header a opt2len h2).1) (sym next-h2)
                ∙ r.1
                ∙ next-h2,
            ap (λ a. chains.tot p (b.pbuf_remove_header a opt2len h2).1) (sym next-h2) ∙ r.2,
          )

      bytes-q-h4 : b.payload q h4 ≡ drop opt2len (b.payload p h2)
      bytes-q-h4 =
          chain.set_bytes p q _ h3
          ∙ chain.remove_bytes q opt2len h2 (chain.remove_ok q opt2len h2 fits)
          ∙ ap (drop opt2len) bytes-q

      bytes-p-h4 : b.payload p h4 ≡ b.payload q h4
      bytes-p-h4 =
          chain.set_bytes p p _ h3
          ∙ ap (λ n. drop n (b.payload p h3)) (sym behind.0)
          ∙ chain.next_bytes p h3 (λ e. q-set (sym behind.1 ∙ e))
          ∙ ap (λ r. b.payload r h3) behind.1
          ∙ sym (chain.set_bytes p q _ h3)

      len-h4 : lwip.len p h4 ≡ 0
      len-h4 = chain.set_len p p _ h3 ∙ behind.0

      -- `tot_len` of the first buffer is cut by the options of the next, as that of the next is.
      tot-h4 : chains.tot p h4 ≡ tot_len b p s.heap - hdr.hdrlen
      tot-h4 =
          let set =
            (chain.set_tot p (u16 (chains.tot p h2 + 2 ^ 16 - opt2len)) h3
              (λ e. q-set (sym behind.1 ∙ e))).0 in
          omega (arith, set, tot-h2, opt2len-eq, beyond, within, short)

      next_tot-h4 : chains.tot q h4 ≡ tot_len b p s.heap - hdr.hdrlen
      next_tot-h4 =
          let kept =
            (chain.set_tot p (u16 (chains.tot p h2 + 2 ^ 16 - opt2len)) h3
              (λ e. q-set (sym behind.1 ∙ e))).1 in
          let moved : chains.tot q h4 ≡ chains.tot q h3 =
            subst (λ r. chains.tot r h4 ≡ chains.tot r h3) behind.1 kept in
          omega (
            arith,
            moved,
            chain.remove_tot q opt2len h2 fits,
            next_tot-h2,
            opt2len-eq,
            beyond,
            within,
          )

      -- the data, and the options in two pieces
      pub data-h4 : b.payload p h4 ≡ drop hdr.hdrlen (b.payload p s.heap)
      data-h4 =
          let bs = b.payload p s.heap in
          bytes-p-h4
          ∙ bytes-q-h4
          ∙ ap (drop opt2len) bytes-h2
          ∙ drop-drop (lwip.len p h1) opt2len (drop tcp_hlen bs)
          ∙ drop-drop tcp_hlen (lwip.len p h1 + opt2len) bs
          ∙ ap (λ n. drop n bs) {x = tcp_hlen + (lwip.len p h1 + opt2len)}
              (omega (arith, len-h1, opt2len-eq, first, beyond))

      pub counted-h4 : chains.tot p h4 ≡ tot_len b p h4
      counted-h4 =
          omega (arith, tot-h4, ap length data-h4, length-drop hdr.hdrlen (b.payload p s.heap))

      pub options-h4 :
          take (lwip.len p h1) (b.payload p h1) ++ take opt2len (b.payload q h2)
          ≡ take (hdr.hdrlen - tcp_hlen) (drop tcp_hlen (b.payload p s.heap))
      options-h4 =
          let bs = drop tcp_hlen (b.payload p s.heap) in
          ap (λ xs. take (lwip.len p h1) (b.payload p h1) ++ take opt2len xs) (bytes-q ∙ bytes-h2)
          ∙ ap (λ xs. take (lwip.len p h1) xs ++ take opt2len (drop (lwip.len p h1) bs)) bytes-h1
          ∙ take-append-take (lwip.len p h1) opt2len bs
          ∙ ap (λ n. take n bs) {x = lwip.len p h1 + opt2len}
              (omega (arith, len-h1, opt2len-eq, first, beyond))

      pub split_options-fit :
          split_options b lwip chains p hdr s
          ≡ count_len b lwip chains p hdr
              (take (lwip.len p h1) (b.payload p h1))
              (take opt2len (b.payload q h2))
              (record s { heap = h4 })
      unfolding split_options
      split_options-fit =
          let same : chains.tot p h4 ≡ chains.tot q h4 = tot-h4 ∙ sym next_tot-h4 in
          let set = q-set in let empty = len-h4 in ground (arith, set, fits, empty, same)

    pub split_options-long :
        lwip.len q h2 < opt2len
        → split_options b lwip chains p hdr s ≡ some (none, freed b p (record s { heap = h2 }))
    unfolding split_options
    split_options-long long = let set = q-set in ground (arith, set, long)
