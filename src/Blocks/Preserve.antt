-- ===== src/Blocks/Preserve.antt =====
-- Every operation on control blocks keeps the invariant of the table.
use tun2socket_lwip.Prelude.{
  ◌≡◌, ◌≢◌, ◌∙◌, true, false, none, some, arith, ◌==◌, inl, inr, Bool-cases,
}
use tun2socket_lwip.Lwip.{Ptr, null}
use tun2socket_lwip.Demux.{Pcb}
use tun2socket_lwip.Blocks.{Table, put, on_list, unlink}
use tun2socket_lwip.Blocks.Bind.{listed}
use tun2socket_lwip.Blocks.Invariant.{
  IsTable, overlap, on_list-activated, Once-activated, on_list-unlink, Once-unlink,
}

-- what an operation leaves of the local ends of a block
abbrev pub SameLocal : Pcb → Pcb → Type 0
SameLocal c c' = (c'.self ≡ c.self) × (c'.local_ip ≡ c.local_ip) × (c'.local_port ≡ c.local_port)

overlap_comm : (c d : Pcb) → overlap c d.local_ip d.local_port ≡ overlap d c.local_ip c.local_port
overlap_comm c d = ground arith

module _ (t : Table) (ok : IsTable t) (p : Ptr) (c' : Pcb) where
  -- A block that is written and put on the list, where its local end is clear of the others.
  pub listed-IsTable :
      p ≢ null
      → c'.self ≡ p
      → c'.local_port ≢ 0
      → ((q : Ptr) (d : Pcb)
          → on_list q t.udp_pcbs ≡ true
          → t.pcbs q ≡ some d
          → q ≢ p
          → overlap d c'.local_ip c'.local_port ≡ false)
      → IsTable (listed t p c')
  listed-IsTable ne is_p some_port clear = record {
    null_free = ground (arith, ok.null_free);
    self_eq = λ q d e. ground (arith, ok.self_eq q d);
    live = λ q on. elim (Bool-cases (p == q)) [
      | inl same ↦ (c', ground arith, some_port)
      | inr other ↦
          let old = ok.live q (ground (arith, on_list-activated p q t.udp_pcbs)) in
          (old.0, ground arith, old.2)
    ];
    has_port = λ q d e. elim (Bool-cases (p == q)) [
      | inl same ↦ inl (ground (arith, on_list-activated p q t.udp_pcbs))
      | inr other ↦ ground (arith, ok.has_port q d (ground arith), on_list-activated p q t.udp_pcbs)
    ];
    once = Once-activated p t.udp_pcbs ok.once;
    port_ok = ok.port_ok;
    apart = λ q r d e on_q on_r ne' at_q at_r. elim (Bool-cases (p == q)) [
      | inl is_q ↦
          let is_d : c' ≡ d = ground arith in
          let old_r : on_list r t.udp_pcbs ≡ true =
            ground (arith, on_list-activated p r t.udp_pcbs) in
          let at_r' : t.pcbs r ≡ some e = ground arith in
          rw (← is_d) (overlap_comm c' e ∙ clear r e old_r at_r' (ground arith))
      | inr not_q ↦
          let old_q : on_list q t.udp_pcbs ≡ true =
            ground (arith, on_list-activated p q t.udp_pcbs) in
          let at_q' : t.pcbs q ≡ some d = ground arith in
          elim (Bool-cases (p == r)) [
            | inl is_r ↦
                let is_e : c' ≡ e = ground arith in
                rw (← is_e) (clear q d old_q at_q' (ground arith))
            | inr not_r ↦
                let old_r : on_list r t.udp_pcbs ≡ true =
                  ground (arith, on_list-activated p r t.udp_pcbs) in
                ok.apart q r d e old_q old_r ne' at_q' (ground arith)
          ]
    ];
  }

  -- A block that is written with its local end as it was, on the list or not.
  pub kept-IsTable :
      {c : Pcb}
      → t.pcbs p ≡ some c
      → SameLocal c c'
      → IsTable (record t { pcbs = put t.pcbs p (some c') })
  kept-IsTable {c} at_p same = record {
    null_free = ground (arith, ok.null_free);
    self_eq = λ q d e. ground (arith, ok.self_eq q d, ok.self_eq p c);
    live = λ q on. elim (Bool-cases (p == q)) [
      | inl is_q ↦ (c', ground arith, ground (arith, ok.live q on))
      | inr other ↦ let old = ok.live q on in (old.0, ground arith, old.2)
    ];
    has_port = λ q d e. ground (arith, ok.has_port q d, ok.has_port q c);
    once = ok.once;
    port_ok = ok.port_ok;
    apart = λ q r d e on_q on_r ne' at_q at_r. elim (Bool-cases (p == q)) [
      | inl is_q ↦
          let is_d : c' ≡ d = ground arith in
          let old = ok.apart q r c e on_q on_r ne' (ground arith) (ground arith) in
          rw (← is_d) (ground (arith, old))
      | inr not_q ↦ elim (Bool-cases (p == r)) [
        | inl is_r ↦
            let is_e : c' ≡ e = ground arith in
            let old = ok.apart q r d c on_q on_r ne' (ground arith) (ground arith) in
            rw (← is_e) (ground (arith, old))
        | inr not_r ↦ ok.apart q r d e on_q on_r ne' (ground arith) (ground arith)
      ]
    ];
  }

  -- A block that was not allocated.
  pub fresh-IsTable :
      p ≢ null
      → t.pcbs p ≡ none
      → c'.self ≡ p
      → c'.local_port ≡ 0
      → IsTable (record t { pcbs = put t.pcbs p (some c') })
  fresh-IsTable ne gone is_p no_port = record {
    null_free = ground (arith, ok.null_free);
    self_eq = λ q d e. ground (arith, ok.self_eq q d);
    live = λ q on.
        let old = ok.live q on in
        let other : (p == q) ≡ false = ground arith in (old.0, ground arith, old.2);
    has_port = λ q d e. ground (arith, ok.has_port q d);
    once = ok.once;
    port_ok = ok.port_ok;
    apart = λ q r d e on_q on_r ne' at_q at_r.
        let lq = ok.live q on_q in
        let lr = ok.live r on_r in ok.apart q r d e on_q on_r ne' (ground arith) (ground arith);
  }

module _ (t : Table) (ok : IsTable t) (p : Ptr) where
  -- A block that is taken off the list and freed.
  pub removed-IsTable :
      IsTable (record t { pcbs = put t.pcbs p none; udp_pcbs = unlink p t.udp_pcbs })
  removed-IsTable = record {
    null_free = ground (arith, ok.null_free);
    self_eq = λ q d e. ground (arith, ok.self_eq q d);
    live = λ q on.
        let off = on_list-unlink p q t.udp_pcbs ok.once in
        let old = ok.live q (ground (arith, off)) in (old.0, ground (arith, off), old.2);
    has_port = λ q d e. ground (arith, on_list-unlink p q t.udp_pcbs ok.once, ok.has_port q d);
    once = Once-unlink p t.udp_pcbs ok.once;
    port_ok = ok.port_ok;
    apart = λ q r d e on_q on_r ne' at_q at_r.
        let off_q = on_list-unlink p q t.udp_pcbs ok.once in
        let off_r = on_list-unlink p r t.udp_pcbs ok.once in
        ok.apart q r d e (ground (arith, off_q)) (ground (arith, off_r)) ne' (ground arith)
          (ground arith);
  }
