-- ===== src/Blocks/Operations.antt =====
-- Every operation on an allocated control block keeps the invariant.
use tun2socket_lwip.Prelude.{
  ℕ, zero, suc, ◌≡◌, ◌≢◌, refl, sym, ◌∙◌, ap, true, false, none, some, arith, ◌==◌, inl, inr,
  Bool-cases, one_outcome,
}
use tun2socket_lwip.Lwip.{Ptr, null, ErrT, err_ok, err_use}
use tun2socket_lwip.Demux.{Pcb, addr_any, no_index}
use tun2socket_lwip.Demux.Port.{InRange}
use tun2socket_lwip.Blocks.{
  Table, put, blocks, on_list, any_clash, udp_bind, set_remote, udp_connect, unlink, udp_remove,
  udp_recv, udp_disconnect, udp_bind_netif, udp_new, zero_pcb,
}
use tun2socket_lwip.Blocks.Bind.{
  bound, listed, set_remote_lem, udp_bind-port, udp_bind-free, BoundFree, udp_connect-bind,
  udp_connect-bound,
}
use tun2socket_lwip.Blocks.Invariant.{IsTable, any_clash-overlap, taken-local_port}
use tun2socket_lwip.Blocks.Preserve.{listed-IsTable, kept-IsTable, fresh-IsTable, removed-IsTable}

module _ (t : Table) (ok : IsTable t) where
  last-IsTable : (last : ℕ) → InRange last → IsTable (record t { udp_port = last })
  last-IsTable last range = record {
    null_free = ok.null_free;
    self_eq = ok.self_eq;
    live = ok.live;
    has_port = ok.has_port;
    once = ok.once;
    port_ok = range;
    apart = ok.apart;
  }

  module _ (p : Ptr) {c : Pcb} (at_p : t.pcbs p ≡ some c) where
    not_null : p ≢ null
    not_null e = ground (arith, ok.null_free, ap t.pcbs e)

    bind_free-IsTable :
        (ip last : ℕ) {r : ErrT} {t' : Table}
        → InRange last
        → BoundFree t p at_p ip last
        → udp_bind p ip 0 t ≡ some (r, t')
        → IsTable t'
    bind_free-IsTable ip last range (inl (done, free)) e = one_outcome IsTable done e (
        listed-IsTable (record t { udp_port = last }) (last-IsTable last range) p (bound c ip last)
          not_null (ok.self_eq p c at_p) (omega (arith, range))
          (λ q d on at_q ne.
            ground (arith, taken-local_port t.pcbs last t.udp_pcbs q d free on at_q)))
    bind_free-IsTable ip last range (inr (full, all)) e =
        one_outcome IsTable full e (last-IsTable last range)

    bind_port-IsTable :
        (ip port : ℕ) {r : ErrT} {t' : Table}
        → port ≢ 0
        → udp_bind p ip port t ≡ some (r, t')
        → IsTable t'
    bind_port-IsTable ip port some_port e =
        let out = udp_bind-port t p at_p ip port not_null some_port in
        elim (Bool-cases (any_clash p ip port (blocks t.pcbs t.udp_pcbs))) [
          | inl clash ↦
              let refused : udp_bind p ip port t ≡ some (err_use, t) = out ∙ rw clash in
              one_outcome IsTable refused e ok
          | inr clear ↦
              let done : udp_bind p ip port t ≡ some (err_ok, listed t p (bound c ip port)) =
                out ∙ rw clear in
              one_outcome IsTable done e (
                listed-IsTable t ok p (bound c ip port) not_null (ok.self_eq p c at_p) some_port
                  (λ q d on at_q ne.
                    any_clash-overlap t.pcbs p ip port t.udp_pcbs q d clear on at_q
                      (ok.self_eq q d at_q) ne))
        ]

    pub bind-IsTable :
        (ip port : ℕ) {r : ErrT} {t' : Table} → udp_bind p ip port t ≡ some (r, t') → IsTable t'
    bind-IsTable ip zero e =
        let free = udp_bind-free t p at_p ip not_null ok.port_ok in
        bind_free-IsTable ip free.0 free.1 free.2 e
    bind-IsTable ip (suc n) e = bind_port-IsTable ip (suc n) (omega arith) e

    -- The remote end of a block with a port: the block is on the list, and stays where it is.
    set_remote-IsTable :
        (ip port : ℕ) {r : ErrT} {t' : Table}
        → c.local_port ≢ 0
        → set_remote p ip port t ≡ some (r, t')
        → IsTable t'
    set_remote-IsTable ip port some_port e =
        let on : on_list p t.udp_pcbs ≡ true = ground (arith, ok.has_port p c) in
        let c' = record c { remote_ip = ip; remote_port = port; connected = true } in
        let done : set_remote p ip port t
            ≡ some (err_ok, record t { pcbs = put t.pcbs p (some c') }) =
          set_remote_lem t p at_p ip port ∙ rw on in
        one_outcome IsTable done e (kept-IsTable t ok p c' at_p (refl, refl, refl))

module _ (t : Table) (ok : IsTable t) (p : Ptr) {c : Pcb} (at_p : t.pcbs p ≡ some c) where
  connect_free-IsTable :
      (ip port last : ℕ) {r : ErrT} {t' : Table}
      → c.local_port ≡ 0
      → InRange last
      → BoundFree t p at_p c.local_ip last
      → udp_connect p ip port t ≡ some (r, t')
      → IsTable t'
  connect_free-IsTable ip port last no_port range (inl (done, free)) e =
      let c1 = bound c c.local_ip last in
      let t0 : Table = record t { udp_port = last } in
      let t1 : Table = listed t0 p c1 in
      let ok1 : IsTable t1 =
        bind_free-IsTable t ok p at_p c.local_ip last range (inl (done, free)) done in
      let at_p1 : t1.pcbs p ≡ some c1 = ground arith in
      let on : udp_connect p ip port t ≡ set_remote p ip port t1 =
        udp_connect-bind t p at_p ip port (not_null t ok p at_p) no_port done in
      set_remote-IsTable t1 ok1 p at_p1 ip port (omega (arith, range)) (sym on ∙ e)
  connect_free-IsTable ip port last no_port range (inr (full, all)) e =
      one_outcome IsTable (udp_connect-bind t p at_p ip port (not_null t ok p at_p) no_port full) e
        (last-IsTable t ok last range)

  pub connect-IsTable :
      (ip port : ℕ) {r : ErrT} {t' : Table} → udp_connect p ip port t ≡ some (r, t') → IsTable t'
  connect-IsTable ip port e = elim (Bool-cases (c.local_port == 0)) [
    | inl zero_ ↦
        let free = udp_bind-free t p at_p c.local_ip (not_null t ok p at_p) ok.port_ok in
        connect_free-IsTable ip port free.0 (ground arith) free.1 free.2 e
    | inr some_ ↦
        let some_port : c.local_port ≢ 0 = ground arith in
        let on = udp_connect-bound t p at_p ip port (not_null t ok p at_p) some_port in
        set_remote-IsTable t ok p at_p ip port some_port (sym on ∙ e)
  ]

  -- The operations that leave the local end.
  pub bind_netif-IsTable :
      (idx : ℕ) {t' : Table} → udp_bind_netif p idx t ≡ some (tt, t') → IsTable t'
  unfolding udp_bind_netif
  bind_netif-IsTable idx e =
      let c' = record c { netif_idx = idx } in
      let done : udp_bind_netif p idx t ≡ some (tt, record t { pcbs = put t.pcbs p (some c') }) =
        ground arith in
      one_outcome IsTable done e (kept-IsTable t ok p c' at_p (refl, refl, refl))

  pub disconnect-IsTable : {t' : Table} → udp_disconnect p t ≡ some (tt, t') → IsTable t'
  unfolding udp_disconnect
  disconnect-IsTable e =
      let c' = record c {
        remote_ip = addr_any;
        remote_port = 0;
        netif_idx = no_index;
        connected = false;
      } in
      let ne = not_null t ok p at_p in
      let done : udp_disconnect p t ≡ some (tt, record t { pcbs = put t.pcbs p (some c') }) =
        ground arith in
      one_outcome IsTable done e (kept-IsTable t ok p c' at_p (refl, refl, refl))

  pub recv-IsTable :
      (recv recv_arg : Ptr) {t' : Table} → udp_recv p recv recv_arg t ≡ some (tt, t') → IsTable t'
  unfolding udp_recv
  recv-IsTable recv recv_arg e =
      let c' = record c { recv = recv; recv_arg = recv_arg } in
      let ne = not_null t ok p at_p in
      let done : udp_recv p recv recv_arg t
          ≡ some (tt, record t { pcbs = put t.pcbs p (some c') }) =
        ground arith in
      one_outcome IsTable done e (kept-IsTable t ok p c' at_p (refl, refl, refl))

  pub remove-IsTable : {t' : Table} → udp_remove p t ≡ some (tt, t') → IsTable t'
  unfolding udp_remove
  remove-IsTable e =
      let ne = not_null t ok p at_p in
      let done : udp_remove p t
          ≡ some (tt, record t { pcbs = put t.pcbs p none; udp_pcbs = unlink p t.udp_pcbs }) =
        ground arith in
      one_outcome IsTable done e (removed-IsTable t ok p)

pub new-IsTable :
    (t : Table) (fresh : Ptr) {p : Ptr} {t' : Table}
    → IsTable t
    → t.pcbs fresh ≡ none
    → udp_new fresh t ≡ some (p, t')
    → IsTable t'
unfolding udp_new
new-IsTable t fresh ok gone e = elim (Bool-cases (fresh == null)) [
  | inl nil ↦
      let full : udp_new fresh t ≡ some (null, t) = ground arith in one_outcome IsTable full e ok
  | inr ne ↦
      let done : udp_new fresh t
          ≡ some (fresh, record t { pcbs = put t.pcbs fresh (some (zero_pcb fresh)) }) =
        ground arith in
      one_outcome IsTable done e
        (fresh-IsTable t ok fresh (zero_pcb fresh) (ground arith) gone refl refl)
]
