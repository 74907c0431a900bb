-- ===== src/Blocks/Bind.antt =====
-- What `udp_bind` and the other operations on a control block do to the table.
use tun2socket_lwip.Prelude.{
  ℕ, ◌≡◌, ◌≢◌, ◌∙◌, ap, true, false, ◌⊎◌, some, arith, if◌then◌else◌, inl, inr,
}
use tun2socket_lwip.Lwip.{Ptr, null, ErrT, err_ok, err_use, is_ok}
use tun2socket_lwip.Demux.{Pcb, taken, new_port}
use tun2socket_lwip.Demux.Port.{InRange, Answer, free_port, all_taken, new_port_lem}
use tun2socket_lwip.Blocks.{
  Table, put, blocks, any_clash, assign, bind_free, udp_bind, udp_connect, port_passes, set_remote,
}
use tun2socket_lwip.Blocks.Invariant.{activated}

-- the block once it is bound, and the table with a block changed and on the list
abbrev pub bound : Pcb → ℕ → ℕ → Pcb
bound c ip port = record c { local_ip = ip; local_port = port }

abbrev pub listed : Table → Ptr → Pcb → Table
listed t p c = record t { pcbs = put t.pcbs p (some c); udp_pcbs = activated p t.udp_pcbs }

module _ (t : Table) (p : Ptr) {c : Pcb} (at_p : t.pcbs p ≡ some c) where
  pub assign_lem : (ip port : ℕ) → assign p ip port t ≡ some (err_ok, listed t p (bound c ip port))
  unfolding assign
  assign_lem ip port = ground arith

  pub set_remote_lem :
      (ip port : ℕ)
      → set_remote p ip port t
        ≡ some
            (err_ok, listed t p (record c { remote_ip = ip; remote_port = port; connected = true }))
  unfolding set_remote
  set_remote_lem ip port = ground arith

module _ (t : Table) (p : Ptr) {c : Pcb} (at_p : t.pcbs p ≡ some c) where
  -- A port that no other block claims at an overlapping address is given; any other is refused.
  pub udp_bind-port :
      (ip port : ℕ)
      → p ≢ null
      → port ≢ 0
      → udp_bind p ip port t ≡ (
          if any_clash p ip port (blocks t.pcbs t.udp_pcbs)
          then some (err_use, t)
          else some (err_ok, listed t p (bound c ip port)))
  unfolding udp_bind
  udp_bind-port ip port ne some_port = ground (arith, assign_lem t p at_p ip port)

  -- the two outcomes of `udp_bind` with port 0, `last` the last port tried
  abbrev pub BoundFree : ℕ → ℕ → Type 0
  BoundFree ip last =
      ((udp_bind p ip 0 t
          ≡ some (err_ok, listed (record t { udp_port = last }) p (bound c ip last)))
        × (taken last (blocks t.pcbs t.udp_pcbs) ≡ false))
      ⊎ ((udp_bind p ip 0 t ≡ some (err_use, record t { udp_port = last }))
          × ((q : ℕ) → InRange q → taken q (blocks t.pcbs t.udp_pcbs) ≡ true))

  bind_free-Answer :
      (ip r last : ℕ)
      → p ≢ null
      → InRange last
      → new_port port_passes 0 t.udp_port (blocks t.pcbs t.udp_pcbs) ≡ some (r, last)
      → Answer (blocks t.pcbs t.udp_pcbs) r last
      → BoundFree ip last
  unfolding udp_bind bind_free
  bind_free-Answer ip r last ne ok e (free_port same range free) =
      inl (ground (arith, assign_lem (record t { udp_port = last }) p at_p ip r), rw (← same) free)
  bind_free-Answer ip r last ne ok e (all_taken is_zero all) = inr (ground arith, all)

  -- `udp_bind` with port 0 gives a free port of the local range, if there is one, and refuses if not.
  pub udp_bind-free :
      (ip : ℕ) → p ≢ null → InRange t.udp_port → (last : ℕ) × InRange last × BoundFree ip last
  udp_bind-free ip ne ok =
      let found = new_port_lem port_passes t.udp_port (blocks t.pcbs t.udp_pcbs) (omega arith) ok in
      (found.1, found.3, bind_free-Answer ip found.0 found.1 ne found.3 found.2 found.4)

  -- `udp_connect` binds a block with no port first, and gives up if that fails.
  pub udp_connect-bound :
      (ip port : ℕ) → p ≢ null → c.local_port ≢ 0 → udp_connect p ip port t ≡ set_remote p ip port t
  unfolding udp_connect
  udp_connect-bound ip port ne some_port = ground arith

  pub udp_connect-bind :
      (ip port : ℕ) {r : ErrT} {t' : Table}
      → p ≢ null
      → c.local_port ≡ 0
      → udp_bind p c.local_ip 0 t ≡ some (r, t')
      → udp_connect p ip port t ≡ (if is_ok r then set_remote p ip port t' else some (r, t'))
  unfolding udp_connect
  udp_connect-bind ip port {r} {t'} ne no_port e =
      let bind : udp_bind p c.local_ip c.local_port t ≡ some (r, t') =
        ap (λ n. udp_bind p c.local_ip n t) no_port ∙ e in
      ground (arith, bind)
