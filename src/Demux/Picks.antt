-- ===== src/Demux/Picks.antt =====
-- What the search of `udp_input` comes to: the same block each time, and one for every port.
use tun2socket_lwip.Prelude.{
  ℕ, ◌≡◌, refl, ◌∙◌, ap, sym, Bool, true, false, ◌&&◌, Option, none, some, List, [], ◌∷◌, ◌++◌,
  arith, ◌==◌,
}
use tun2socket_lwip.Demux.{
  Pcb, Datagram, accept_any_port, addr_any, addr_broadcast, local_match, matches, find_pcb, search,
  prefer,
}
use tun2socket_lwip.Demux.Search.{
  first, without, is_full, is_open, settle, first-passes, first-middle, settle-full, find_pcb_lem,
}

module _ (same_net : ℕ → ℕ → Bool) (d : Datagram) where
  settle-again :
      (pcbs : List Pcb) (o : Option Pcb)
      → first (is_full same_net d) pcbs ≡ o
      → settle same_net d [] none
          (settle same_net d [] none pcbs o).1
          (first (is_full same_net d) (settle same_net d [] none pcbs o).1)
        ≡ settle same_net d [] none pcbs o
  settle-again pcbs none e = ap (settle same_net d [] none pcbs) e
  settle-again pcbs (some p) e =
      settle-full same_net d [] none p (without (is_full same_net d) pcbs)
        (first-passes same_net d (is_full same_net d) pcbs e)

  -- A second search for the same datagram, not to the broadcast address, picks the same control block,
  -- and leaves the list as the first search left it.
  pub find_pcb-again :
      (d.broadcast && d.dst_ip == addr_broadcast) ≡ false
      → (pcbs : List Pcb)
      → find_pcb same_net d (find_pcb same_net d pcbs).1 ≡ find_pcb same_net d pcbs
  find_pcb-again one pcbs =
      find_pcb_lem same_net d one (find_pcb same_net d pcbs).1
      ∙ ap (λ out. settle same_net d [] none out (first (is_full same_net d) out))
          (ap (λ r. r.1) (find_pcb_lem same_net d one pcbs))
      ∙ settle-again pcbs (first (is_full same_net d) pcbs) refl
      ∙ sym (find_pcb_lem same_net d one pcbs)

  settle-some :
      (pcbs : List Pcb) {q : Pcb} (o : Option Pcb)
      → first (is_open same_net d) pcbs ≡ some q
      → (p : Pcb) × ((settle same_net d [] none pcbs o).0 ≡ some p)
  settle-some pcbs {q} none e = (q, e)
  settle-some pcbs (some p) e = (p, refl)

  listener-is_open :
      (l : Pcb)
      → l.local_port ≡ accept_any_port
      → l.local_ip ≡ addr_any
      → l.netif_idx ≡ d.input
      → l.connected ≡ false
      → (is_open same_net d) l ≡ true
  unfolding matches local_match
  listener-is_open l any_port any_ip bound idle = ground arith

  -- With a control block in the list as `udp_conn_listen` leaves its own, bound to UDP_ACCEPT_ANY_PORT
  -- and any address on the interface and not connected, the search of `udp_input` picks some
  -- block for every datagram of that interface that is not to the broadcast address, whatever its
  -- ports and addresses.
  pub find_pcb-any_port :
      (d.broadcast && d.dst_ip == addr_broadcast) ≡ false
      → (front back : List Pcb) (l : Pcb) → l.local_port ≡ accept_any_port
      → l.local_ip ≡ addr_any
      → l.netif_idx ≡ d.input
      → l.connected ≡ false
      → (p : Pcb) × ((find_pcb same_net d (front ++ (l ∷ back))).0 ≡ some p)
  find_pcb-any_port one front back l any_port any_ip bound idle =
      let pcbs = front ++ (l ∷ back) in
      let open_ =
        first-middle same_net d (is_open same_net d) front l back
          (listener-is_open l any_port any_ip bound idle) in
      let chosen = settle-some pcbs (first (is_full same_net d) pcbs) open_.1 in
      (chosen.0, ap (λ r. r.0) (find_pcb_lem same_net d one pcbs) ∙ chosen.1)

  -- alone on the list, it is picked for the broadcast address too
  pub find_pcb-listener :
      (l : Pcb)
      → l.local_port ≡ accept_any_port
      → l.local_ip ≡ addr_any
      → l.netif_idx ≡ d.input
      → l.connected ≡ false
      → find_pcb same_net d (l ∷ []) ≡ (some l, l ∷ [])
  unfolding find_pcb search matches local_match prefer
  find_pcb-listener l any_port any_ip bound idle = ground arith
