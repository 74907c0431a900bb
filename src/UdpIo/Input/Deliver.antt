-- ===== src/UdpIo/Input/Deliver.antt =====
-- What `udp_input` makes of a datagram for the one block of the list, bound as `udp_conn_listen`
-- binds it.
use tun2socket_lwip.Prelude.{
  ℕ, ◌≡◌, ◌≢◌, refl, sym, ap, ◌∙◌, Bool, true, false, some, List, [], ◌∷◌, leb, arith,
}
use tun2socket_lwip.Lwip.{Ptr, null, Pbufs}
use tun2socket_lwip.Interface.{Netif}
use tun2socket_lwip.Demux.{Pcb, accept_any_port, addr_any, find_pcb}
use tun2socket_lwip.Demux.Picks.{find_pcb-listener}
use tun2socket_lwip.Blocks.{Table, blocks}
use tun2socket_lwip.Ip4.{Core, Calls, IpData, isbroadcast, udp_hlen, netcmp}
use tun2socket_lwip.UdpIo.{UdpHdr, parse, datagram, find, index, addresses}
use tun2socket_lwip.UdpIo.Input.{Callback, chksum_ok, udp_input, udp_input_found, give}

-- a block as `udp_conn_listen` leaves it
pub record IsListener (l : Pcb) (q : Ptr) (inp : Netif) : Type 0 where
  pub self_eq : l.self ≡ q
  pub port_eq : l.local_port ≡ accept_any_port
  pub ip_eq : l.local_ip ≡ addr_any
  pub netif_eq : l.netif_idx ≡ index inp
  pub idle : l.connected ≡ false
  pub recv_set : l.recv ≢ null

-- the table with one block on the list
pub record Listens (t : Table) (l : Pcb) (q : Ptr) (inp : Netif) : Type 0 where
  pub only : t.udp_pcbs ≡ q ∷ []
  pub at_q : t.pcbs q ≡ some l
  pub listener : IsListener l q inp

find-listener :
    (inp : Netif) (t : Table) (l : Pcb) (q : Ptr)
    → Listens t l q inp
    → (hdr : UdpHdr) (ip : IpData) (broadcast : Bool)
    → find inp (datagram hdr ip inp broadcast) t ≡ (some l, t)
unfolding find blocks datagram addresses
find-listener inp t l q ok hdr ip broadcast =
    let here : blocks t.pcbs t.udp_pcbs ≡ l ∷ [] = rw (ok.only, ok.at_q, blocks) refl in
    let bound = ok.listener in
    let picked =
      find_pcb-listener (λ a c. netcmp a c inp.netmask) (datagram hdr ip inp broadcast) l
        bound.port_eq bound.ip_eq bound.netif_eq bound.idle in
    let same : l.self ∷ [] ≡ t.udp_pcbs = ap (λ r. r ∷ []) bound.self_eq ∙ sym ok.only in
    ap
      (λ cs.
        let r = find_pcb (λ a c. netcmp a c inp.netmask) (datagram hdr ip inp broadcast) cs in
        (r.0, record t { udp_pcbs = addresses r.1 }))
      here
    ∙ ap (λ r. (r.0, record t { udp_pcbs = addresses r.1 })) picked
    ∙ ap (λ ps. (some l, record t { udp_pcbs = ps })) same

module _ (b : Pbufs) {A : Type 0} (lwip : Calls b A) (call : Callback b A) where
  module _ (p : Ptr) (inp netif : Netif) (s : Core b A) where
    abbrev pub udp_bytes : List ℕ
    udp_bytes = b.payload p s.heap

    abbrev pub noted : Core b A
    noted = record s { udp_data = ((parse udp_bytes).src, (parse udp_bytes).dest) }

    -- A datagram for the block goes to its callback with its bytes behind the header.
    pub udp_input-listener :
        (l : Pcb) (q : Ptr)
        → Listens s.table l q inp
        → p ≢ null
        → s.ip_data.current_netif ≡ some netif
        → leb udp_hlen (lwip.len p s.heap) ≡ true
        → chksum_ok b lwip p (parse udp_bytes) noted ≡ true
        → (b.pbuf_remove_header p udp_hlen s.heap).0 ≡ false
        → udp_input b lwip call p inp s
          ≡ call l.recv l.recv_arg q p s.ip_data.current_iphdr_src
              (parse udp_bytes).src
              (record noted { heap = (b.pbuf_remove_header p udp_hlen s.heap).1 })
    unfolding udp_input udp_input_found give
    udp_input-listener l q ok ne at_netif long sum room =
        let hdr = parse udp_bytes in
        let broadcast = isbroadcast s.ip_data.current_iphdr_dest netif in
        let picked = find-listener inp s.table l q ok hdr s.ip_data broadcast in
        let recv_set = ok.listener.recv_set in
        let self_eq = ok.listener.self_eq in ground (arith, picked)
