-- ===== src/UdpIo/Listen.antt =====
-- native/udp.c: `udp_conn_listen` on the control blocks of lwip/core/udp.c.
use tun2socket_lwip.Prelude.{
  ◌≡◌, ◌≢◌, refl, false, Option, none, some, [], ◌∷◌, ◌==◌, if◌then◌else◌, arith, Cmd, pure, ◌>>=◌,
  ◌>>◌,
}
use tun2socket_lwip.Lwip.{Ptr, null, err_ok, err_use, is_ok}
use tun2socket_lwip.Interface.{Netif}
use tun2socket_lwip.Demux.{Pcb, accept_any_port, addr_any}
use tun2socket_lwip.Blocks.{
  Table, put, blocks, zero_pcb, udp_new, udp_bind, udp_bind_netif, udp_recv, udp_remove, any_clash,
  clashes, unlink, on_list, load, save,
}
use tun2socket_lwip.Blocks.Bind.{bound, listed, udp_bind-port}
use tun2socket_lwip.UdpIo.{index}
use tun2socket_lwip.UdpIo.Input.Deliver.{Listens}

-- `udp_conn_listen`: `fresh` is what `memp_malloc` gives, `recv` is the address of `udp_on_received`,
-- and `conn` that of the connection, for which `malloc` is taken to succeed, as the code takes it
pub listen : (fresh recv conn : Ptr) → Netif → Cmd Table (Option Ptr)
unfolding index
listen fresh recv conn netif = do
  pcb ← udp_new fresh
  err ← udp_bind pcb addr_any accept_any_port
  if is_ok err
      then (do udp_bind_netif pcb (index netif); udp_recv pcb recv conn; pure (some pcb))
      else (do udp_remove pcb; pure none)

module _ (fresh recv conn : Ptr) (netif : Netif) where
  -- the block of the connection
  abbrev pub the_listener : Pcb
  the_listener = record (bound (zero_pcb fresh) addr_any accept_any_port) {
    netif_idx = index netif;
    recv = recv;
    recv_arg = conn;
  }

  module _ (t : Table) (ne : fresh ≢ null) where
    abbrev made : Table
    made = record t { pcbs = put t.pcbs fresh (some (zero_pcb fresh)) }

    made-eq : udp_new fresh t ≡ some (fresh, made)
    unfolding udp_new
    made-eq = ground arith

    at_fresh : made.pcbs fresh ≡ some (zero_pcb fresh)
    at_fresh = ground arith

    bound-eq : udp_bind fresh addr_any accept_any_port made ≡ (
        if any_clash fresh addr_any accept_any_port (blocks made.pcbs made.udp_pcbs)
        then some (err_use, made)
        else some (err_ok, listed made fresh (bound (zero_pcb fresh) addr_any accept_any_port)))
    bound-eq = udp_bind-port made fresh at_fresh addr_any accept_any_port ne (omega arith)

    abbrev half : Pcb
    half = bound (zero_pcb fresh) addr_any accept_any_port

    -- every write to the block
    abbrev pub listening : Table
    listening = record t {
      pcbs =
          put
            (put (put made.pcbs fresh (some half)) fresh
              (some (record half { netif_idx = index netif })))
            fresh (some the_listener);
      udp_pcbs = fresh ∷ [];
    }

    bind-alone :
        t.udp_pcbs ≡ []
        → udp_bind fresh addr_any accept_any_port made
          ≡ some (
            err_ok,
            record made { pcbs = put made.pcbs fresh (some half); udp_pcbs = fresh ∷ [] },
          )
    unfolding any_clash blocks on_list
    bind-alone none_yet = ground (arith, bound-eq, none_yet)

    -- With no block on the list and memory for one, `udp_conn_listen` gives a connection
    -- whose block alone is on the list, bound to any address and any port of the interface,
    -- with its callback set.
    pub listen_lem :
        t.udp_pcbs ≡ []
        → recv ≢ null
        → (listen fresh recv conn netif t ≡ some (some fresh, listening))
          × Listens listening the_listener fresh netif
    unfolding listen udp_bind_netif udp_recv load save
    listen_lem none_yet set =
        let made_ = made-eq in
        let bound_ = bind-alone none_yet in
        (
          ground (arith, made_, bound_),
          record {
            only = refl;
            at_q = ground arith;
            listener = record {
              self_eq = refl;
              port_eq = refl;
              ip_eq = refl;
              netif_eq = refl;
              idle = refl;
              recv_set = set;
            };
          },
        )

    bind-taken :
        (l : Pcb) (q : Ptr)
        → Listens t l q netif
        → t.pcbs fresh ≡ none
        → udp_bind fresh addr_any accept_any_port made ≡ some (err_use, made)
    unfolding any_clash clashes blocks
    bind-taken l q ok gone =
        let at_q = ok.at_q in
        let other : (fresh == q) ≡ false = ground (arith, gone, at_q) in
        let there : blocks made.pcbs made.udp_pcbs ≡ l ∷ [] =
          rw (ok.only, blocks) (ground (arith, at_q, other)) in
        let port = ok.listener.port_eq in
        let self = ok.listener.self_eq in ground (arith, bound-eq, there, port, self)

    -- While a listener's block is alone on the list, another `udp_conn_listen` with memory
    -- for a block gives NULL, and every block and the list are as before.
    pub listen-again :
        (l : Pcb) (q : Ptr)
        → Listens t l q netif
        → t.pcbs fresh ≡ none
        → (t' : Table) × (listen fresh recv conn netif t ≡ some (none, t'))
          × (t'.udp_pcbs ≡ t.udp_pcbs)
          × ((r : Ptr) → t'.pcbs r ≡ t.pcbs r)
    unfolding listen udp_remove unlink load
    listen-again l q ok gone =
        let made_ = made-eq in
        let bound_ = bind-taken l q ok gone in
        let at_q = ok.at_q in
        let one = ok.only in
        let other : (fresh == q) ≡ false = ground (arith, gone, at_q) in
        let t' : Table = record made { pcbs = put made.pcbs fresh none } in
        (t', ground (arith, made_, bound_, one, other), refl, λ r. ground (arith, gone))
