-- ===== src/Blocks/System.antt =====
-- The operations on control blocks as steps, and what holds after any sequence of them.
use tun2socket_lwip.Prelude.{ℕ, ◌≡◌, refl, none, some, [], arith}
use tun2socket_lwip.Lwip.{Ptr, ErrT}
use tun2socket_lwip.Demux.{Pcb}
use tun2socket_lwip.Demux.Port.{InRange}
use tun2socket_lwip.Blocks.{
  Table, on_list, udp_bind, udp_connect, udp_remove, udp_recv, udp_disconnect, udp_bind_netif,
  udp_new,
}
use tun2socket_lwip.Blocks.Invariant.{IsTable}
use tun2socket_lwip.Blocks.Operations.{
  bind-IsTable, connect-IsTable, bind_netif-IsTable, disconnect-IsTable, recv-IsTable,
  remove-IsTable, new-IsTable,
}

-- One operation, on a block that is allocated, that does not fault; `memp_malloc` gives an address that
-- is not.
pub data Step (t t' : Table) : Type 0 where
  new : (fresh p : Ptr) → t.pcbs fresh ≡ none → udp_new fresh t ≡ some (p, t') → Step t t'
  bind :
      (p : Ptr) (c : Pcb) (ip port : ℕ) (r : ErrT)
      → t.pcbs p ≡ some c
      → udp_bind p ip port t ≡ some (r, t')
      → Step t t'
  bind_netif :
      (p : Ptr) (c : Pcb) (idx : ℕ)
      → t.pcbs p ≡ some c
      → udp_bind_netif p idx t ≡ some (tt, t')
      → Step t t'
  connect :
      (p : Ptr) (c : Pcb) (ip port : ℕ) (r : ErrT)
      → t.pcbs p ≡ some c
      → udp_connect p ip port t ≡ some (r, t')
      → Step t t'
  disconnect :
      (p : Ptr) (c : Pcb) → t.pcbs p ≡ some c → udp_disconnect p t ≡ some (tt, t') → Step t t'
  recv :
      (p : Ptr) (c : Pcb) (f arg : Ptr)
      → t.pcbs p ≡ some c
      → udp_recv p f arg t ≡ some (tt, t')
      → Step t t'
  remove : (p : Ptr) (c : Pcb) → t.pcbs p ≡ some c → udp_remove p t ≡ some (tt, t') → Step t t'

pub data Reach (t : Table) : Table → Type 0 where
  here : Reach t t
  next : {u v : Table} → Reach t u → Step u v → Reach t v

Step-IsTable : {t t' : Table} → Step t t' → IsTable t → IsTable t'
Step-IsTable {t} (new fresh p gone e) ok = new-IsTable t fresh ok gone e
Step-IsTable {t} (bind p c ip port r at_p e) ok = bind-IsTable t ok p at_p ip port e
Step-IsTable {t} (bind_netif p c idx at_p e) ok = bind_netif-IsTable t ok p at_p idx e
Step-IsTable {t} (connect p c ip port r at_p e) ok = connect-IsTable t ok p at_p ip port e
Step-IsTable {t} (disconnect p c at_p e) ok = disconnect-IsTable t ok p at_p e
Step-IsTable {t} (recv p c f arg at_p e) ok = recv-IsTable t ok p at_p f arg e
Step-IsTable {t} (remove p c at_p e) ok = remove-IsTable t ok p at_p e

-- the table after `udp_init`
abbrev pub started : ℕ → Table
started port = record { pcbs = λ p. none; udp_pcbs = []; udp_port = port }

started-IsTable : (port : ℕ) → InRange port → IsTable (started port)
unfolding on_list
started-IsTable port range = record {
  null_free = refl;
  self_eq = λ p c e. absurd (ground (arith, e));
  live = λ p e. absurd (ground (arith, e));
  has_port = λ p c e. absurd (ground (arith, e));
  once = tt;
  port_ok = range;
  apart = λ p q c d on. absurd (ground (arith, on));
}

-- After `udp_init`, any sequence of the operations on allocated blocks leaves a list that names
-- allocated blocks, each once and with a port, and on which no two blocks have one port at
-- addresses that are equal or of which one is any.
pub Reach-IsTable : {port : ℕ} {t : Table} → InRange port → Reach (started port) t → IsTable t
Reach-IsTable {port} range here = started-IsTable port range
Reach-IsTable range (next r s) = Step-IsTable s (Reach-IsTable range r)
