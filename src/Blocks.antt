-- ===== src/Blocks.antt =====
-- lwip/core/udp.c: the control blocks and the list `udp_pcbs` of those that are bound or connected.
-- Blocks lie in a store by address; a block that is not allocated faults, and NULL
-- for a block aborts, since `LWIP_ERROR` calls `abort` in this build: both are `none`. `udp_pcbs` holds the
-- addresses in the order of the links `next`. SO_REUSE is off.
pub mod Bind
pub mod Clash
pub mod Invariant
pub mod Preserve
pub mod Operations
pub mod System
mod Tests
use tun2socket_lwip.Prelude.{
  ℕ, Bool, true, false, not, ◌&&◌, ◌||◌, Option, none, some, List, [], ◌∷◌, ◌==◌, if◌then◌else◌,
  Cmd, pure, ◌>>=◌, ◌>>◌,
}
use tun2socket_lwip.Lwip.{Ptr, null, ErrT, err_ok, err_use, is_ok}
use tun2socket_lwip.Demux.{Pcb, no_index, addr_any, new_port}

-- the store of blocks, `udp_pcbs` and `udp_port`
pub record Table : Type 0 where
  pub pcbs : Ptr → Option Pcb
  pub udp_pcbs : List Ptr
  pub udp_port : ℕ

abbrev pub put : (Ptr → Option Pcb) → Ptr → Option Pcb → Ptr → Option Pcb
put pcbs p c q = if p == q then c else pcbs q

-- the blocks on a list; an address that is not allocated, which no list of Blocks/Invariant has, is
-- passed over
unfoldable pub blocks : (Ptr → Option Pcb) → List Ptr → List Pcb
blocks pcbs [] = []
blocks pcbs (p ∷ ps) =
    let rest = blocks pcbs ps in elim (pcbs p) [ none ↦ rest | some c ↦ c ∷ rest ]

-- the loop that looks for a block on the list
unfoldable pub on_list : Ptr → List Ptr → Bool
on_list p [] = false
on_list p (q ∷ qs) = p == q || on_list p qs

unfoldable pub load : Ptr → Cmd Table Pcb
load p t = elim (t.pcbs p) [ none ↦ none | some c ↦ some (c, t) ]

unfoldable pub save : Ptr → Pcb → Cmd Table (Unit {0})
save p c t = some (tt, record t { pcbs = put t.pcbs p (some c) })

-- puts a block at the front of the list, unless it is there
pub activate : Ptr → Cmd Table (Unit {0})
activate p t =
    some (tt, record t { udp_pcbs = if on_list p t.udp_pcbs then t.udp_pcbs else p ∷ t.udp_pcbs })

-- UDP_TTL
abbrev pub udp_ttl : ℕ
udp_ttl = 255

-- a block after `memset`, with its address and `ttl`
abbrev pub zero_pcb : Ptr → Pcb
zero_pcb p = record {
  self = p;
  local_ip = addr_any;
  local_port = 0;
  remote_ip = addr_any;
  remote_port = 0;
  netif_idx = no_index;
  connected = false;
  udplite = false;
  nochksum = false;
  tos = 0;
  ttl = udp_ttl;
  chksum_len_tx = 0;
  recv = null;
  recv_arg = null;
}

-- `udp_new`, and `udp_new_ip_type`, which ignores its argument; `fresh` is what `memp_malloc` gives
unfoldable pub udp_new : Ptr → Cmd Table Ptr
unfolding save
udp_new fresh = if fresh == null then pure null else save fresh (zero_pcb fresh) >> pure fresh

-- the test of `udp_bind` on one block of the list
unfoldable pub clashes : Ptr → ℕ → ℕ → Pcb → Bool
clashes pcb ip port c =
    not (c.self == pcb)
    && c.local_port == port
    && (c.local_ip == ip || ip == addr_any || c.local_ip == addr_any)

-- the loop of `udp_bind` over the list
unfoldable pub any_clash : Ptr → ℕ → ℕ → List Pcb → Bool
unfolding clashes
any_clash pcb ip port [] = false
any_clash pcb ip port (c ∷ cs) = clashes pcb ip port c || any_clash pcb ip port cs

-- the end of `udp_bind`, once the port is chosen
pub assign : Ptr → ℕ → ℕ → Cmd Table ErrT
unfolding load save activate
assign pcb ip port = do
  c ← load pcb
  save pcb (record c { local_ip = ip; local_port = port })
  activate pcb
  pure err_ok

-- the passes of `udp_new_port` that are enough
abbrev pub port_passes : ℕ
port_passes = 16384

-- `udp_bind` with port 0
pub bind_free : Ptr → ℕ → Cmd Table ErrT
unfolding assign
bind_free pcb ip t = elim (new_port port_passes 0 t.udp_port (blocks t.pcbs t.udp_pcbs)) [
  | none ↦ none
  | some (port, last) ↦
      let t' : Table = record t { udp_port = last } in
      if port == 0 then some (err_use, t') else assign pcb ip port t'
]

-- `udp_bind`; NULL for `ipaddr` is `addr_any`
pub udp_bind : Ptr → ℕ → ℕ → Cmd Table ErrT
unfolding bind_free assign
udp_bind pcb ip port t =
    if pcb == null
    then none
    else if port == 0
    then bind_free pcb ip t
    else if any_clash pcb ip port (blocks t.pcbs t.udp_pcbs)
    then some (err_use, t)
    else assign pcb ip port t

-- `udp_bind_netif`; NULL for `netif` is `no_index`
unfoldable pub udp_bind_netif : Ptr → ℕ → Cmd Table (Unit {0})
unfolding load save
udp_bind_netif pcb idx = do c ← load pcb; save pcb (record c { netif_idx = idx })

-- the part of `udp_connect` behind the bind
pub set_remote : Ptr → ℕ → ℕ → Cmd Table ErrT
unfolding load save activate
set_remote pcb ip port = do
  c ← load pcb
  save pcb (record c { remote_ip = ip; remote_port = port; connected = true })
  activate pcb
  pure err_ok

-- `udp_connect`; the address is not NULL
pub udp_connect : Ptr → ℕ → ℕ → Cmd Table ErrT
unfolding load set_remote
udp_connect pcb ip port = if pcb == null then (λ t. none) else (do
  c ← load pcb
  if c.local_port == 0
      then (do
        err ← udp_bind pcb c.local_ip c.local_port
        if is_ok err then set_remote pcb ip port else pure err)
      else set_remote pcb ip port)

-- `udp_disconnect`
pub udp_disconnect : Ptr → Cmd Table (Unit {0})
unfolding load save
udp_disconnect pcb = if pcb == null then (λ t. none) else (do
  c ← load pcb
  save pcb
      (record c { remote_ip = addr_any; remote_port = 0; netif_idx = no_index; connected = false }))

-- `udp_recv`
unfoldable pub udp_recv : Ptr → Ptr → Ptr → Cmd Table (Unit {0})
unfolding load save
udp_recv pcb recv recv_arg =
    if pcb == null
    then (λ t. none)
    else (do c ← load pcb; save pcb (record c { recv = recv; recv_arg = recv_arg }))

-- the list without a block: the first link to it is led past it
unfoldable pub unlink : Ptr → List Ptr → List Ptr
unlink p [] = []
unlink p (q ∷ qs) = let rest = unlink p qs in if p == q then qs else q ∷ rest

-- `udp_remove`; `memp_free` takes the block out of the store
unfoldable pub udp_remove : Ptr → Cmd Table (Unit {0})
unfolding load unlink
udp_remove pcb = if pcb == null then (λ t. none) else (do
  c ← load pcb
  λ t. some (tt, record t { pcbs = put t.pcbs pcb none; udp_pcbs = unlink pcb t.udp_pcbs }))

-- the loop of `udp_netif_ip_addr_changed`
pub move_blocks : ℕ → ℕ → List Ptr → (Ptr → Option Pcb) → Ptr → Option Pcb
move_blocks old new [] pcbs = pcbs
move_blocks old new (p ∷ ps) pcbs = move_blocks old new ps (elim (pcbs p) [
  | none ↦ pcbs
  | some c ↦ if c.local_ip == old then put pcbs p (some (record c { local_ip = new })) else pcbs
])

-- `udp_netif_ip_addr_changed`
pub udp_netif_ip_addr_changed : ℕ → ℕ → Table → Table
unfolding move_blocks
udp_netif_ip_addr_changed old new t =
    if not (old == addr_any) && not (new == addr_any)
    then record t { pcbs = move_blocks old new t.udp_pcbs t.pcbs }
    else t
