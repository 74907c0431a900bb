-- ===== src/Demux.antt =====
-- lwip/core/udp.c, as this repository extends it: the search of `udp_input` for the control block that
-- gets a datagram, where a block bound to UDP_ACCEPT_ANY_PORT matches every port, and `udp_new_port`.
-- The configuration is lwip/include/lwipopts.h: IPv4 only, SO_REUSE and IP_SOF_BROADCAST_RECV off.
pub mod Picks
pub mod Port
pub mod Search
mod Tests
use tun2socket_lwip.Prelude.{
  ℕ, zero, suc, ◌+◌, ◌-◌, ◌^◌, Bool, true, false, not, ◌&&◌, ◌||◌, Option, none, some, List, [],
  ◌∷◌, ◌++◌, ◌==◌, ltb, if◌then◌else◌,
}
use tun2socket_lwip.Lwip.{Ptr}

-- `struct udp_pcb`, its flags apart and without its link `next`; `self` is its address
pub record Pcb : Type 0 where
  pub self : Ptr
  pub local_ip : ℕ
  pub local_port : ℕ
  pub remote_ip : ℕ
  pub remote_port : ℕ
  pub netif_idx : ℕ
  pub connected : Bool
  pub udplite : Bool
  pub nochksum : Bool
  pub tos : ℕ
  pub ttl : ℕ
  pub chksum_len_tx : ℕ
  pub recv : Ptr
  pub recv_arg : Ptr

-- UDP_ACCEPT_ANY_PORT
abbrev pub accept_any_port : ℕ
accept_any_port = 1

-- NETIF_NO_INDEX, IPADDR_ANY and IPADDR_BROADCAST
abbrev pub no_index : ℕ
no_index = 0

abbrev pub addr_any : ℕ
addr_any = 0

abbrev pub addr_broadcast : ℕ
addr_broadcast = 2 ^ 32 - 1

-- A datagram as `udp_input` sees it: the ports of its header, the addresses of `ip_data`, the index
-- and the address of the interface that it came in by, and what `ip_addr_isbroadcast` says of it.
pub record Datagram : Type 0 where
  pub src_ip : ℕ
  pub dst_ip : ℕ
  pub src : ℕ
  pub dest : ℕ
  pub input : ℕ
  pub netif_ip : ℕ
  pub broadcast : Bool

-- UDP_LOCAL_PORT_RANGE_START and UDP_LOCAL_PORT_RANGE_END
abbrev pub range_start : ℕ
range_start = 49152

abbrev pub range_end : ℕ
range_end = 65535

-- the loop of `udp_new_port` over the control blocks
unfoldable pub taken : ℕ → List Pcb → Bool
taken port [] = false
taken port (pcb ∷ pcbs) = pcb.local_port == port || taken port pcbs

-- `udp_port++`, with the wrap to the start of the range
abbrev pub next_port : ℕ → ℕ
next_port port = if port == range_end then range_start else port + 1

-- `udp_new_port` from its label `again`, with a bound on its passes: the port returned, and the new
-- value of `udp_port`
pub new_port : ℕ → ℕ → ℕ → List Pcb → Option (ℕ × ℕ)
unfolding taken
new_port zero n port pcbs = none
new_port (suc fuel) n port pcbs =
    let port' = next_port port in
    let rest = new_port fuel (n + 1) port' pcbs in
    if taken port' pcbs
    then (if ltb (range_end - range_start) (n + 1) then some (0, port') else rest)
    else some (port', port')

-- `same_net` is `ip4_addr_netcmp` with the netmask of the interface.
module _ (same_net : ℕ → ℕ → Bool) (d : Datagram) where
  -- `udp_input_local_match`
  pub local_match : Pcb → Bool
  local_match pcb =
      if not (pcb.netif_idx == no_index) && not (pcb.netif_idx == d.input)
      then false
      else if d.broadcast
      then pcb.local_ip == addr_any
        || d.dst_ip == addr_broadcast
        || same_net (pcb.local_ip) (d.dst_ip)
      else pcb.local_ip == addr_any || pcb.local_ip == d.dst_ip

  -- the test on the local end
  pub matches : Pcb → Bool
  unfolding local_match
  matches pcb = (pcb.local_port == d.dest || pcb.local_port == accept_any_port) && local_match pcb

  -- the test on the remote end
  pub from_remote : Pcb → Bool
  from_remote pcb =
      pcb.remote_port == d.src && (pcb.remote_ip == addr_any || pcb.remote_ip == d.src_ip)

  -- what a matching control block makes of `uncon_pcb`
  pub prefer : Option Pcb → Pcb → Option Pcb
  prefer none pcb = if pcb.connected then none else some pcb
  prefer (some uncon) pcb =
      if pcb.connected
      then some uncon
      else if d.broadcast && d.dst_ip == addr_broadcast
      then (if not (uncon.local_ip == d.netif_ip) && pcb.local_ip == d.netif_ip
          then some pcb
          else some uncon)
      else some uncon

  -- The search of `udp_input`, past the control blocks of `seen`: the block that gets the datagram,
  -- and the list `udp_pcbs`, to whose front a full match moves.
  pub search : List Pcb → Option Pcb → List Pcb → Option Pcb × List Pcb
  unfolding matches from_remote prefer
  search seen uncon [] = (uncon, seen)
  search seen uncon (pcb ∷ pcbs) =
      let miss = search (seen ++ (pcb ∷ [])) uncon pcbs in
      let hit = search (seen ++ (pcb ∷ [])) (prefer uncon pcb) pcbs in
      if matches pcb
      then (if from_remote pcb then (some pcb, pcb ∷ (seen ++ pcbs)) else hit)
      else miss

  pub find_pcb : List Pcb → Option Pcb × List Pcb
  unfolding search
  find_pcb pcbs = search [] none pcbs
