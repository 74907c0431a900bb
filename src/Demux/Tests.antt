-- ===== src/Demux/Tests.antt =====
-- The search and the choice of a port on concrete control blocks.
use tun2socket_lwip.Prelude.{
  ℕ, ◌≡◌, refl, Bool, true, false, none, some, List, [], ◌∷◌, arith, ◌==◌,
}
use tun2socket_lwip.Demux.{Pcb, Datagram, accept_any_port, addr_any, new_port, find_pcb}
use tun2socket_lwip.Demux.Port.{InRange, Answer, new_port_lem}
use tun2socket_lwip.Demux.Search.{first, is_full, settle, find_pcb_lem}

-- the block of `udp_conn_listen`, and one that is connected to a name server
abbrev listener : Pcb
listener = record {
  self = 100;
  local_ip = addr_any;
  local_port = accept_any_port;
  remote_ip = addr_any;
  remote_port = 0;
  netif_idx = 1;
  connected = false;
  udplite = false;
  nochksum = false;
  tos = 0;
  ttl = 255;
  chksum_len_tx = 0;
  recv = 1;
  recv_arg = 1;
}

abbrev resolver : Pcb
resolver = record {
  self = 200;
  local_ip = 7;
  local_port = 49153;
  remote_ip = 9;
  remote_port = 53;
  netif_idx = 1;
  connected = true;
  udplite = false;
  nochksum = false;
  tos = 0;
  ttl = 255;
  chksum_len_tx = 0;
  recv = 1;
  recv_arg = 1;
}

abbrev blocks : List Pcb
blocks = listener ∷ resolver ∷ []

abbrev answer : Datagram
answer = record {
  src_ip = 9;
  dst_ip = 7;
  src = 53;
  dest = 49153;
  input = 1;
  netif_ip = 7;
  broadcast = false;
}

abbrev query : Datagram
query = record {
  src_ip = 5;
  dst_ip = 8;
  src = 40000;
  dest = 443;
  input = 1;
  netif_ip = 7;
  broadcast = false;
}

abbrev same_net : ℕ → ℕ → Bool
same_net a b = a == b

answer_found : find_pcb same_net answer blocks ≡ (some resolver, resolver ∷ listener ∷ [])
unfolding find_pcb
answer_found = refl

query_found : find_pcb same_net query blocks ≡ (some listener, blocks)
unfolding find_pcb
query_found = refl

elsewhere : find_pcb same_net (record query { input = 2 }) blocks ≡ (none, blocks)
unfolding find_pcb
elsewhere = refl

port_after_taken : new_port 3 0 49152 blocks ≡ some (49154, 49154)
unfolding new_port
port_after_taken = refl

port_wraps : new_port 3 0 65535 blocks ≡ some (49152, 49152)
unfolding new_port
port_wraps = refl

find_pcb_lem_example :
    find_pcb same_net answer blocks
    ≡ settle same_net answer [] none blocks (first (is_full same_net answer) blocks)
find_pcb_lem_example = find_pcb_lem same_net answer refl blocks

new_port_lem_example :
    (r : ℕ) × (q : ℕ) × (new_port 20000 0 49152 blocks ≡ some (r, q))
    × InRange q
    × Answer blocks r q
new_port_lem_example = new_port_lem 20000 49152 blocks (omega arith) (omega arith)
