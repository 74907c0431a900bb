-- ===== src/UdpIo.antt =====
-- lwip/core/udp.c: `udp_input` and the functions that send. The configuration is
-- lwip/include/lwipopts.h: IPv4 only, UDP-Lite on, checksums of UDP made and tested, SO_REUSE,
-- LWIP_CHECKSUM_ON_COPY and LWIP_MULTICAST_TX_OPTIONS off. `none` is an access to memory that is not
-- allocated or a failed assertion, which aborts.
pub mod Input
pub mod Output
pub mod Header
pub mod Listen
pub mod Sample
mod Tests
use tun2socket_lwip.Prelude.{
  ℕ, ◌+◌, ◌*◌, ◌/◌, ◌%◌, ◌^◌, Bool, true, not, ◌&&◌, ◌||◌, Option, none, some, List, [], ◌∷◌, ◌==◌,
  if◌then◌else◌, get_or, is_some,
}
use tun2socket_lwip.Lwip.{Ptr}
use tun2socket_lwip.Interface.{Netif}
use tun2socket_lwip.Demux.{Pcb, Datagram, find_pcb}
use tun2socket_lwip.Blocks.{Table, blocks}
use tun2socket_lwip.Ip4.{IpData, netcmp, isbroadcast, be16}

-- `struct udp_hdr`, in host byte order; `chksum` as it lies in memory
pub record UdpHdr : Type 0 where
  pub src : ℕ
  pub dest : ℕ
  pub len : ℕ
  pub chksum : ℕ

-- the header that `udp_input` reads through `p->payload`
unfoldable pub parse : List ℕ → UdpHdr
parse bs = record {
  src = be16 bs 0;
  dest = be16 bs 2;
  len = be16 bs 4;
  chksum = get_or bs 6 0 + get_or bs 7 0 * 2 ^ 8;
}

-- the bytes of a header in memory
pub print : UdpHdr → List ℕ
print hdr =
    (hdr.src / 2 ^ 8)
    ∷ (hdr.src % 2 ^ 8)
    ∷ (hdr.dest / 2 ^ 8)
    ∷ (hdr.dest % 2 ^ 8)
    ∷ (hdr.len / 2 ^ 8)
    ∷ (hdr.len % 2 ^ 8)
    ∷ (hdr.chksum % 2 ^ 8)
    ∷ (hdr.chksum / 2 ^ 8)
    ∷ []

-- `netif_get_index`, a `u8_t`
unfoldable pub index : Netif → ℕ
index netif = (netif.num + 1) % 2 ^ 8

-- what the search for a control block looks at
pub datagram : UdpHdr → IpData → Netif → Bool → Datagram
unfolding index
datagram hdr ip inp broadcast = record {
  src_ip = ip.current_iphdr_src;
  dst_ip = ip.current_iphdr_dest;
  src = hdr.src;
  dest = hdr.dest;
  input = index inp;
  netif_ip = inp.ip_addr;
  broadcast = broadcast;
}

-- the addresses of the blocks, in the order of the list
pub addresses : List Pcb → List Ptr
addresses [] = []
addresses (c ∷ cs) = c.self ∷ addresses cs

-- the search on the list `udp_pcbs`, and the list that it leaves
pub find : Netif → Datagram → Table → Option Pcb × Table
unfolding addresses
find inp d t =
    let found = find_pcb (λ a c. netcmp a c inp.netmask) d (blocks t.pcbs t.udp_pcbs) in
    (found.0, record t { udp_pcbs = addresses found.1 })

-- a datagram with a block to take it, or to the address of the interface
abbrev pub for_us : Option Pcb → ℕ → Netif → Bool
for_us pcb dest inp = is_some pcb || inp.ip_addr == dest
