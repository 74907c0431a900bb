-- ===== src/Ip4.antt =====
-- lwip/core/ipv4/ip4.c and ip4_addr.c, as lwip/include/lwipopts.h configures them: one interface,
-- no fragments, no IGMP, no raw sockets, and LWIP_NETIF_ALLOW_ANY, by which an interface with no
-- address takes packets for any. An address is the `u32_t` in network byte order on a
-- little-endian machine. `none` is an access to NULL or a failed assertion, which aborts.
pub mod Input
pub mod Output
pub mod Model
mod Tests
use tun2socket_lwip.Prelude.{
  ℕ, ◌+◌, ◌-◌, ◌*◌, ◌/◌, ◌%◌, ◌^◌, Bool, true, false, not, ◌&&◌, ◌||◌, Option, none, some, List,
  ◌==◌, if◌then◌else◌, get_or, Cmd,
}
use Prim.Native.Nat.{bit_and}
use tun2socket_lwip.Lwip.{Ptr, Pbufs}
use tun2socket_lwip.Interface.{Netif}
use tun2socket_lwip.Demux.{addr_any, addr_broadcast}
use tun2socket_lwip.Blocks.{Table}

-- `ip4_addr_netcmp`
unfoldable pub netcmp : ℕ → ℕ → ℕ → Bool
netcmp a b mask = bit_and a mask == bit_and b mask

-- `ip4_addr_ismulticast`: the four highest bits of the first byte are 1110
unfoldable pub ismulticast : ℕ → Bool
ismulticast addr = addr % 2 ^ 8 / 2 ^ 4 == 14

-- `ip4_addr_isloopback`: the first byte is 127
unfoldable pub isloopback : ℕ → Bool
isloopback addr = addr % 2 ^ 8 == 127

-- `ip4_addr_isbroadcast_u32`; `~mask` is `2 ^ 32 - 1 - mask`
unfoldable pub isbroadcast : ℕ → Netif → Bool
unfolding netcmp
isbroadcast addr netif =
    let inverse = addr_broadcast - netif.netmask in
    if addr == addr_broadcast || addr == addr_any
    then true
    else if not netif.broadcast
    then false
    else if addr == netif.ip_addr
    then false
    else netcmp addr netif.ip_addr netif.netmask
      && bit_and addr inverse == bit_and addr_broadcast inverse

-- `lwip_ntohs` of the two bytes at an index
abbrev pub be16 : List ℕ → ℕ → ℕ
be16 bs i = get_or bs i 0 * 2 ^ 8 + get_or bs (i + 1) 0

-- a `u32_t` read at an index, as it lies in memory
abbrev pub le32 : List ℕ → ℕ → ℕ
le32 bs i =
    get_or bs i 0
    + get_or bs (i + 1) 0 * 2 ^ 8
    + get_or bs (i + 2) 0 * 2 ^ 16
    + get_or bs (i + 3) 0 * 2 ^ 24

-- IP_HLEN and UDP_HLEN
abbrev pub ip_hlen : ℕ
ip_hlen = 20

abbrev pub udp_hlen : ℕ
udp_hlen = 8

-- IP_PROTO_ICMP, IP_PROTO_TCP, IP_PROTO_UDP and IP_PROTO_UDPLITE
abbrev pub proto_icmp : ℕ
proto_icmp = 1

abbrev pub proto_tcp : ℕ
proto_tcp = 6

abbrev pub proto_udp : ℕ
proto_udp = 17

abbrev pub proto_udplite : ℕ
proto_udplite = 136

-- the fields of `struct ip_hdr` in its bytes: IPH_V, IPH_HL_BYTES, IPH_LEN, the flags and the offset
-- of a fragment, IPH_PROTO, and the two addresses
abbrev pub version : List ℕ → ℕ
version bs = get_or bs 0 0 / 2 ^ 4

abbrev pub header_len : List ℕ → ℕ
header_len bs = get_or bs 0 0 % 2 ^ 4 * 4

abbrev pub packet_len : List ℕ → ℕ
packet_len bs = be16 bs 2

-- `IPH_OFFSET & (IP_OFFMASK | IP_MF)`, which is all but the two highest bits
abbrev pub fragment : List ℕ → ℕ
fragment bs = be16 bs 6 % 2 ^ 14

abbrev pub protocol : List ℕ → ℕ
protocol bs = get_or bs 9 0

abbrev pub src_addr : List ℕ → ℕ
src_addr bs = le32 bs 12

abbrev pub dest_addr : List ℕ → ℕ
dest_addr bs = le32 bs 16

-- `struct ip_globals`; `current_ip4_header` holds the bytes of the header, `[]` for NULL
pub record IpData : Type 0 where
  pub current_netif : Option Netif
  pub current_input_netif : Option Netif
  pub current_ip4_header : List ℕ
  pub current_ip_header_tot_len : ℕ
  pub current_iphdr_src : ℕ
  pub current_iphdr_dest : ℕ

-- the state of the stack that packets pass through; `app` is that of the application
pub record Core (b : Pbufs) (A : Type 0) : Type 0 where
  pub heap : b.Heap
  pub ip_data : IpData
  pub ip_id : ℕ
  pub udp_data : ℕ × ℕ
  pub table : Table
  pub app : A

-- What ip4.c and udp.c call: `p->len`, more of lwIP's calls on buffers, its checksums, and its ICMP.
pub record Calls (b : Pbufs) (A : Type 0) : Type 0 where
  pub len : Ptr → b.Heap → ℕ
  pub pbuf_realloc : Ptr → ℕ → b.Heap → b.Heap
  pub pbuf_header_force : Ptr → ℕ → b.Heap → b.Heap
  pub pbuf_chain : Ptr → Ptr → b.Heap → b.Heap
  -- the first bytes of the payload are overwritten
  pub write : Ptr → List ℕ → b.Heap → b.Heap
  pub inet_chksum : List ℕ → ℕ
  -- buffer, protocol, length, bytes covered, source and destination
  pub ip_chksum_pseudo_partial : Ptr → ℕ → ℕ → ℕ → ℕ → ℕ → b.Heap → ℕ
  pub ip_chksum_pseudo : Ptr → ℕ → ℕ → ℕ → ℕ → b.Heap → ℕ
  pub icmp_proto_unreach : Ptr → Core b A → Core b A
  pub icmp_port_unreach : Ptr → Core b A → Core b A

-- an input function of the layer above: the buffer and the interface
abbrev pub Handler : Pbufs → Type 0 → Type 0
Handler b A = Ptr → Netif → Cmd (Core b A) (Unit {0})

-- `pbuf_free(p)`
abbrev pub freed : {A : Type 0} (b : Pbufs) → Ptr → Core b A → Core b A
freed b p s = record s { heap = b.pbuf_free p s.heap }

-- `ip4_route`; the argument is `netif_default`
unfoldable pub ip4_route : Option Netif → ℕ → Option Netif
unfolding isloopback
ip4_route netif_default dest = elim netif_default [
  | none ↦ none
  | some netif ↦ if not netif.up || not netif.link_up || isloopback dest then none else some netif
]

-- `ip4_input_accept`
unfoldable pub ip4_input_accept : ℕ → Netif → Bool
unfolding isbroadcast
ip4_input_accept dest netif =
    netif.up && (dest == netif.ip_addr || isbroadcast dest netif || netif.ip_addr == addr_any)
