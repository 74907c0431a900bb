-- ===== src/Ip4/Output.antt =====
-- lwip/core/ipv4/ip4.c: `ip4_output_if_src`, `ip4_output_if` and `ip4_output`. IP_OPTIONS_SEND,
-- IP_FRAG and ENABLE_LOOPBACK are off, CHECKSUM_GEN_IP_INLINE is on.
pub mod Checksum
pub mod Sent
use tun2socket_lwip.Prelude.{
  ℕ, ◌+◌, ◌-◌, ◌*◌, ◌/◌, ◌%◌, ◌^◌, Bool, Option, none, some, List, [], ◌∷◌, ◌==◌, ltb,
  if◌then◌else◌, Cmd,
}
use tun2socket_lwip.Lwip.{Ptr, ErrT, err_buf, err_rte, Pbufs, tot_len}
use tun2socket_lwip.Interface.{Netif}
use tun2socket_lwip.Demux.{addr_any}
use tun2socket_lwip.Ip4.{Core, Calls, ip_hlen, dest_addr, ip4_route}

-- What is written to the header: IPH_TOS, IPH_LEN, IPH_ID, IPH_TTL, IPH_PROTO and the two addresses.
pub record Fields : Type 0 where
  pub tos : ℕ
  pub total : ℕ
  pub id : ℕ
  pub ttl : ℕ
  pub proto : ℕ
  pub src : ℕ
  pub dest : ℕ

-- IPH_VHL: version 4, and a header of five words
abbrev pub vhl : ℕ
vhl = 69

-- `lwip_htons`, and `PP_NTOHS`
pub swap : ℕ → ℕ
swap n = n % 2 ^ 8 * 2 ^ 8 + n / 2 ^ 8 % 2 ^ 8

-- `chk_sum` before it is folded
pub raw_sum : Fields → ℕ
unfolding swap
raw_sum f =
    swap (f.proto + f.ttl * 2 ^ 8)
    + f.dest % 2 ^ 16
    + f.dest / 2 ^ 16
    + swap (f.tos + vhl * 2 ^ 8)
    + swap f.total
    + swap f.id
    + f.src % 2 ^ 16
    + f.src / 2 ^ 16

-- `chk_sum` folded twice and complemented, as a `u16_t`
pub folded : ℕ → ℕ
folded sum = let once = sum / 2 ^ 16 + sum % 2 ^ 16 in 2 ^ 16 - 1 - (once / 2 ^ 16 + once) % 2 ^ 16

-- the bytes of a `u32_t` in memory
abbrev pub bytes32 : ℕ → List ℕ → List ℕ
bytes32 n rest = (n % 2 ^ 8) ∷ (n / 2 ^ 8 % 2 ^ 8) ∷ (n / 2 ^ 16 % 2 ^ 8) ∷ (n / 2 ^ 24) ∷ rest

-- the header in memory
pub ip_header : Fields → List ℕ
unfolding raw_sum folded
ip_header f =
    let chksum = folded (raw_sum f) in
    vhl
    ∷ f.tos
    ∷ (f.total / 2 ^ 8)
    ∷ (f.total % 2 ^ 8)
    ∷ (f.id / 2 ^ 8)
    ∷ (f.id % 2 ^ 8)
    ∷ 0
    ∷ 0
    ∷ f.ttl
    ∷ f.proto
    ∷ (chksum % 2 ^ 8)
    ∷ (chksum / 2 ^ 8)
    ∷ bytes32 f.src (bytes32 f.dest [])

-- `netif->output`: the interface, the buffer and the next hop
abbrev pub NetifOutputFn : Pbufs → Type 0 → Type 0
NetifOutputFn b A = Netif → Ptr → ℕ → Cmd (Core b A) ErrT

module _ (b : Pbufs) {A : Type 0} (lwip : Calls b A) (netif_output : NetifOutputFn b A) where
  -- the call through `netif->output`, which may be NULL
  pub send_down : Netif → Ptr → ℕ → Cmd (Core b A) ErrT
  send_down netif p dest s = elim (netif.output) [
    | none ↦ none
    | some f ↦ netif_output netif p dest s
  ]

  -- LWIP_IP_CHECK_PBUF_REF_COUNT_FOR_TX
  abbrev pub one_ref : Ptr → b.Heap → Bool
  one_ref p h = b.refs p h == 1

  -- the rest of `ip4_output_if_src`, behind its assertion
  pub put_header : Ptr → ℕ → Option ℕ → (ttl tos proto : ℕ) → Netif → Cmd (Core b A) ErrT
  unfolding ip_header send_down
  put_header p src none ttl tos proto netif s =
      if ltb (lwip.len p s.heap) ip_hlen
      then some (err_buf, s)
      else send_down netif p (dest_addr (b.payload p s.heap)) s
  put_header p src (some dest) ttl tos proto netif s =
      let added = b.pbuf_add_header p ip_hlen s.heap in
      let h1 = added.1 in
      let f : Fields = record {
        tos = tos;
        total = tot_len b p h1;
        id = s.ip_id;
        ttl = ttl;
        proto = proto;
        src = src;
        dest = dest;
      } in
      if added.0
      then some (err_buf, record s { heap = h1 })
      else if ltb (lwip.len p h1) ip_hlen
      then none
      else send_down netif p dest
          (record s { heap = lwip.write p (ip_header f) h1; ip_id = (s.ip_id + 1) % 2 ^ 16 })

  -- `ip4_output_if_src`, which aborts on a buffer that has not one reference; `none` for `dest` is
  -- LWIP_IP_HDRINCL, and NULL for `src` is `addr_any`
  pub ip4_output_if_src : Ptr → ℕ → Option ℕ → (ttl tos proto : ℕ) → Netif → Cmd (Core b A) ErrT
  unfolding put_header
  ip4_output_if_src p src dest ttl tos proto netif s =
      if one_ref p s.heap then put_header p src dest ttl tos proto netif s else none

  -- `ip4_output_if`
  pub ip4_output_if : Ptr → ℕ → Option ℕ → (ttl tos proto : ℕ) → Netif → Cmd (Core b A) ErrT
  unfolding ip4_output_if_src
  ip4_output_if p src none ttl tos proto netif s =
      ip4_output_if_src p src none ttl tos proto netif s
  ip4_output_if p src (some dest) ttl tos proto netif s =
      ip4_output_if_src p (if src == addr_any then netif.ip_addr else src) (some dest) ttl tos proto
        netif s

  -- `ip4_output`, with a destination
  pub ip4_output : Option Netif → Ptr → (src dest ttl tos proto : ℕ) → Cmd (Core b A) ErrT
  unfolding ip4_output_if
  ip4_output netif_default p src dest ttl tos proto s =
      if one_ref p s.heap
      then elim (ip4_route netif_default dest) [
        | none ↦ some (err_rte, s)
        | some netif ↦ ip4_output_if p src (some dest) ttl tos proto netif s
      ]
      else none
