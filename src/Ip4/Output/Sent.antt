-- ===== src/Ip4/Output/Sent.antt =====
-- What `ip4_output_if_src` hands to the interface.
use tun2socket_lwip.Prelude.{
  ℕ, ◌≡◌, ◌∙◌, ap, ◌+◌, ◌%◌, ◌^◌, false, true, some, List, ◌++◌, leb, length, drop, arith,
}
use tun2socket_lwip.Lwip.{Ptr, Pbufs, PbufLaws, tot_len}
use tun2socket_lwip.Interface.{Netif, NetifOutput}
use tun2socket_lwip.Ip4.{Core, Calls, ip_hlen}
use tun2socket_lwip.Ip4.Output.{
  Fields, ip_header, NetifOutputFn, ip4_output_if_src, put_header, send_down,
}

-- What lwIP documents of the first buffer of a chain: a header that could be added lies in it, and what
-- fits in it is written over its first bytes. Writing takes and gives no reference.
pub record CallLaws (b : Pbufs) {A : Type 0} (lwip : Calls b A) : Type 0 where
  pub add_len :
      (p : Ptr) (n : ℕ) (h : b.Heap)
      → (b.pbuf_add_header p n h).0 ≡ false
      → leb n (lwip.len p (b.pbuf_add_header p n h).1) ≡ true
  pub write_bytes :
      (p : Ptr) (xs : List ℕ) (h : b.Heap)
      → leb (length xs) (lwip.len p h) ≡ true
      → b.payload p (lwip.write p xs h) ≡ xs ++ drop (length xs) (b.payload p h)
  pub write_len :
      (p : Ptr) (xs : List ℕ) (h : b.Heap) → lwip.len p (lwip.write p xs h) ≡ lwip.len p h
  pub write_refs : (p : Ptr) (xs : List ℕ) (h : b.Heap) → b.refs p (lwip.write p xs h) ≡ b.refs p h

module _ (b : Pbufs) {A : Type 0} (lwip : Calls b A) (netif_output : NetifOutputFn b A) (p : Ptr)
    (src dest ttl tos proto : ℕ) (netif : Netif) (s : Core b A) where
  abbrev added : b.Heap
  added = (b.pbuf_add_header p ip_hlen s.heap).1

  -- the fields of the header, and the state once it is written
  abbrev pub fields : Fields
  fields = record {
    tos = tos;
    total = tot_len b p added;
    id = s.ip_id;
    ttl = ttl;
    proto = proto;
    src = src;
    dest = dest;
  }

  abbrev pub with_header : Core b A
  with_header = record s {
    heap = lwip.write p (ip_header fields) added;
    ip_id = (s.ip_id + 1) % 2 ^ 16;
  }

  module _ (laws : PbufLaws b) (call_laws : CallLaws b lwip) where
    pub ip4_output_if_src-room :
        {f : NetifOutput}
        → b.refs p s.heap ≡ 1
        → netif.output ≡ some f
        → (b.pbuf_add_header p ip_hlen s.heap).0 ≡ false
        → ip4_output_if_src b lwip netif_output p src (some dest) ttl tos proto netif s
          ≡ netif_output netif p dest with_header
    unfolding ip4_output_if_src put_header send_down
    ip4_output_if_src-room one set room =
        let long = call_laws.add_len p ip_hlen s.heap room in ground (arith, one, set, long)

    pub with_header-refs : b.refs p with_header.heap ≡ b.refs p s.heap
    with_header-refs =
        call_laws.write_refs p (ip_header fields) added ∙ laws.add_refs p ip_hlen s.heap

    pub with_header-bytes :
        (b.pbuf_add_header p ip_hlen s.heap).0 ≡ false
        → b.payload p with_header.heap ≡ ip_header fields ++ b.payload p s.heap
    unfolding ip_header
    with_header-bytes room =
        call_laws.write_bytes p (ip_header fields) added (call_laws.add_len p ip_hlen s.heap room)
        ∙ ap (λ r. ip_header fields ++ r) (laws.add_bytes p ip_hlen s.heap room).0
