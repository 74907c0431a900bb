-- ===== src/Ip4/Input/Filter.antt =====
-- Which packets `ip4_input` hands up, at an interface that is up and has no address, as native/ sets
-- its interface up.
use tun2socket_lwip.Prelude.{
  ℕ, ◌≡◌, refl, ◌∙◌, ◌⊎◌, inl, inr, Bool, true, false, not, ◌&&◌, Option, none, some, List, ◌==◌,
  leb, take, arith, Bool-cases,
}
use tun2socket_lwip.Lwip.{Ptr, ErrT, err_ok, Pbufs, tot_len}
use tun2socket_lwip.Interface.{Netif}
use tun2socket_lwip.Ip4.{
  Core, freed, Calls, IpData, Handler, ismulticast, isbroadcast, ip_hlen, version, header_len,
  packet_len, fragment, protocol, src_addr, dest_addr, proto_udp, proto_tcp,
}
use tun2socket_lwip.Ip4.Input.{trimmed, dispatch, send_up, ip4_input_valid, ip4_input, no_packet}
use tun2socket_lwip.Ip4.Input.AnyAddress.{IsOpen, accepting-open}

module _ (b : Pbufs) {A : Type 0} (lwip : Calls b A) (p : Ptr) (inp : Netif) (s : Core b A) where
  abbrev pub ip_bytes : List ℕ
  ip_bytes = b.payload p s.heap

  -- the heap once the packet is cut to the length in its header
  abbrev pub cut : b.Heap
  cut = trimmed b lwip p (packet_len ip_bytes) s.heap

  -- a header of version 4, of at least 20 bytes, that lies in the first buffer
  abbrev pub well_formed : Bool
  well_formed =
      version ip_bytes == 4
      && leb ip_hlen (header_len ip_bytes)
      && leb (header_len ip_bytes) (lwip.len p cut)
      && leb (packet_len ip_bytes) (tot_len b p cut)
      && lwip.inet_chksum (take (header_len ip_bytes) ip_bytes) == 0

  -- from a host, not to a multicast address, and in one piece
  abbrev pub is_deliverable : Bool
  is_deliverable =
      not (isbroadcast (src_addr ip_bytes) inp)
      && not (ismulticast (src_addr ip_bytes))
      && not (ismulticast (dest_addr ip_bytes))
      && fragment ip_bytes == 0

  abbrev pub took : Bool
  took = well_formed && is_deliverable

  -- `ip_data` as the layer above sees it
  abbrev pub ip_packet : IpData
  ip_packet = record {
    current_netif = some inp;
    current_input_netif = some inp;
    current_ip4_header = ip_bytes;
    current_ip_header_tot_len = header_len ip_bytes;
    current_iphdr_src = src_addr ip_bytes;
    current_iphdr_dest = dest_addr ip_bytes;
  }

  -- the state that the layer above starts in
  abbrev pub entered : Core b A
  entered = record s {
    heap = (b.pbuf_remove_header p (header_len ip_bytes) cut).1;
    ip_data = ip_packet;
  }

  -- the packet is freed, and neither the application nor a control block is touched
  abbrev pub Dropped : Option (ErrT × Core b A) → Type 0
  Dropped out =
      (h : b.Heap) × (d : IpData) × ((h ≡ s.heap) ⊎ (h ≡ cut))
      × (out ≡ some (err_ok, freed b p (record s { heap = h; ip_data = d })))

-- `ip_data` cleared at the end
abbrev pub closed :
    {b : Pbufs} {A : Type 0} → Option (Unit {0} × Core b A) → Option (ErrT × Core b A)
closed none = none
closed (some (_, s)) = some (err_ok, record s { ip_data = no_packet })

module _ (b : Pbufs) {A : Type 0} (lwip : Calls b A) (udp_input tcp_input icmp_input : Handler b A)
    (p : Ptr) (inp : Netif) (s : Core b A) where
  abbrev pub input : Option (ErrT × Core b A)
  input = ip4_input b lwip udp_input tcp_input icmp_input p inp s

  abbrev pub handed : Option (ErrT × Core b A)
  handed =
      let iphdr = ip_bytes b lwip p inp s in
      closed (
        dispatch b lwip udp_input tcp_input icmp_input p inp inp (header_len iphdr) (protocol iphdr)
          (entered b lwip p inp s))

  -- the protocol of UDP
  pub handed-udp :
      protocol (ip_bytes b lwip p inp s) ≡ proto_udp
      → handed ≡ closed (udp_input p inp (entered b lwip p inp s))
  unfolding dispatch
  handed-udp e = ground arith

  -- the protocol of TCP
  pub handed-tcp :
      protocol (ip_bytes b lwip p inp s) ≡ proto_tcp
      → handed ≡ closed (tcp_input p inp (entered b lwip p inp s))
  unfolding dispatch
  handed-tcp e = ground arith

  abbrev valid : Option (ErrT × Core b A)
  valid =
      ip4_input_valid b lwip udp_input tcp_input icmp_input p inp (ip_bytes b lwip p inp s)
        (record s { heap = cut b lwip p inp s })

  ip4_input-well_formed : well_formed b lwip p inp s ≡ true → input ≡ valid
  unfolding ip4_input
  ip4_input-well_formed e = ground arith

  ip4_input-malformed : well_formed b lwip p inp s ≡ false → Dropped b lwip p inp s input
  unfolding ip4_input
  ip4_input-malformed e = elim (Bool-cases (version (ip_bytes b lwip p inp s) == 4)) [
    | inl four ↦ (cut b lwip p inp s, s.ip_data, inr refl, ground arith)
    | inr other ↦ (s.heap, s.ip_data, inl refl, ground arith)
  ]

  module _ (open_ : IsOpen inp) where
    valid-deliverable : is_deliverable b lwip p inp s ≡ true → valid ≡ handed
    unfolding ip4_input_valid send_up
    valid-deliverable e =
        let takes = accepting-open inp open_ (dest_addr (ip_bytes b lwip p inp s)) in
        ground (arith, takes)

    valid-other : is_deliverable b lwip p inp s ≡ false → Dropped b lwip p inp s valid
    unfolding ip4_input_valid
    valid-other e =
        let takes = accepting-open inp open_ (dest_addr (ip_bytes b lwip p inp s)) in
        (
          cut b lwip p inp s,
          record (s.ip_data) {
            current_iphdr_src = src_addr (ip_bytes b lwip p inp s);
            current_iphdr_dest = dest_addr (ip_bytes b lwip p inp s);
          },
          inr refl,
          ground (arith, takes),
        )

    -- At an interface that is up and has no address, a packet whose header is well formed
    -- and that comes from a host, to any address but a multicast one and in one piece, is
    -- handed to the protocol of its header, with its addresses in `ip_data`. Every other
    -- packet is freed, and changes neither the control blocks nor the application.
    pub ip4_input_lem :
        ((took b lwip p inp s ≡ true) × (input ≡ handed))
        ⊎ ((took b lwip p inp s ≡ false) × Dropped b lwip p inp s input)
    ip4_input_lem = elim (Bool-cases (well_formed b lwip p inp s)) [
      | inr bad ↦ inr (ground arith, ip4_input-malformed bad)
      | inl good ↦ elim (Bool-cases (is_deliverable b lwip p inp s)) [
        | inl one ↦ inl (ground arith, ip4_input-well_formed good ∙ valid-deliverable one)
        | inr other ↦
            let gone = valid-other other in
            inr (ground arith, (gone.0, gone.1, gone.2, ip4_input-well_formed good ∙ gone.3))
      ]
    ]
