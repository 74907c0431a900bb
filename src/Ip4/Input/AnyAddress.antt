-- ===== src/Ip4/Input/AnyAddress.antt =====
-- The interface of native/interface.c as lwip/core/ipv4/ip4.c sees it: what it takes, and what is
-- routed to it.
use tun2socket_lwip.Prelude.{
  ℕ, ◌≡◌, refl, ap, ◌∙◌, true, none, some, if◌then◌else◌, arith, Option-cases, inl, inr,
}
use tun2socket_lwip.Lwip.{ErrT}
use tun2socket_lwip.Interface.{
  Netif, Netifs, Interface, global_if_init, global_interface_init, default_mtu,
}
use tun2socket_lwip.Demux.{addr_any}
use tun2socket_lwip.Ip4.{ip4_route, ip4_input_accept, isloopback, ismulticast}
use tun2socket_lwip.Ip4.Input.{accepting}

-- What lwIP documents of its calls on interfaces, callbacks on their state being off: `netif_add`
-- without addresses leaves an interface with none, and each of the others sets its flag.
pub record NetifLaws (lwip : Netifs) : Type 0 where
  pub add_eq :
      (n n' : Netif) (init : Netif → ErrT × Netif)
      → lwip.netif_add n init ≡ some n'
      → n' ≡ (init (lwip.cleared n)).1
  pub cleared_addr : (n : Netif) → (lwip.cleared n).ip_addr ≡ addr_any
  pub set_up_eq : (n : Netif) → lwip.netif_set_up n ≡ record n { up = true }
  pub set_link_up_eq : (n : Netif) → lwip.netif_set_link_up n ≡ record n { link_up = true }
  pub set_default_eq : (n : Netif) → lwip.netif_set_default n ≡ record n { is_default = true }

-- an interface that is up and has no address
pub record IsOpen (n : Netif) : Type 0 where
  pub up_eq : n.up ≡ true
  pub link_up_eq : n.link_up ≡ true
  pub addr_eq : n.ip_addr ≡ addr_any

module _ (n : Netif) (open_ : IsOpen n) where
  pub accepting-open : (dest : ℕ) → accepting dest n ≡ (if ismulticast dest then none else some n)
  unfolding accepting ip4_input_accept
  accepting-open dest = let up = open_.up_eq in let any_addr = open_.addr_eq in ground arith

  pub ip4_route-open :
      (dest : ℕ) → ip4_route (some n) dest ≡ (if isloopback dest then none else some n)
  unfolding ip4_route
  ip4_route-open dest = let up = open_.up_eq in let link_up = open_.link_up_eq in ground arith

module _ (lwip : Netifs) (laws : NetifLaws lwip) where
  pub init-IsOpen :
      (i i' : Interface) → global_interface_init lwip i ≡ some i' → IsOpen i'.global_if
  unfolding global_interface_init global_if_init
  init-IsOpen i i' e = elim (Option-cases (lwip.netif_add i.global_if global_if_init)) [
    | inl failed ↦ absurd (ground (arith, e, failed))
    | inr (n, added) ↦
        let n1 = record n { mtu = default_mtu } in
        let made : lwip.netif_set_default (lwip.netif_set_link_up (lwip.netif_set_up n1))
            ≡ record n1 { up = true; link_up = true; is_default = true } =
          rw (laws.set_up_eq n1, laws.set_link_up_eq, laws.set_default_eq) refl in
        let addr : n.ip_addr ≡ addr_any =
          ap (λ m. m.ip_addr) (laws.add_eq i.global_if n global_if_init added)
          ∙ laws.cleared_addr i.global_if in
        let done : i'.global_if ≡ record n1 { up = true; link_up = true; is_default = true } =
          ground (arith, e, added, made) in
        record {
          up_eq = ap (λ m. m.up) done;
          link_up_eq = ap (λ m. m.link_up) done;
          addr_eq = ap (λ m. m.ip_addr) done ∙ addr;
        }
  ]

  -- Once `global_interface_init` has returned, `ip4_input` takes a packet for every address but a
  -- multicast one, and `ip4_route` finds the interface for every address but a loopback one.
  pub init-any_address :
      (i i' : Interface) (dest : ℕ)
      → global_interface_init lwip i ≡ some i'
      → (accepting dest i'.global_if ≡ (if ismulticast dest then none else some i'.global_if))
        × (ip4_route (some i'.global_if) dest
            ≡ (if isloopback dest then none else some i'.global_if))
  init-any_address i i' dest e =
      let open_ = init-IsOpen i i' e in
      (accepting-open i'.global_if open_ dest, ip4_route-open i'.global_if open_ dest)
