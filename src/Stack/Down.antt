-- ===== src/Stack/Down.antt =====
-- From the stack to the reader of the tunnel device: `netif->output`, `pbuf_free` and `link_read`.
use tun2socket_lwip.Prelude.{ℕ, ◌+◌, ◌-◌, ◌<◌, ◌≤◌, ◌≡◌, ◌≢◌, ap, ◌∙◌, some, [], arith}
use tun2socket_lwip.Lwip.{Ptr, null, err_ok, Pbufs, PbufLaws, tot_len}
use tun2socket_lwip.Queues.Holds.{Holds}
use tun2socket_lwip.Queues.Overflow.{release_all}
use tun2socket_lwip.Interface.{Netif, if_output}
use tun2socket_lwip.Link.{Link, World, reads, store, link_read}
use tun2socket_lwip.Link.Output.{received, after_output, global_if_output_lem}
use tun2socket_lwip.Link.Read.{rx_popped, link_read_lem}
use tun2socket_lwip.Ip4.{Core, freed}
use tun2socket_lwip.Stack.{Device, link_world, with_link_world, netif_output}

-- the link is attached, and nothing waits for its reader
pub record IsReady (d : Device) (l : Link) : Type 0 where
  pub on : d.iface.output_func ≡ some if_output
  pub at_ctx : d.links d.iface.output_context ≡ some l
  pub empty : Holds l.rx []

module _ (b : Pbufs) (p : Ptr) (dest : ℕ) (netif : Netif) (s : Core b Device) where
  -- A packet that the stack puts out and lets go of is read next, and then lwIP has it back.
  pub netif_output-read :
      PbufLaws b
      → {l : Link} (size : ℕ) → IsReady s.app l
      → p ≢ null
      → 0 < b.refs p s.heap
      → tot_len b p s.heap ≤ size
      → (s' : Core b Device) × (netif_output b netif p dest s ≡ some (err_ok, s'))
        × ((w' : World b) × (link_read b s.app.iface.output_context size
                (link_world b (freed b p s'))
              ≡ some (reads (tot_len b p s.heap) (b.payload p s.heap), w'))
            × (b.refs p w'.heap ≡ b.refs p s.heap - 1))
  unfolding netif_output release_all
  netif_output-read laws {l} size ready ne live fits =
      let ctx = s.app.iface.output_context in
      let w = link_world b s in
      let out = global_if_output_lem b w p ready.on ready.at_ctx ready.empty in
      let w1 = after_output b w p ready.on ready.at_ctx in
      let l' : Link = record l { rx = (received b w p ready.on ready.at_ctx).1 } in
      let w2 : World b = record w1 { heap = b.pbuf_free p w1.heap } in
      let there : w2.links ctx ≡ some l' = ground arith in
      let refs : b.refs p w1.heap ≡ b.refs p s.heap + 1 =
        ap (b.refs p) out.2 ∙ laws.ref_refs p s.heap live in
      let bytes : b.payload p w2.heap ≡ b.payload p s.heap =
        laws.free_bytes p w1.heap (omega (arith, refs, live))
        ∙ ap (b.payload p) out.2
        ∙ laws.ref_bytes p s.heap in
      let read = (link_read_lem b ctx w2 there laws size out.1 ne).0 in
      (
        with_link_world b s w1,
        ground (arith, out.0),
        (
          record w2 {
            heap = b.pbuf_free p w2.heap;
            links = store w2.links ctx (some (rx_popped l'));
          },
          ground (arith, read, bytes),
          ground (arith, laws.free_refs p w1.heap, laws.free_refs p w2.heap, refs),
        ),
      )
