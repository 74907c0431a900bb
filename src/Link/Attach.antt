-- ===== src/Link/Attach.antt =====
-- `link_attach`, `link_close` and `link_free`: which link the interface sends to.
use tun2socket_lwip.Prelude.{ℕ, ◌≡◌, ◌≢◌, refl, true, false, none, some, [], arith, ℤ, pos, ◌==◌}
use tun2socket_lwip.Lwip.{Ptr, null, Pbufs}
use tun2socket_lwip.Queues
use tun2socket_lwip.Queues.Holds.{Holds, zeroed-Holds}
use tun2socket_lwip.Interface.{if_output, default_mtu, attach_device, is_attached}
use tun2socket_lwip.Link.{
  Link, World, waits, store, load, save, link_output, global_if_output, link_attach, link_close,
  link_free, link_read,
}
use tun2socket_lwip.Link.Read.{link_read-empty}

-- the link that `link_attach` allocates
abbrev pub new_link : ℤ → Link
new_link mtu = record {
  rx = Queues.zeroed;
  tx = Queues.zeroed;
  tx_polling = false;
  closed = false;
  mtu = mtu;
}

module _ (b : Pbufs) where
  -- `link_attach` on an attached interface returns NULL and changes nothing.
  pub link_attach-busy :
      (fresh : Ptr) (mtu : ℤ) (w : World b)
      → is_attached w.iface ≡ true
      → link_attach b fresh mtu w ≡ some (null, w)
  unfolding link_attach
  link_attach-busy fresh mtu w busy = ground arith

  -- the world once the link at `fresh` is attached
  abbrev pub attached : Ptr → ℤ → World b → World b
  attached fresh mtu w = record w {
    iface = attach_device (some if_output) fresh mtu w.iface;
    links = store w.links fresh (some (new_link mtu));
  }

  pub link_attach-new :
      (fresh : Ptr) (mtu : ℤ) (w : World b)
      → is_attached w.iface ≡ false
      → fresh ≢ null
      → link_attach b fresh mtu w ≡ some (fresh, attached fresh mtu w)
  unfolding link_attach
  link_attach-new fresh mtu w free ne = ground arith

  -- The code does not test what `malloc` returns.
  pub link_attach-null :
      (mtu : ℤ) (w : World b) (fresh : Ptr)
      → is_attached w.iface ≡ false
      → (fresh == null) ≡ true
      → link_attach b fresh mtu w ≡ none
  unfolding link_attach
  link_attach-null mtu w fresh free nil = ground arith

  -- On an interface with nothing attached, with memory for it, `link_attach` gives a new open link with both queues
  -- empty, and the interface then sends to it; a second attach then gets NULL.
  pub link_attach_lem :
      (fresh : Ptr) (mtu : ℤ) (w : World b)
      → is_attached w.iface ≡ false
      → fresh ≢ null
      → (w' : World b) × (link_attach b fresh mtu w ≡ some (fresh, w'))
        × (w'.links fresh ≡ some (new_link mtu))
        × Holds (new_link mtu).rx []
        × Holds (new_link mtu).tx []
        × (w'.iface.output_func ≡ some if_output)
        × (w'.iface.output_context ≡ fresh)
        × ((other : Ptr) (mtu' : ℤ) → link_attach b other mtu' w' ≡ some (null, w'))
  unfolding link_attach attach_device is_attached
  link_attach_lem fresh mtu w free ne = (
    attached fresh mtu w,
    link_attach-new fresh mtu w free ne,
    ground arith,
    zeroed-Holds,
    zeroed-Holds,
    refl,
    refl,
    λ other mtu'. refl,
  )

  -- `link_close` of one link detaches the interface whichever link it sends to: another link that is
  -- open with nothing received stays open and as it is, and its reader waits.
  pub link_close-stale :
      (old ctx : Ptr) (w : World b) {l l' : Link}
      → old ≢ ctx
      → w.links old ≡ some l
      → w.links ctx ≡ some l'
      → l'.closed ≡ false
      → Holds l'.rx []
      → (w' : World b) × (link_close b old w ≡ some (tt, w'))
        × (is_attached w'.iface ≡ false)
        × (w'.links ctx ≡ some l')
        × ((size : ℕ) → link_read b ctx size w' ≡ some (waits, w'))
  unfolding link_close load save attach_device is_attached
  link_close-stale old ctx w {l} {l'} ne at_old at_ctx open_ empty =
      let w' : World b = record w {
        iface = attach_device none null (pos default_mtu) w.iface;
        links = store w.links old (some (record l { closed = true }));
      } in
      let kept : w'.links ctx ≡ some l' = ground arith in
      (
        w',
        ground arith,
        refl,
        kept,
        λ size. ground (arith, link_read-empty b ctx w' kept size empty),
      )

  pub link_free-gone :
      (ctx : Ptr) (w : World b) {l : Link}
      → w.links ctx ≡ some l
      → link_free b ctx w ≡ some (tt, record w { links = store w.links ctx none })
  unfolding link_free load
  link_free-gone ctx w at_ctx = ground arith

  -- Freeing the link that the interface sends to, with no close before, leaves the interface with its
  -- address: if the next operation is the stack putting out a packet, it accesses freed memory.
  pub link_free-dangling :
      (p ctx : Ptr) (w : World b) {l : Link}
      → w.links ctx ≡ some l
      → w.iface.output_func ≡ some if_output
      → w.iface.output_context ≡ ctx
      → (w' : World b) × (link_free b ctx w ≡ some (tt, w')) × (global_if_output b p w' ≡ none)
  unfolding link_free global_if_output link_output load
  link_free-dangling p ctx w at_ctx on e =
      (record w { links = store w.links ctx none }, ground arith, ground arith)
