-- ===== src/Link/Read.antt =====
-- `link_read`: the branches, and the way of a packet from the stack to the reader.
use tun2socket_lwip.Prelude.{
  ℕ, ◌≡◌, ◌≢◌, some, List, [], ◌∷◌, arith, leb, if◌then◌else◌, take-length,
}
use tun2socket_lwip.Lwip.{Ptr, null, Pbufs, PbufLaws, tot_len}
use tun2socket_lwip.Queues
use tun2socket_lwip.Queues.{Queue}
use tun2socket_lwip.Queues.Holds.{Holds, count-length, pop-take-drop}
use tun2socket_lwip.Link.{Link, World, store, waits, failed, reads, load, save, deliver, link_read}

-- the link once its oldest received packet is gone
abbrev pub rx_popped : Link → Link
rx_popped l = record l { rx = (Queues.pop l.rx 1).1 }

module _ (b : Pbufs) (ctx : Ptr) (w : World b) {l : Link} (at_ctx : w.links ctx ≡ some l) where
  -- A reader of an open link with nothing queued waits, and one of a closed link gets -1; the world
  -- stays as it is.
  pub link_read-empty :
      (size : ℕ)
      → Holds l.rx []
      → link_read b ctx size w ≡ some (if l.closed then failed else waits, w)
  unfolding link_read load
  link_read-empty size h = ground (arith, count-length h)

  -- Otherwise the oldest packet is taken, also from a closed link.
  pub link_read-cons :
      (size : ℕ) {p : Ptr} {ps : List Ptr}
      → Holds l.rx (p ∷ ps)
      → link_read b ctx size w
        ≡ deliver b p size (record w { links = store w.links ctx (some (rx_popped l)) })
  unfolding link_read load save
  link_read-cons size h = ground (arith, count-length h, (pop-take-drop 1 h).0)

  -- `link_read` on a link with packets queued, the oldest not NULL, the link open or closed, hands out the oldest one whole if it
  -- fits in `size` bytes and 0 bytes of it if not. Either way it frees that packet once, leaves the
  -- later packets queued in order, and touches no other link.
  pub link_read_lem :
      PbufLaws b
      → (size : ℕ) {p : Ptr} {ps : List Ptr} → Holds l.rx (p ∷ ps)
      → p ≢ null
      → (link_read b ctx size w
          ≡ some (
            if leb (tot_len b p w.heap) size
                then reads (tot_len b p w.heap) (b.payload p w.heap)
                else reads 0 [],
            record w {
              heap = b.pbuf_free p w.heap;
              links = store w.links ctx (some (rx_popped l));
            },
          ))
        × Holds (rx_popped l).rx ps
  unfolding deliver
  link_read_lem laws size {p} h ne = (
    ground (
      arith,
      link_read-cons size h,
      laws.copy_bytes p (tot_len b p w.heap) 0 w.heap,
      take-length (b.payload p w.heap),
    ),
    (pop-take-drop 1 h).1,
  )
