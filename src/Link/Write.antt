-- ===== src/Link/Write.antt =====
-- `link_write`: what is queued for the stack, and the callback that it asks for.
use tun2socket_lwip.Prelude.{
  ℕ, ◌<◌, ◌^◌, ◌≡◌, ◌≢◌, sym, ap, ◌∙◌, true, false, some, List, [], ◌∷◌, ◌++◌, arith, length, take,
  drop, if◌then◌else◌, take-length, ◌||◌,
}
use tun2socket_lwip.Lwip.{Ptr, null, ErrT, is_ok, ip, pool, u16, Pbufs, PbufLaws}
use tun2socket_lwip.Lwip.Fill.{fill_lem}
use tun2socket_lwip.Queues
use tun2socket_lwip.Queues.{Queue}
use tun2socket_lwip.Queues.Holds.{Holds}
use tun2socket_lwip.Queues.Overflow.{release_all, excess, append_lem}
use tun2socket_lwip.Link.{Link, World, rejected, wrote, store, load, save, schedule, link_write}

schedule_lem :
    (b : Pbufs) (ctx : Ptr) (posted : ErrT) (l : Link) (w : World b)
    → schedule b ctx posted l w
      ≡ some (
        tt,
        record w {
          links = store w.links ctx (some (record l { tx_polling = l.tx_polling || is_ok posted }));
          mbox =
              if l.tx_polling
              then w.mbox
              else if is_ok posted
              then w.mbox ++ (ctx ∷ [])
              else w.mbox;
        },
      )
unfolding schedule save
schedule_lem b ctx posted l w = ground arith

module _ (b : Pbufs) (ctx : Ptr) (w : World b) {l : Link} (at_ctx : w.links ctx ≡ some l)
    (buffer : List ℕ) (posted : ErrT) where
  -- the buffer that `pbuf_alloc` gives, and the heap in which it is filled
  abbrev pub target : Ptr
  target = (b.pbuf_alloc ip (u16 (length buffer)) pool w.heap).0

  abbrev pub filled : b.Heap
  filled =
      (b.pbuf_take target (take (u16 (length buffer)) buffer)
        (b.pbuf_alloc ip (u16 (length buffer)) pool w.heap).1).1

  -- A closed link rejects the write, and the buffer that was filled for it is freed.
  pub link_write-closed :
      l.closed ≡ true
      → link_write b ctx buffer posted w
        ≡ some (rejected, record w { heap = b.pbuf_free target filled })
  unfolding link_write load
  link_write-closed closed = ground arith

  abbrev pub queued : ℕ × Queue × b.Heap
  queued = Queues.append b.pbuf_free l.tx (target ∷ []) filled

  -- the link and the callbacks that wait, after the write
  abbrev pub after_write : World b
  after_write = record w {
    heap = queued.2;
    links =
        store w.links ctx
          (some (record l { tx = queued.1; tx_polling = l.tx_polling || is_ok posted }));
    mbox = if l.tx_polling then w.mbox else if is_ok posted then w.mbox ++ (ctx ∷ []) else w.mbox;
  }

  -- On an open link with a well-formed queue the write queues its buffer last, frees the oldest of 256
  -- that wait, and asks for the callback `poll_tx` unless `tx_polling` is set; `tx_polling` is set
  -- after it if it was set before or lwIP accepted the callback. The result is the length given.
  pub link_write-open :
      {ps : List Ptr}
      → l.closed ≡ false
      → Holds l.tx ps
      → let all = ps ++ (target ∷ []) in
        (link_write b ctx buffer posted w ≡ some (wrote (length buffer), after_write))
        × Holds queued.1 (drop (excess (length all)) all)
        × (queued.2 ≡ release_all b.pbuf_free (take (excess (length all)) all) filled)
  unfolding link_write load
  link_write-open open_ h =
      let done = append_lem b.pbuf_free (target ∷ []) filled h in
      (
        ground (
          arith,
          schedule_lem b ctx posted (record l { tx = queued.1 }) (record w { heap = queued.2 }),
        ),
        done.1,
        done.2,
      )

  -- The buffer that a write queues holds what was written and has one reference, if lwIP had memory
  -- for it and the length fits its `u16_t`.
  pub filled_lem :
      PbufLaws b
      → target ≢ null
      → length buffer < 2 ^ 16
      → (b.payload target filled ≡ buffer) × (b.refs target filled ≡ 1)
  filled_lem laws ne short =
      let size : u16 (length buffer) ≡ length buffer = omega arith in
      let whole : take (u16 (length buffer)) buffer ≡ buffer = rw size (take-length buffer) in
      let full =
        fill_lem b laws ip (u16 (length buffer)) pool (take (u16 (length buffer)) buffer) w.heap
          (ap length whole ∙ sym size) ne in
      (full.0 ∙ whole, full.1)
