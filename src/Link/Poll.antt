-- ===== src/Link/Poll.antt =====
-- `poll_tx`: what one callback hands to the stack, and what it leaves behind.
use tun2socket_lwip.Prelude.{
  ◌<◌, ◌≡◌, ◌≢◌, refl, ◌∙◌, false, some, List, [], ◌∷◌, arith, ◌==◌, ap, length, take, drop,
  if◌then◌else◌, Cmd, length-drop,
}
use tun2socket_lwip.Lwip.{Ptr, null, ErrT, err_ok, is_ok, Pbufs}
use tun2socket_lwip.Queues
use tun2socket_lwip.Queues.{Queue, release}
use tun2socket_lwip.Queues.Holds.{Holds, pop-take-drop}
use tun2socket_lwip.Link.{
  Link, World, store, load, save, inject_packet, inject_all, poll_tx, run_callback,
}

-- the link once a callback has taken its batch
abbrev pub polled : Link → Link
polled l = record l { tx_polling = false; tx = (Queues.pop l.tx 32).1 }

module _ (b : Pbufs) (input : Ptr → Cmd (World b) ErrT) where
  -- The stack's input neither faults nor touches a link's transmit side: it changes lwIP's heap only.
  abbrev pub IsQuiet : Type 0
  IsQuiet =
      (p : Ptr) (w : World b)
      → (e : ErrT) × (h : b.Heap) × (input p w ≡ some (e, record w { heap = h }))

  inject_packet-quiet :
      IsQuiet
      → (p : Ptr) (w : World b)
      → (h : b.Heap) × (inject_packet b input p w ≡ some (tt, record w { heap = h }))
  unfolding inject_packet
  inject_packet-quiet quiet p w =
      let given = quiet p w in
      (
        if p == null then w.heap else if is_ok given.0 then given.1 else b.pbuf_free p given.1,
        ground arith,
      )

  inject_all-quiet :
      IsQuiet
      → (ps : List Ptr) (w : World b)
      → (h : b.Heap) × (inject_all b input ps w ≡ some (tt, record w { heap = h }))
  unfolding inject_all
  inject_all-quiet quiet [] w = (w.heap, refl)
  inject_all-quiet quiet (p ∷ ps) w =
      let one = inject_packet-quiet quiet p w in
      let rest = inject_all-quiet quiet ps (record w { heap = one.0 }) in (rest.0, ground arith)

  -- a buffer alone, which the stack takes
  pub inject_all-one :
      (p : Ptr) (w : World b) {w' : World b}
      → p ≢ null
      → input p w ≡ some (err_ok, w')
      → inject_all b input (p ∷ []) w ≡ some (tt, w')
  unfolding inject_all inject_packet
  inject_all-one p w ne taken = ground (arith, taken)

  module _ (ctx : Ptr) (w : World b) {l : Link} (at_ctx : w.links ctx ≡ some l) where
    -- On a link with a well-formed queue `poll_tx` clears `tx_polling`, takes the 32 oldest packets, injects
    -- them in order and leaves the others queued.
    pub poll_tx_lem :
        {ps : List Ptr}
        → Holds l.tx ps
        → (poll_tx b input ctx w
            ≡ inject_all b input
                (take 32 ps)
                (record w { links = store w.links ctx (some (polled l)) }))
          × Holds (polled l).tx (drop 32 ps)
    unfolding poll_tx load save
    poll_tx_lem h = (ground (arith, (pop-take-drop 32 h).0), (pop-take-drop 32 h).1)

  -- With more than 32 packets queued, the callback next in the mailbox, and an input that touches lwIP's
  -- heap only, the callback runs to its end and leaves packets queued, with `tx_polling` clear and
  -- itself off the mailbox.
  pub poll_tx-strands :
      (ctx : Ptr) (w : World b) {l : Link}
      → w.links ctx ≡ some l
      → IsQuiet
      → {ps : List Ptr} → Holds l.tx ps
      → 32 < length ps
      → (rest : List Ptr) → w.mbox ≡ ctx ∷ rest
      → (w' : World b) × (run_callback b input w ≡ some (tt, w'))
        × (w'.links ctx ≡ some (polled l))
        × (w'.mbox ≡ rest)
        × Holds (polled l).tx (drop 32 ps)
        × (drop 32 ps ≢ [])
  unfolding run_callback
  poll_tx-strands ctx w {l} at_ctx quiet {ps} h many rest due =
      let start : World b = record w { mbox = rest } in
      let batch = poll_tx_lem ctx start at_ctx h in
      let mid : World b = record start { links = store w.links ctx (some (polled l)) } in
      let done = inject_all-quiet quiet (take 32 ps) mid in
      (
        record mid { heap = done.0 },
        rw due (batch.0 ∙ done.1),
        ground arith,
        refl,
        batch.1,
        λ e. omega (arith, length-drop 32 ps, ap length e),
      )
