-- ===== src/Link/Preserve.antt =====
-- Every operation of link.c keeps the invariant of the links.
use tun2socket_lwip.Prelude.{
  ℕ, ◌≡◌, refl, ◌∙◌, leb, true, none, some, List, [], ◌∷◌, ◌++◌, arith, ℤ, pos, ◌==◌, if◌then◌else◌,
  inl, inr, Bool-cases, Option-cases, one_outcome, ◌||◌,
}
use tun2socket_lwip.Lwip.{Ptr, null, ErrT, is_ok, Pbufs, tot_len}
use tun2socket_lwip.Queues.Holds.{Holds, zeroed-Holds, pop-take-drop}
use tun2socket_lwip.Interface.{OutputFunc, if_output, attach_device, default_mtu, is_attached}
use tun2socket_lwip.Link.{
  Link, World, ReadResult, WriteResult, store, load, save, deliver, reads, link_output,
  global_if_output, link_attach, link_close, link_free, link_read, link_write,
}
use tun2socket_lwip.Link.Attach.{
  link_free-gone, new_link, link_attach-busy, link_attach-null, link_attach-new,
}
use tun2socket_lwip.Link.Output.{global_if_output-detached, global_if_output_lem, received}
use tun2socket_lwip.Link.Read.{rx_popped, link_read-empty, link_read-cons}
use tun2socket_lwip.Link.Write.{link_write-closed, link_write-open, queued}
use tun2socket_lwip.Link.Invariant.{
  due, IsSound, IsWellFormed, due-snoc, update-IsWellFormed, keep-IsWellFormed,
}

deliver-heap :
    (b : Pbufs) (p : Ptr) (size : ℕ) (w : World b)
    → (r : ReadResult) × (h : b.Heap) × (deliver b p size w ≡ some (r, record w { heap = h }))
unfolding deliver
deliver-heap b p size w = (
  if p == null
      then reads 0 []
      else if leb (tot_len b p w.heap) size
      then reads (tot_len b p w.heap) (b.pbuf_copy_partial p (tot_len b p w.heap) 0 w.heap)
      else reads 0 [],
  if p == null then w.heap else b.pbuf_free p w.heap,
  ground arith,
)

module _ (b : Pbufs) (w : World b) (wf : IsWellFormed w) where
  link_write-fault :
      (ctx : Ptr) (buffer : List ℕ) (posted : ErrT)
      → w.links ctx ≡ none
      → link_write b ctx buffer posted w ≡ none
  unfolding link_write load
  link_write-fault ctx buffer posted e = ground arith

  write-schedules :
      (ctx : Ptr) {l : Link} (buffer : List ℕ) (posted : ErrT) (at_ctx : w.links ctx ≡ some l)
      → {sent : List Ptr} → Holds (queued b ctx w at_ctx buffer posted).1 sent
      → IsSound
          (record l {
            tx = (queued b ctx w at_ctx buffer posted).1;
            tx_polling = l.tx_polling || is_ok posted;
          })
          (due ctx (
            if l.tx_polling then w.mbox else if is_ok posted then w.mbox ++ (ctx ∷ []) else w.mbox))
  write-schedules ctx {l} buffer posted at_ctx {sent} h =
      let old = wf ctx l at_ctx in
      record {
        received = old.received;
        sent = sent;
        rx_holds = old.rx_holds;
        tx_holds = h;
        polls = ground (arith, old.polls, due-snoc ctx ctx w.mbox);
      }

  -- `link_write` keeps the invariant, whether or not lwIP accepts the callback.
  pub link_write-IsWellFormed :
      (ctx : Ptr) (buffer : List ℕ) (posted : ErrT) {r : WriteResult} {w' : World b}
      → link_write b ctx buffer posted w ≡ some (r, w')
      → IsWellFormed w'
  link_write-IsWellFormed ctx buffer posted e = elim (Option-cases (w.links ctx)) [
    | inl gone ↦ absurd (ground (arith, link_write-fault ctx buffer posted gone))
    | inr (l, at_ctx) ↦ elim (Bool-cases l.closed) [
      | inl closed ↦
          one_outcome IsWellFormed (link_write-closed b ctx w at_ctx buffer posted closed) e wf
      | inr open_ ↦
          let out = link_write-open b ctx w at_ctx buffer posted open_ (wf ctx l at_ctx).tx_holds in
          one_outcome IsWellFormed out.0 e (
            update-IsWellFormed w ctx _ (queued b ctx w at_ctx buffer posted).2 _ wf
              (write-schedules ctx buffer posted at_ctx out.1)
              (λ q ne. ground (arith, due-snoc q ctx w.mbox)))
    ]
  ]

  link_read-fault : (ctx : Ptr) (size : ℕ) → w.links ctx ≡ none → link_read b ctx size w ≡ none
  unfolding link_read load
  link_read-fault ctx size e = ground arith

  link_read-queue :
      (ctx : Ptr) (size : ℕ) {l : Link} {rs : List Ptr} {r : ReadResult} {w' : World b}
      → w.links ctx ≡ some l
      → Holds l.rx rs
      → link_read b ctx size w ≡ some (r, w')
      → IsWellFormed w'
  link_read-queue ctx size {rs = []} at_ctx h e =
      one_outcome IsWellFormed (link_read-empty b ctx w at_ctx size h) e wf
  link_read-queue ctx size {l} {rs = p ∷ ps} at_ctx h e =
      let out =
        deliver-heap b p size (record w { links = store w.links ctx (some (rx_popped l)) }) in
      one_outcome IsWellFormed (link_read-cons b ctx w at_ctx size h ∙ out.2) e (
        keep-IsWellFormed w ctx (rx_popped l) out.1 wf at_ctx (pop-take-drop 1 h).1
          (wf ctx l at_ctx).tx_holds refl)

  -- `link_read` keeps the invariant, whether it waits, fails or returns a packet.
  pub link_read-IsWellFormed :
      (ctx : Ptr) (size : ℕ) {r : ReadResult} {w' : World b}
      → link_read b ctx size w ≡ some (r, w')
      → IsWellFormed w'
  link_read-IsWellFormed ctx size e = elim (Option-cases (w.links ctx)) [
    | inl gone ↦ absurd (ground (arith, link_read-fault ctx size gone))
    | inr (l, at_ctx) ↦ link_read-queue ctx size at_ctx (wf ctx l at_ctx).rx_holds e
  ]

  link_close-fault : (ctx : Ptr) → w.links ctx ≡ none → link_close b ctx w ≡ none
  unfolding link_close load
  link_close-fault ctx e = ground arith

  link_close-lem :
      (ctx : Ptr) {l : Link}
      → w.links ctx ≡ some l
      → link_close b ctx w
        ≡ some (
          tt,
          record w {
            iface = attach_device none null (pos default_mtu) w.iface;
            links = store w.links ctx (some (record l { closed = true }));
          },
        )
  unfolding link_close load save
  link_close-lem ctx at_ctx = ground arith

  -- `link_close` keeps the invariant: what is queued stays queued.
  pub link_close-IsWellFormed :
      (ctx : Ptr) {w' : World b} → link_close b ctx w ≡ some (tt, w') → IsWellFormed w'
  link_close-IsWellFormed ctx e = elim (Option-cases (w.links ctx)) [
    | inl gone ↦ absurd (ground (arith, link_close-fault ctx gone))
    | inr (l, at_ctx) ↦
        let old = wf ctx l at_ctx in
        one_outcome IsWellFormed (link_close-lem ctx at_ctx) e (
          keep-IsWellFormed w ctx (record l { closed = true }) w.heap wf at_ctx old.rx_holds
            old.tx_holds refl)
  ]

  output-fault :
      (p : Ptr)
      → w.iface.output_func ≡ some if_output
      → w.links w.iface.output_context ≡ none
      → global_if_output b p w ≡ none
  unfolding global_if_output link_output load
  output-fault p on gone = ground arith

  output-attached :
      (p : Ptr) (f : OutputFunc) {r : ErrT} {w' : World b}
      → w.iface.output_func ≡ some f
      → global_if_output b p w ≡ some (r, w')
      → IsWellFormed w'
  output-attached p if_output on e =
      let ctx = w.iface.output_context in
      elim (Option-cases (w.links ctx)) [
        | inl gone ↦ absurd (ground (arith, output-fault p on gone))
        | inr (l, at_ctx) ↦
            let old = wf ctx l at_ctx in
            let out = global_if_output_lem b w p on at_ctx old.rx_holds in
            one_outcome IsWellFormed out.0 e (
              keep-IsWellFormed w ctx (record l { rx = (received b w p on at_ctx).1 })
                (received b w p on at_ctx).2 wf at_ctx out.1 old.tx_holds refl)
      ]

  -- The stack's output keeps the invariant.
  pub global_if_output-IsWellFormed :
      (p : Ptr) {r : ErrT} {w' : World b} → global_if_output b p w ≡ some (r, w') → IsWellFormed w'
  global_if_output-IsWellFormed p e = elim (Option-cases w.iface.output_func) [
    | inl off ↦ one_outcome IsWellFormed (global_if_output-detached b w p off) e wf
    | inr (f, on) ↦ output-attached p f on e
  ]

  link_free-fault : (ctx : Ptr) → w.links ctx ≡ none → link_free b ctx w ≡ none
  unfolding link_free load
  link_free-fault ctx e = ground arith

  -- A new link keeps the invariant, where no callback for its address is left.
  pub link_attach-IsWellFormed :
      (fresh : Ptr) (mtu : ℤ) {r : Ptr} {w' : World b}
      → due fresh w.mbox ≡ 0
      → link_attach b fresh mtu w ≡ some (r, w')
      → IsWellFormed w'
  link_attach-IsWellFormed fresh mtu clear e = elim (Bool-cases (is_attached w.iface)) [
    | inl busy ↦ one_outcome IsWellFormed (link_attach-busy b fresh mtu w busy) e wf
    | inr free ↦ elim (Bool-cases (fresh == null)) [
      | inl nil ↦ absurd (ground (arith, link_attach-null b mtu w fresh free nil))
      | inr ne ↦ one_outcome IsWellFormed (link_attach-new b fresh mtu w free (ground arith)) e (
          update-IsWellFormed w fresh (new_link mtu) w.heap w.mbox wf
            (record {
              received = [];
              sent = [];
              rx_holds = zeroed-Holds;
              tx_holds = zeroed-Holds;
              polls = clear;
            })
            (λ q ne'. refl))
    ]
  ]

  -- `link_free` keeps the invariant of the links that are left.
  pub link_free-IsWellFormed :
      (ctx : Ptr) {w' : World b} → link_free b ctx w ≡ some (tt, w') → IsWellFormed w'
  link_free-IsWellFormed ctx e = elim (Option-cases (w.links ctx)) [
    | inl gone ↦ absurd (ground (arith, link_free-fault ctx gone))
    | inr (l, at_ctx) ↦
        one_outcome IsWellFormed (link_free-gone b ctx w at_ctx) e
          (λ q l' at_q. wf q l' (ground arith))
  ]
