-- ===== src/Link/Transmit.antt =====
-- `link_write` and the callback that it asks for, together: from the writer to the stack.
use tun2socket_lwip.Prelude.{
  ℕ, ◌<◌, ◌^◌, ◌≡◌, ◌≢◌, refl, ap, ◌∙◌, true, false, some, List, [], ◌∷◌, arith, length, Cmd, ◌>>=◌,
  bind_some, ◌||◌,
}
use tun2socket_lwip.Lwip.{Ptr, null, ErrT, err_ok, Pbufs, PbufLaws}
use tun2socket_lwip.Queues.Holds.{Holds}
use tun2socket_lwip.Queues.Overflow.{release_all}
use tun2socket_lwip.Link.{Link, World, store, link_write, poll_tx, inject_all, run_callback}
use tun2socket_lwip.Link.Poll.{polled, poll_tx_lem}
use tun2socket_lwip.Link.Write.{target, filled, queued, after_write, link_write-open, filled_lem}

run_due :
    (b : Pbufs) (input : Ptr → Cmd (World b) ErrT) (w : World b) {ctx : Ptr} {rest : List Ptr}
    → w.mbox ≡ ctx ∷ rest
    → run_callback b input w ≡ poll_tx b input ctx (record w { mbox = rest })
unfolding run_callback
run_due b input w e = rw e

module _ (b : Pbufs) (input : Ptr → Cmd (World b) ErrT) (ctx : Ptr) (w : World b) {l : Link}
    (at_ctx : w.links ctx ≡ some l) (buffer : List ℕ) where
  -- the link and the world when the stack gets the packet
  abbrev pub taken_up : Link
  taken_up =
      polled (record l {
        tx = (queued b ctx w at_ctx buffer err_ok).1;
        tx_polling = l.tx_polling || true;
      })

  abbrev pub at_input : World b
  at_input =
      let after = after_write b ctx w at_ctx buffer err_ok in
      record after { mbox = []; links = store after.links ctx (some taken_up) }

  pub write-then-poll-inject :
      l.closed ≡ false
      → l.tx_polling ≡ false
      → Holds l.tx []
      → w.mbox ≡ []
      → target b ctx w at_ctx buffer err_ok ≢ null
      → ((link_write b ctx buffer err_ok >>= λ _. run_callback b input) w
          ≡ inject_all b input (target b ctx w at_ctx buffer err_ok ∷ []) at_input)
        × (at_input.heap ≡ filled b ctx w at_ctx buffer err_ok)
        × (at_input.links ctx ≡ some taken_up)
        × Holds taken_up.tx []
  unfolding release_all
  write-then-poll-inject open_ idle empty none_due ne =
      let after = after_write b ctx w at_ctx buffer err_ok in
      let l1 : Link = record l {
        tx = (queued b ctx w at_ctx buffer err_ok).1;
        tx_polling = l.tx_polling || true;
      } in
      let out = link_write-open b ctx w at_ctx buffer err_ok open_ empty in
      let start : World b = record after { mbox = [] } in
      let there : start.links ctx ≡ some l1 = ground arith in
      let batch = poll_tx_lem b input ctx start there out.1 in
      let due : after.mbox ≡ ctx ∷ [] = ground arith in
      (
        bind_some (link_write b ctx buffer err_ok) (λ _. run_callback b input) w out.0
            ∙ run_due b input after due
            ∙ batch.0,
        out.2,
        ground arith,
        batch.1,
      )

  -- A packet below 65536 bytes written to an idle open link, with no callback waiting and memory for
  -- it, is what the next callback of the stack's thread injects, alone and byte for byte; the
  -- link's queue is then empty and no callback waits.
  pub write-then-poll :
      PbufLaws b
      → l.closed ≡ false
      → l.tx_polling ≡ false
      → Holds l.tx []
      → w.mbox ≡ []
      → target b ctx w at_ctx buffer err_ok ≢ null
      → length buffer < 2 ^ 16
      → let p = target b ctx w at_ctx buffer err_ok in
        (w' : World b) × (l' : Link) × ((link_write b ctx buffer err_ok >>= λ _.
        run_callback b input)
            w
          ≡ inject_all b input (p ∷ []) w')
        × (b.payload p w'.heap ≡ buffer)
        × (w'.mbox ≡ [])
        × (w'.links ctx ≡ some l')
        × (l'.tx_polling ≡ false)
        × Holds l'.tx []
  write-then-poll laws open_ idle empty none_due ne short =
      let p = target b ctx w at_ctx buffer err_ok in
      let sent = write-then-poll-inject open_ idle empty none_due ne in
      (
        at_input,
        taken_up,
        sent.0,
        ap (b.payload p) sent.1 ∙ (filled_lem b ctx w at_ctx buffer err_ok laws ne short).0,
        refl,
        sent.2,
        refl,
        sent.3,
      )
