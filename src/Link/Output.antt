-- ===== src/Link/Output.antt =====
-- `global_if_output` and `if_output`: from the stack to the reader.
use tun2socket_lwip.Prelude.{
  ℕ, ◌≤◌, ◌<◌, ◌≡◌, ◌≢◌, none, some, List, [], ◌∷◌, ◌++◌, arith, length, take, drop, ◌>>=◌,
}
use tun2socket_lwip.Lwip.{Ptr, null, err_ok, Pbufs, PbufLaws, tot_len}
use tun2socket_lwip.Queues
use tun2socket_lwip.Queues.{Queue}
use tun2socket_lwip.Queues.Holds.{Holds}
use tun2socket_lwip.Queues.Overflow.{release_all, excess, append_lem}
use tun2socket_lwip.Interface.{if_output}
use tun2socket_lwip.Link.{
  Link, World, reads, store, load, save, link_output, global_if_output, link_read,
}
use tun2socket_lwip.Link.Read.{rx_popped, link_read_lem}

module _ (b : Pbufs) (w : World b) (p : Ptr) where
  -- Without a device the stack's output is dropped, and reported as sent.
  pub global_if_output-detached :
      w.iface.output_func ≡ none → global_if_output b p w ≡ some (err_ok, w)
  unfolding global_if_output
  global_if_output-detached e = ground arith

  module _ {l : Link} (on : w.iface.output_func ≡ some if_output)
      (at_ctx : w.links w.iface.output_context ≡ some l) where
    -- what `pbuf_queue_append` makes of the link's queue and of the heap
    abbrev pub received : ℕ × Queue × b.Heap
    received = Queues.append b.pbuf_free l.rx (p ∷ []) (b.pbuf_ref p w.heap)

    abbrev pub after_output : World b
    after_output = record w {
      heap = received.2;
      links = store w.links w.iface.output_context (some (record l { rx = received.1 }));
    }

    -- With a link attached, a packet that the stack puts out is referenced once more and queued last
    -- for the reader; the packets queued before stay, but for the oldest of 256, which is freed.
    pub global_if_output_lem :
        {ps : List Ptr}
        → Holds l.rx ps
        → let all = ps ++ (p ∷ []) in
          let over = excess (length all) in
          (global_if_output b p w ≡ some (err_ok, after_output))
          × Holds received.1 (drop over all)
          × (received.2 ≡ release_all b.pbuf_free (take over all) (b.pbuf_ref p w.heap))
    unfolding global_if_output link_output load save
    global_if_output_lem h =
        let queued = append_lem b.pbuf_free (p ∷ []) (b.pbuf_ref p w.heap) h in
        (ground arith, queued.1, queued.2)

    -- With a link attached and nothing queued for its reader, a live packet that the stack puts out
    -- and that fits in `size` bytes is what the next read gets, byte for byte, and the references to
    -- it are as many as before.
    pub output-then-read :
        PbufLaws b
        → (size : ℕ) → Holds l.rx []
        → p ≢ null
        → 0 < b.refs p w.heap
        → tot_len b p w.heap ≤ size
        → (w' : World b) × ((global_if_output b p >>= λ _. link_read b w.iface.output_context size)
              w
            ≡ some (reads (tot_len b p w.heap) (b.payload p w.heap), w'))
          × (b.refs p w'.heap ≡ b.refs p w.heap)
    unfolding release_all
    output-then-read laws size h ne live fits =
        let ctx = w.iface.output_context in
        let l' : Link = record l { rx = received.1 } in
        let out = global_if_output_lem h in
        let there : after_output.links ctx ≡ some l' = ground arith in
        let same : b.payload p received.2 ≡ b.payload p w.heap =
          rw out.2 (laws.ref_bytes p w.heap) in
        let read = (link_read_lem b ctx after_output there laws size out.1 ne).0 in
        (
          record after_output {
            heap = b.pbuf_free p received.2;
            links = store after_output.links ctx (some (rx_popped l'));
          },
          ground arith,
          ground (arith, laws.free_refs p received.2, laws.ref_refs p w.heap),
        )
