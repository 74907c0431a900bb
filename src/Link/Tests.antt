-- ===== src/Link/Tests.antt =====
-- Links at concrete inputs, over the concrete heap.
use tun2socket_lwip.Prelude.{
  one_outcome, ℕ, suc, ◌≡◌, ◌≢◌, refl, true, false, none, some, List, [], ◌∷◌, arith, drop, ◌==◌,
  if◌then◌else◌, ℤ, pos, ◌>>=◌, Cmd,
}
use tun2socket_lwip.Lwip.{Ptr, null, ErrT, err_ok}
use tun2socket_lwip.Lwip.Model.{Memory, pbufs, pbufs-PbufLaws}
use tun2socket_lwip.Queues
use tun2socket_lwip.Queues.{Queue}
use tun2socket_lwip.Queues.Holds.{Holds, zeroed-Holds}
use tun2socket_lwip.Queues.Overflow.{append_lem}
use tun2socket_lwip.Interface.{Interface, if_output, is_attached}
use tun2socket_lwip.Link.{
  Link, World, reads, waits, wrote, store, global_if_output, link_attach, link_close, link_free,
  link_read, link_write, inject_all, run_callback,
}
use tun2socket_lwip.Link.Attach.{
  attached, link_attach-new, new_link, link_attach_lem, link_close-stale, link_free-dangling,
}
use tun2socket_lwip.Link.Invariant.{IsWellFormed}
use tun2socket_lwip.Link.Output.{output-then-read}
use tun2socket_lwip.Link.Transmit.{write-then-poll}
use tun2socket_lwip.Link.Callback.{Outputs, begin, heap_changed, IsStack}
use tun2socket_lwip.Link.Poll.{polled, IsQuiet, poll_tx-strands}
use tun2socket_lwip.Link.System.{here, next, attach, write, Reach-IsWellFormed}
use tun2socket_lwip.Link.Write.{after_write, link_write-open}

-- the buffers 5 and 6 hold a packet each, and the next one is 7
abbrev memory : Memory
memory = record {
  next = 7;
  held = λ p. if p == 5 then 1 else if p == 6 then 1 else 0;
  bytes = λ p. if p == 5 then 69 ∷ 0 ∷ 1 ∷ [] else if p == 6 then 96 ∷ [] else [];
}

abbrev detached : Interface
detached = record {
  global_if = record {
    name = (b'e', b'n');
    num = 0;
    ip_addr = 0;
    netmask = 0;
    broadcast = false;
    output = none;
    state = null;
    mtu = 1500;
    up = true;
    link_up = true;
    is_default = true;
  };
  output_func = none;
  output_context = null;
}

abbrev nothing : World pbufs
nothing = record { heap = memory; iface = detached; links = λ _. none; mbox = [] }

-- the link at address 9, attached and idle
abbrev idle : World pbufs
idle = record nothing {
  iface = record detached { output_func = some if_output; output_context = 9 };
  links = store nothing.links 9 (some (new_link (pos 1500)));
}

-- a stack that takes every packet and frees it
abbrev sink : Ptr → Cmd (World pbufs) ErrT
sink p w = some (err_ok, record w { heap = pbufs.pbuf_free p w.heap })

sink-IsQuiet : IsQuiet pbufs sink
sink-IsQuiet p w = (err_ok, pbufs.pbuf_free p w.heap, refl)

sink-IsStack : IsStack pbufs sink
sink-IsStack p w w' r e =
    one_outcome (Outputs pbufs w) refl e (heap_changed begin (pbufs.pbuf_free p w.heap))

-- the link once packet 5 has been queued for the reader
abbrev one_received : Link
one_received = record (new_link (pos 1500)) {
  rx = (Queues.append pbufs.pbuf_free Queues.zeroed (5 ∷ []) memory).1;
}

one_received-Holds : Holds one_received.rx (5 ∷ [])
one_received-Holds = (append_lem pbufs.pbuf_free (5 ∷ []) memory zeroed-Holds).1

abbrev receiving : World pbufs
receiving = record idle { links = store idle.links 9 (some one_received) }

-- the buffers 1 to `n`, behind `xs`
abbrev buffers : ℕ → List Ptr → List Ptr
buffers ℕ.zero xs = xs
buffers (suc n) xs = buffers n (suc n ∷ xs)

-- a link with 40 packets to send, and its callback due
abbrev busy_link : Link
busy_link = record (new_link (pos 1500)) {
  tx = (Queues.append pbufs.pbuf_free Queues.zeroed (buffers 40 []) memory).1;
  tx_polling = true;
}

busy_link-Holds : Holds busy_link.tx (buffers 40 [])
busy_link-Holds = (append_lem pbufs.pbuf_free (buffers 40 []) memory zeroed-Holds).1

abbrev busy : World pbufs
busy = record idle { links = store idle.links 9 (some busy_link); mbox = 9 ∷ [] }

output-then-read_example :
    (w' : World pbufs) × ((global_if_output pbufs 5 >>= λ _. link_read pbufs 9 100) idle
      ≡ some (reads 3 (69 ∷ 0 ∷ 1 ∷ []), w'))
    × (pbufs.refs 5 w'.heap ≡ 1)
output-then-read_example =
    output-then-read pbufs idle 5 refl refl pbufs-PbufLaws 100 zeroed-Holds (omega arith)
      (omega arith) (omega arith)

poll_tx-strands_example :
    (w' : World pbufs) × (run_callback pbufs sink busy ≡ some (tt, w'))
    × (w'.links 9 ≡ some (polled busy_link))
    × (w'.mbox ≡ [])
    × Holds (polled busy_link).tx (drop 32 (buffers 40 []))
    × (drop 32 (buffers 40 []) ≢ [])
poll_tx-strands_example =
    poll_tx-strands pbufs sink 9 busy refl sink-IsQuiet busy_link-Holds (omega arith) [] refl

link_attach_lem_example :
    (w' : World pbufs) × (link_attach pbufs 9 (pos 0) nothing ≡ some (9, w'))
    × (w'.links 9 ≡ some (new_link (pos 0)))
    × Holds (new_link (pos 0)).rx []
    × Holds (new_link (pos 0)).tx []
    × (w'.iface.output_func ≡ some if_output)
    × (w'.iface.output_context ≡ 9)
    × ((other : Ptr) (mtu' : ℤ) → link_attach pbufs other mtu' w' ≡ some (null, w'))
unfolding is_attached
link_attach_lem_example = link_attach_lem pbufs 9 (pos 0) nothing refl (omega arith)

-- the link at 8 was closed before the one at 9 was attached
abbrev replaced : World pbufs
replaced = record idle {
  links = store idle.links 8 (some (record (new_link (pos 1500)) { closed = true }));
}

link_close-stale_example :
    (w' : World pbufs) × (link_close pbufs 8 replaced ≡ some (tt, w'))
    × (is_attached w'.iface ≡ false)
    × (w'.links 9 ≡ some (new_link (pos 1500)))
    × ((size : ℕ) → link_read pbufs 9 size w' ≡ some (waits, w'))
link_close-stale_example =
    link_close-stale pbufs 8 9 replaced (omega arith) refl refl refl zeroed-Holds

link_free-dangling_example :
    (w' : World pbufs) × (link_free pbufs 9 idle ≡ some (tt, w'))
    × (global_if_output pbufs 5 w' ≡ none)
link_free-dangling_example = link_free-dangling pbufs 5 9 idle refl refl refl

abbrev start : World pbufs
start = attached pbufs 9 (pos 1500) nothing

start_lem : link_attach pbufs 9 (pos 1500) nothing ≡ some (9, start)
unfolding is_attached
start_lem = link_attach-new pbufs 9 (pos 1500) nothing refl (omega arith)

-- attached, then written to
abbrev written : World pbufs
written = after_write pbufs 9 start {l = new_link (pos 1500)} refl (1 ∷ 2 ∷ []) err_ok

written_lem : link_write pbufs 9 (1 ∷ 2 ∷ []) err_ok start ≡ some (wrote 2, written)
written_lem = (link_write-open pbufs 9 start refl (1 ∷ 2 ∷ []) err_ok refl zeroed-Holds).0

Reach-IsWellFormed_example : IsWellFormed written
Reach-IsWellFormed_example =
    Reach-IsWellFormed pbufs sink sink-IsStack {w = nothing} (λ ctx. refl)
      (next (next here (attach 9 9 (pos 1500) refl start_lem))
        (write 9 (1 ∷ 2 ∷ []) err_ok (wrote 2) written_lem))

write-then-poll_example :
    (w' : World pbufs) × (l' : Link) × ((link_write pbufs 9 (1 ∷ 2 ∷ []) err_ok >>= λ _.
    run_callback pbufs sink)
        idle
      ≡ inject_all pbufs sink (7 ∷ []) w')
    × (pbufs.payload 7 w'.heap ≡ 1 ∷ 2 ∷ [])
    × (w'.mbox ≡ [])
    × (w'.links 9 ≡ some l')
    × (l'.tx_polling ≡ false)
    × Holds l'.tx []
write-then-poll_example =
    write-then-poll pbufs sink 9 idle refl (1 ∷ 2 ∷ []) pbufs-PbufLaws refl refl zeroed-Holds refl
      (omega arith) (omega arith)
