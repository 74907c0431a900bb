-- ===== src/Link/System.antt =====
-- The threads of the program as steps: the reader, the writer, the owner of the link and the
-- stack's thread, in any order.
use tun2socket_lwip.Prelude.{◌≡◌, none, some, List, ℕ, ℤ, Cmd, arith}
use tun2socket_lwip.Lwip.{Ptr, ErrT, Pbufs}
use tun2socket_lwip.Link.{
  World, ReadResult, WriteResult, link_attach, link_close, link_free, link_read, link_write,
  global_if_output, run_callback,
}
use tun2socket_lwip.Link.Callback.{IsStack, run_callback-IsWellFormed}
use tun2socket_lwip.Link.Invariant.{due, IsWellFormed}
use tun2socket_lwip.Link.Preserve.{
  link_write-IsWellFormed, link_read-IsWellFormed, link_close-IsWellFormed, link_free-IsWellFormed,
  global_if_output-IsWellFormed, link_attach-IsWellFormed,
}

module _ (b : Pbufs) (input : Ptr → Cmd (World b) ErrT) where
  -- One step that does not fault. What `malloc` gives is an address with no callback due.
  pub data Step (w w' : World b) : Type 0 where
    attach :
        (fresh r : Ptr) (mtu : ℤ)
        → due fresh w.mbox ≡ 0
        → link_attach b fresh mtu w ≡ some (r, w')
        → Step w w'
    close : (ctx : Ptr) → link_close b ctx w ≡ some (tt, w') → Step w w'
    free : (ctx : Ptr) → link_free b ctx w ≡ some (tt, w') → Step w w'
    read :
        (ctx : Ptr) (size : ℕ) (r : ReadResult) → link_read b ctx size w ≡ some (r, w') → Step w w'
    write :
        (ctx : Ptr) (buffer : List ℕ) (posted : ErrT) (r : WriteResult)
        → link_write b ctx buffer posted w ≡ some (r, w')
        → Step w w'
    output : (p : Ptr) (r : ErrT) → global_if_output b p w ≡ some (r, w') → Step w w'
    callback : run_callback b input w ≡ some (tt, w') → Step w w'

  pub data Reach (w : World b) : World b → Type 0 where
    here : Reach w w
    next : {u v : World b} → Reach w u → Step u v → Reach w v

  Step-IsWellFormed :
      IsStack b input → {w w' : World b} → Step w w' → IsWellFormed w → IsWellFormed w'
  Step-IsWellFormed quiet {w} (attach fresh r mtu clear e) wf =
      link_attach-IsWellFormed b w wf fresh mtu clear e
  Step-IsWellFormed quiet {w} (close ctx e) wf = link_close-IsWellFormed b w wf ctx e
  Step-IsWellFormed quiet {w} (free ctx e) wf = link_free-IsWellFormed b w wf ctx e
  Step-IsWellFormed quiet {w} (read ctx size r e) wf = link_read-IsWellFormed b w wf ctx size e
  Step-IsWellFormed quiet {w} (write ctx buffer posted r e) wf =
      link_write-IsWellFormed b w wf ctx buffer posted e
  Step-IsWellFormed quiet {w} (output p r e) wf = global_if_output-IsWellFormed b w wf p e
  Step-IsWellFormed quiet {w} (callback e) wf = run_callback-IsWellFormed b w wf input quiet e

  -- Started with no link allocated, and with a stack whose input reaches the links by putting packets
  -- out only, every interleaving of the operations in which no operation faults and `malloc` gives
  -- no address that a callback is still due for leaves each link with both queues in order, and
  -- with exactly one callback due if `tx_polling` is set and none if it is clear.
  pub Reach-IsWellFormed :
      IsStack b input
      → {w w' : World b} → ((ctx : Ptr) → w.links ctx ≡ none)
      → Reach w w'
      → IsWellFormed w'
  Reach-IsWellFormed quiet empty here = λ ctx l e. absurd (ground (arith, empty ctx))
  Reach-IsWellFormed quiet empty (next r s) =
      Step-IsWellFormed quiet s (Reach-IsWellFormed quiet empty r)
