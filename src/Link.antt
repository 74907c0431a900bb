-- ===== src/Link.antt =====
-- native/link.c: the queues between the tunnel device and the stack.
-- A link is reached through its address, so the commands read and write it in a store; the access
-- to a link that is not allocated is a fault. A region under a mutex is one step. `mbox` holds the
-- callbacks `poll_tx` that lwIP has accepted and not run yet, by their argument.
pub mod Attach
pub mod Callback
pub mod Invariant
pub mod Output
pub mod Poll
pub mod Preserve
pub mod Read
mod Tests
pub mod System
pub mod Transmit
pub mod Write
use tun2socket_lwip.Prelude.{
  ℕ, ◌%◌, Bool, true, false, Option, none, some, List, [], ◌∷◌, ◌++◌, ◌==◌, leb, if◌then◌else◌,
  is_some, length, take, ℤ, pos, Cmd, pure, ◌>>=◌, ◌>>◌,
}
use tun2socket_lwip.Lwip.{
  Ptr, null, ErrT, err_ok, is_ok, Layer, ip, PbufType, pool, u16, Pbufs, tot_len,
}
use tun2socket_lwip.Queues
use tun2socket_lwip.Queues.{Queue}
use tun2socket_lwip.Interface.{Interface, if_output, default_mtu, attach_device, is_attached}

-- `struct link_t`, less its mutexes and its condition variable
pub record Link : Type 0 where
  pub rx : Queue
  pub tx : Queue
  pub tx_polling : Bool
  pub closed : Bool
  pub mtu : ℤ

-- the outcome of one pass of the loop of `link_read`: it waits on the condition variable, returns
-- -1, or returns a number and has filled the buffer with these bytes
pub data ReadResult : Type 0 where
  waits : ReadResult
  failed : ReadResult
  reads : ℕ → List ℕ → ReadResult

pub data WriteResult : Type 0 where
  rejected : WriteResult
  wrote : ℕ → WriteResult

pub record World (b : Pbufs) : Type 0 where
  pub heap : b.Heap
  pub iface : Interface
  pub links : Ptr → Option Link
  pub mbox : List Ptr

abbrev pub store : (Ptr → Option Link) → Ptr → Option Link → Ptr → Option Link
store links ctx l q = if ctx == q then l else links q

module _ (b : Pbufs) where
  -- `context->…` for a pointer to a link
  pub load : Ptr → Cmd (World b) Link
  load ctx w = elim (w.links ctx) [ none ↦ none | some l ↦ some (l, w) ]

  pub save : Ptr → Link → Cmd (World b) (Unit {0})
  save ctx l w = some (tt, record w { links = store w.links ctx (some l) })

  abbrev with_heap : {A : Type 0} → (b.Heap → A × b.Heap) → Cmd (World b) A
  with_heap f w = let (a, h) = f w.heap in some (a, record w { heap = h })

  abbrev on_heap : (b.Heap → b.Heap) → Cmd (World b) (Unit {0})
  on_heap f w = some (tt, record w { heap = f w.heap })

  -- `pbuf_queue_append(queue, &p, 1)`
  abbrev append_to : Queue → Ptr → Cmd (World b) Queue
  append_to queue p =
      with_heap
        λ h. let (_, queue', h') = Queues.append b.pbuf_free queue (p ∷ []) h in (queue', h')

  -- `if_output`, the device's end of the stack's output
  pub link_output : Ptr → Ptr → Cmd (World b) (Unit {0})
  link_output ctx p = do l ← load ctx; rx ← append_to l.rx p; save ctx (record l { rx = rx })

  -- `global_if_output` of interface.c: `netif->output`
  pub global_if_output : Ptr → Cmd (World b) ErrT
  global_if_output p w = elim w.iface.output_func [
    | none ↦ pure err_ok w
    | some if_output ↦
        (do on_heap (b.pbuf_ref p); link_output w.iface.output_context p; pure err_ok) w
  ]

  -- `link_attach`; `fresh` is what `malloc` returns, and NULL faults in `memset`
  pub link_attach : (fresh : Ptr) → ℤ → Cmd (World b) Ptr
  link_attach fresh mtu w =
      if is_attached w.iface
      then pure null w
      else if fresh == null
      then none
      else some (
        fresh,
        record w {
          iface = attach_device (some if_output) fresh mtu w.iface;
          links = store w.links fresh (
              some (record {
                rx = Queues.zeroed;
                tx = Queues.zeroed;
                tx_polling = false;
                closed = false;
                mtu = mtu;
              }));
        },
      )

  -- `link_close`
  pub link_close : Ptr → Cmd (World b) (Unit {0})
  link_close ctx w =
      (do l ← load ctx; save ctx (record l { closed = true }))
        (record w { iface = attach_device none null (pos default_mtu) w.iface })

  -- `link_free`
  pub link_free : Ptr → Cmd (World b) (Unit {0})
  link_free ctx = do l ← load ctx; λ w. some (tt, record w { links = store w.links ctx none })

  -- what `link_read` does with the buffer that it took from the queue
  pub deliver : Ptr → ℕ → Cmd (World b) ReadResult
  deliver source size w =
      if source == null
      then pure (reads 0 []) w
      else let total = tot_len b source w.heap in
        let result =
          if leb total size
          then reads total (b.pbuf_copy_partial source total 0 w.heap)
          else reads 0 [] in
        (do on_heap (b.pbuf_free source); pure result) w

  -- `link_read`, from one test of its loop to the next; `size` is not negative
  pub link_read : Ptr → ℕ → Cmd (World b) ReadResult
  unfolding deliver
  link_read ctx size = do
    l ← load ctx
    if Queues.count l.rx == 0 then (if l.closed then pure failed else pure waits) else (do
      let (out, rx) = Queues.pop l.rx 1
      save ctx (record l { rx = rx })
      elim out [ [] ↦ deliver null size | source ∷ _ ↦ deliver source size ])

  -- The end of `link_write`: `posted` is what `tcpip_try_callback` returns if it is called.
  pub schedule : Ptr → ErrT → Link → Cmd (World b) (Unit {0})
  schedule ctx posted l w =
      if l.tx_polling
      then save ctx l w
      else if is_ok posted
      then save ctx (record l { tx_polling = true }) (record w { mbox = w.mbox ++ (ctx ∷ []) })
      else save ctx l w

  -- `link_write`; the list is `buffer[0..size)`, and lengths go to lwIP as `u16_t`
  pub link_write : Ptr → List ℕ → ErrT → Cmd (World b) WriteResult
  link_write ctx buffer posted = do
    let size = length buffer
    target ← with_heap (b.pbuf_alloc ip (u16 size) pool)
    err ← with_heap (b.pbuf_take target (take (u16 size) buffer))
    l ← load ctx
    if l.closed then (do on_heap (b.pbuf_free target); pure rejected) else (do
      tx ← append_to l.tx target
      schedule ctx posted (record l { tx = tx })
      pure (wrote size))

  -- `netif->input` of the interface, `ip_input`: what the stack does with a packet
  module _ (input : Ptr → Cmd (World b) ErrT) where
    -- `global_interface_inject_packet` of interface.c
    pub inject_packet : Ptr → Cmd (World b) (Unit {0})
    inject_packet buf =
        if buf == null
        then pure tt
        else (do err ← input buf; if is_ok err then pure tt else on_heap (b.pbuf_free buf))

    pub inject_all : List Ptr → Cmd (World b) (Unit {0})
    inject_all [] = pure tt
    inject_all (p ∷ ps) = inject_packet p >> inject_all ps

    -- `poll_tx`
    pub poll_tx : Ptr → Cmd (World b) (Unit {0})
    poll_tx ctx = do
      l ← load ctx
      let (array, tx) = Queues.pop l.tx 32
      save ctx (record l { tx_polling = false; tx = tx })
      inject_all array

    -- The stack's thread runs the next callback.
    pub run_callback : Cmd (World b) (Unit {0})
    run_callback w = elim w.mbox [
      | [] ↦ pure tt w
      | ctx ∷ rest ↦ poll_tx ctx (record w { mbox = rest })
    ]
