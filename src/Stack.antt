-- ===== src/Stack.antt =====
-- The parts put together: native/link.c and native/udp.c with the stack of lwip/ between them.
-- native/ keeps its packet buffers in the memory of the stack, so its operations run on a heap that is
-- the whole state of the stack.
pub mod Down
pub mod Emit
pub mod Inject
pub mod Bounds
mod Tests
use tun2socket_lwip.Prelude.{Option, none, some, List}
use tun2socket_lwip.Lwip.{Ptr, Pbufs, PbufLaws, SameBut}
use tun2socket_lwip.Interface.{Interface}
use tun2socket_lwip.Link.{Link, World, global_if_output}
use tun2socket_lwip.Udp.{Udps}
use tun2socket_lwip.Ip4.{Core, Calls}
use tun2socket_lwip.Ip4.Output.{NetifOutputFn}
use tun2socket_lwip.UdpIo.Output.{udp_sendto_if_src_port}

module _ (b : Pbufs) (A : Type 0) where
  abbrev on_heap : {R : Type 0} → (b.Heap → R × b.Heap) → Core b A → R × Core b A
  on_heap f s = let (r, h) = f s.heap in (r, record s { heap = h })

  -- the packet buffers of a stack
  abbrev pub lift : Pbufs
  lift = record {
    Heap = Core b A;
    payload = λ p s. b.payload p s.heap;
    refs = λ p s. b.refs p s.heap;
    pbuf_alloc = λ l n t. on_heap (b.pbuf_alloc l n t);
    pbuf_free = λ p s. record s { heap = b.pbuf_free p s.heap };
    pbuf_ref = λ p s. record s { heap = b.pbuf_ref p s.heap };
    pbuf_take = λ p xs. on_heap (b.pbuf_take p xs);
    pbuf_copy_partial = λ p n off s. b.pbuf_copy_partial p n off s.heap;
    pbuf_cat = λ p q s. record s { heap = b.pbuf_cat p q s.heap };
    pbuf_add_header = λ p n. on_heap (b.pbuf_add_header p n);
    pbuf_remove_header = λ p n. on_heap (b.pbuf_remove_header p n);
  }

  lift-SameBut : {p : Ptr} {s s' : Core b A} → SameBut b p s.heap s'.heap → SameBut lift p s s'
  lift-SameBut same = record { bytes = same.bytes; held = same.held }

  pub lift-PbufLaws : PbufLaws b → PbufLaws lift
  lift-PbufLaws laws = record {
    alloc_fresh = λ l n t s. laws.alloc_fresh l n t s.heap;
    alloc_same = λ l n t s. lift-SameBut (laws.alloc_same l n t s.heap);
    free_refs = λ p s. laws.free_refs p s.heap;
    free_bytes = λ p s. laws.free_bytes p s.heap;
    free_same = λ p s. lift-SameBut (laws.free_same p s.heap);
    ref_refs = λ p s. laws.ref_refs p s.heap;
    ref_bytes = λ p s. laws.ref_bytes p s.heap;
    ref_same = λ p s. lift-SameBut (laws.ref_same p s.heap);
    take_bytes = λ p xs s. laws.take_bytes p xs s.heap;
    take_refs = λ p xs s. laws.take_refs p xs s.heap;
    take_same = λ p xs s. lift-SameBut (laws.take_same p xs s.heap);
    copy_bytes = λ p n off s. laws.copy_bytes p n off s.heap;
    cat_bytes = λ p q s. laws.cat_bytes p q s.heap;
    cat_refs = λ p q s. laws.cat_refs p q s.heap;
    add_bytes = λ p n s. laws.add_bytes p n s.heap;
    add_refs = λ p n s. laws.add_refs p n s.heap;
    remove_bytes = λ p n s. laws.remove_bytes p n s.heap;
    remove_refs = λ p n s. laws.remove_refs p n s.heap;
  }

-- the interface and the links, below the stack
pub record Device : Type 0 where
  pub iface : Interface
  pub links : Ptr → Option Link
  pub mbox : List Ptr

module _ (b : Pbufs) where
  -- what native/link.c sees of the state
  abbrev pub link_world : Core b Device → World b
  link_world s = record {
    heap = s.heap;
    iface = s.app.iface;
    links = s.app.links;
    mbox = s.app.mbox;
  }

  abbrev pub with_link_world : Core b Device → World b → Core b Device
  with_link_world s w = record s {
    heap = w.heap;
    app = record { iface = w.iface; links = w.links; mbox = w.mbox };
  }

  -- `netif->output` of the interface is `global_if_output`
  unfoldable pub netif_output : NetifOutputFn b Device
  netif_output netif p dest s = elim (global_if_output b p (link_world s)) [
    | none ↦ none
    | some (err, w) ↦ some (err, with_link_world s w)
  ]

  -- The calls of udp.c with this stack's `udp_sendto_if_src_port` on `global_interface_get()`. A send
  -- that aborts, `none`, aborts `udp_poll_tx`.
  unfoldable pub sending : Calls b Device → Udps (lift b Device) → Udps (lift b Device)
  unfolding netif_output
  sending lwip others = record others {
    udp_sendto = λ pcb p dst dst_port src src_port s.
        elim (udp_sendto_if_src_port b lwip netif_output pcb p dst dst_port
          (some (s.app.iface.global_if)) src src_port s) [ none ↦ none | some (err, s') ↦ some s' ];
  }
