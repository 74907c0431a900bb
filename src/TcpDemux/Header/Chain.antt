-- ===== src/TcpDemux/Header/Chain.antt =====
-- What lwIP documents of the buffers of a chain.
use tun2socket_lwip.Prelude.{ℕ, ◌-◌, ◌<◌, ◌≤◌, ◌≡◌, ◌≢◌, false, drop}
use tun2socket_lwip.Lwip.{Ptr, null, Pbufs, tot_len}
use tun2socket_lwip.Ip4.{Calls}
use tun2socket_lwip.TcpDemux.Header.{Chains}

-- What lwIP documents of a chain: its first buffer is `p->len` of its bytes, and the others are the
-- chain behind `p->next`. Bytes that the first buffer has can be removed, which leaves the others, and
-- is counted in the `tot_len` of that buffer alone; an assignment to it changes no other.
pub record ChainLaws (b : Pbufs) {A : Type 0} (lwip : Calls b A) (chains : Chains b) : Type 0 where
  pub len_le : (p : Ptr) (h : b.Heap) → lwip.len p h ≤ tot_len b p h
  pub next_set : (p : Ptr) (h : b.Heap) → lwip.len p h < tot_len b p h → chains.next p h ≢ null
  pub next_bytes :
      (p : Ptr) (h : b.Heap)
      → chains.next p h ≢ null
      → drop (lwip.len p h) (b.payload p h) ≡ b.payload (chains.next p h) h
  pub remove_ok :
      (p : Ptr) (n : ℕ) (h : b.Heap) → n ≤ lwip.len p h → (b.pbuf_remove_header p n h).0 ≡ false
  pub remove_bytes :
      (p : Ptr) (n : ℕ) (h : b.Heap)
      → (b.pbuf_remove_header p n h).0 ≡ false
      → b.payload p (b.pbuf_remove_header p n h).1 ≡ drop n (b.payload p h)
  pub remove_len :
      (p : Ptr) (n : ℕ) (h : b.Heap)
      → n ≤ lwip.len p h
      → lwip.len p (b.pbuf_remove_header p n h).1 ≡ lwip.len p h - n
  pub remove_next :
      (p : Ptr) (n : ℕ) (h : b.Heap)
      → chains.next p (b.pbuf_remove_header p n h).1 ≡ chains.next p h
  pub remove_next_len :
      (p : Ptr) (n : ℕ) (h : b.Heap)
      → chains.next p h ≢ null
      → lwip.len (chains.next p h) (b.pbuf_remove_header p n h).1 ≡ lwip.len (chains.next p h) h
  pub remove_behind :
      (p : Ptr) (n : ℕ) (h : b.Heap)
      → chains.next p h ≢ null
      → let h' = (b.pbuf_remove_header (chains.next p h) n h).1 in
        (lwip.len p h' ≡ lwip.len p h)
        × (chains.next p h' ≡ chains.next p h)
        × (chains.tot p h' ≡ chains.tot p h)
  pub remove_tot :
      (p : Ptr) (n : ℕ) (h : b.Heap)
      → n ≤ lwip.len p h
      → chains.tot p (b.pbuf_remove_header p n h).1 ≡ chains.tot p h - n
  pub remove_next_tot :
      (p : Ptr) (n : ℕ) (h : b.Heap)
      → chains.next p h ≢ null
      → chains.tot (chains.next p h) (b.pbuf_remove_header p n h).1 ≡ chains.tot (chains.next p h) h
  pub set_tot :
      (p : Ptr) (n : ℕ) (h : b.Heap)
      → chains.next p h ≢ null
      → let h' = chains.set_tot_len p n h in
        (chains.tot p h' ≡ n) × (chains.tot (chains.next p h) h' ≡ chains.tot (chains.next p h) h)
  pub set_bytes :
      (p q : Ptr) (n : ℕ) (h : b.Heap) → b.payload q (chains.set_tot_len p n h) ≡ b.payload q h
  pub set_len :
      (p q : Ptr) (n : ℕ) (h : b.Heap) → lwip.len q (chains.set_tot_len p n h) ≡ lwip.len q h

-- The `tot_len` of a buffer, and of the next one, is the number of bytes from there on.
pub record IsCounted (b : Pbufs) (chains : Chains b) (p : Ptr) (h : b.Heap) : Type 0 where
  pub tot_eq : chains.tot p h ≡ tot_len b p h
  pub next_eq :
      chains.next p h ≢ null → chains.tot (chains.next p h) h ≡ tot_len b (chains.next p h) h
