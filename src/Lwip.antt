-- ===== src/Lwip.antt =====
-- What native/ takes from lwIP: its error codes, and its packet buffers as an interface.
-- The heap of lwIP is abstract. `payload` and `refs` observe it: the bytes of the chain behind a
-- pointer, and how many references to it are held. `PbufLaws` states lwIP's documentation of the
-- calls in these terms.
pub mod Fill
pub mod Model
use tun2socket_lwip.Prelude.{
  ℕ, ◌+◌, ◌-◌, ◌%◌, ◌^◌, ◌≤◌, ◌<◌, ◌≡◌, ◌≢◌, Bool, true, false, List, ◌++◌, ◌==◌, length, take,
  drop,
}

-- A `struct pbuf *`, or another address; 0 is NULL.
abbrev pub Ptr : Type 0
Ptr = ℕ

abbrev pub null : Ptr
null = 0

-- `err_enum_t`
pub data ErrT : Type 0 where
  err_ok err_mem err_buf err_timeout err_rte err_inprogress err_val err_wouldblock err_use : ErrT
  err_already err_isconn err_conn err_if err_abrt err_rst err_clsd err_arg : ErrT

-- `err == ERR_OK`
abbrev pub is_ok : ErrT → Bool
is_ok err_ok = true
is_ok _ = false

-- the `pbuf_layer` and the `pbuf_type` that native/ passes to `pbuf_alloc`
pub data Layer : Type 0 where
  transport ip raw : Layer

pub data PbufType : Type 0 where
  ram pool : PbufType

-- conversion of an `int` that is not negative to `u16_t`
abbrev pub u16 : ℕ → ℕ
u16 n = n % 2 ^ 16

pub record Pbufs : Type 1 where
  pub Heap : Type 0
  pub payload : Ptr → Heap → List ℕ
  pub refs : Ptr → Heap → ℕ
  pub pbuf_alloc : Layer → ℕ → PbufType → Heap → Ptr × Heap
  pub pbuf_free : Ptr → Heap → Heap
  pub pbuf_ref : Ptr → Heap → Heap
  -- the bytes are `dataptr[0..len)`
  pub pbuf_take : Ptr → List ℕ → Heap → ErrT × Heap
  -- length and offset; the bytes copied
  pub pbuf_copy_partial : Ptr → ℕ → ℕ → Heap → List ℕ
  pub pbuf_cat : Ptr → Ptr → Heap → Heap
  -- `true` is failure
  pub pbuf_add_header : Ptr → ℕ → Heap → Bool × Heap
  pub pbuf_remove_header : Ptr → ℕ → Heap → Bool × Heap

-- `p->tot_len`
abbrev pub tot_len : (b : Pbufs) → Ptr → b.Heap → ℕ
tot_len b p h = length (b.payload p h)

-- A call that is about `p` alone leaves the bytes and the references of the others as they are.
pub record SameBut (b : Pbufs) (p : Ptr) (h h' : b.Heap) : Type 0 where
  pub bytes : (q : Ptr) → q ≢ p → b.payload q h' ≡ b.payload q h
  pub held : (q : Ptr) → q ≢ p → b.refs q h' ≡ b.refs q h

pub record PbufLaws (b : Pbufs) : Type 0 where
  -- What `pbuf_alloc` returns, if it is not NULL, was not in use.
  pub alloc_fresh :
      (l : Layer) (n : ℕ) (t : PbufType) (h : b.Heap)
      → let (p, h') = b.pbuf_alloc l n t h in
        p ≢ null → (b.refs p h ≡ 0) × (b.refs p h' ≡ 1) × (tot_len b p h' ≡ n)
  pub alloc_same :
      (l : Layer) (n : ℕ) (t : PbufType) (h : b.Heap)
      → let (p, h') = b.pbuf_alloc l n t h in SameBut b p h h'
  pub free_refs : (p : Ptr) (h : b.Heap) → b.refs p (b.pbuf_free p h) ≡ b.refs p h - 1
  -- A buffer that is still referenced keeps its bytes.
  pub free_bytes :
      (p : Ptr) (h : b.Heap) → 1 < b.refs p h → b.payload p (b.pbuf_free p h) ≡ b.payload p h
  pub free_same : (p : Ptr) (h : b.Heap) → SameBut b p h (b.pbuf_free p h)
  pub ref_refs :
      (p : Ptr) (h : b.Heap) → 0 < b.refs p h → b.refs p (b.pbuf_ref p h) ≡ b.refs p h + 1
  pub ref_bytes : (p : Ptr) (h : b.Heap) → b.payload p (b.pbuf_ref p h) ≡ b.payload p h
  pub ref_same : (p : Ptr) (h : b.Heap) → SameBut b p h (b.pbuf_ref p h)
  -- `pbuf_take` overwrites the first bytes of a chain that is long enough.
  pub take_bytes :
      (p : Ptr) (xs : List ℕ) (h : b.Heap)
      → p ≢ null
      → length xs ≤ tot_len b p h
      → b.payload p (b.pbuf_take p xs h).1 ≡ xs ++ drop (length xs) (b.payload p h)
  pub take_refs :
      (p : Ptr) (xs : List ℕ) (h : b.Heap) → b.refs p (b.pbuf_take p xs h).1 ≡ b.refs p h
  pub take_same : (p : Ptr) (xs : List ℕ) (h : b.Heap) → SameBut b p h (b.pbuf_take p xs h).1
  pub copy_bytes :
      (p : Ptr) (n off : ℕ) (h : b.Heap)
      → b.pbuf_copy_partial p n off h ≡ take n (drop off (b.payload p h))
  -- `pbuf_cat` gives the caller's reference to the tail over to the head.
  pub cat_bytes :
      (p q : Ptr) (h : b.Heap)
      → p ≢ q
      → b.payload p (b.pbuf_cat p q h) ≡ b.payload p h ++ b.payload q h
  pub cat_refs : (p q : Ptr) (h : b.Heap) → b.refs p (b.pbuf_cat p q h) ≡ b.refs p h
  -- A header that could be added is room in front of the old bytes.
  pub add_bytes :
      (p : Ptr) (n : ℕ) (h : b.Heap)
      → (b.pbuf_add_header p n h).0 ≡ false
      → (drop n (b.payload p (b.pbuf_add_header p n h).1) ≡ b.payload p h)
        × (tot_len b p (b.pbuf_add_header p n h).1 ≡ n + tot_len b p h)
  pub add_refs : (p : Ptr) (n : ℕ) (h : b.Heap) → b.refs p (b.pbuf_add_header p n h).1 ≡ b.refs p h
  pub remove_bytes :
      (p : Ptr) (n : ℕ) (h : b.Heap)
      → (b.pbuf_remove_header p n h).0 ≡ false
      → b.payload p (b.pbuf_remove_header p n h).1 ≡ drop n (b.payload p h)
  pub remove_refs :
      (p : Ptr) (n : ℕ) (h : b.Heap) → b.refs p (b.pbuf_remove_header p n h).1 ≡ b.refs p h
