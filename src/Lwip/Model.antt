-- ===== src/Lwip/Model.antt =====
-- A concrete heap of packet buffers that keeps the laws. It is an instance for the tests, and no
-- model of lwip/core/pbuf.c.
use tun2socket_lwip.Prelude.{
  ℕ, zero, suc, ◌+◌, ◌-◌, ◌≡◌, refl, true, false, List, [], ◌++◌, arith, leb, ◌==◌, if◌then◌else◌,
  length, take, drop, replicate, length-append, length-replicate,
}
use tun2socket_lwip.Lwip.{Ptr, null, err_ok, Pbufs, PbufLaws}

pub record Memory : Type 0 where
  pub next : ℕ
  pub held : Ptr → ℕ
  pub bytes : Ptr → List ℕ

abbrev pub update {ℓ} : {A : Type ℓ} → (Ptr → A) → Ptr → A → Ptr → A
update f p a q = if p == q then a else f q

abbrev pub empty_memory : Memory
empty_memory = record { next = 1; held = λ _. 0; bytes = λ _. [] }

abbrev alloc : ℕ → Memory → Ptr × Memory
alloc n m =
    if (m.held m.next == 0)
    then (
      m.next,
      record {
        next = m.next + 1;
        held = update m.held m.next 1;
        bytes = update m.bytes m.next (replicate n 0);
      },
    )
    else (null, m)

abbrev pub set_bytes : Ptr → List ℕ → Memory → Memory
set_bytes p xs m = record m { bytes = update m.bytes p xs }

abbrev pub pbufs : Pbufs
pbufs = record {
  Heap = Memory;
  payload = λ p m. m.bytes p;
  refs = λ p m. m.held p;
  pbuf_alloc = λ _ n _ m. alloc n m;
  pbuf_free = λ p m. record m { held = update m.held p (m.held p - 1) };
  pbuf_ref = λ p m. record m { held = update m.held p (m.held p + 1) };
  pbuf_take = λ p xs m. (err_ok, set_bytes p (xs ++ drop (length xs) (m.bytes p)) m);
  pbuf_copy_partial = λ p n off m. take n (drop off (m.bytes p));
  pbuf_cat = λ p q m. set_bytes p (m.bytes p ++ m.bytes q) m;
  pbuf_add_header = λ p n m. (false, set_bytes p (replicate n 0 ++ m.bytes p) m);
  pbuf_remove_header = λ p n m.
      if leb n (length (m.bytes p)) then (false, set_bytes p (drop n (m.bytes p)) m) else (true, m);
}

drop-replicate : (n : ℕ) (xs : List ℕ) → drop n (replicate n 0 ++ xs) ≡ xs
drop-replicate zero xs = refl
drop-replicate (suc n) xs = drop-replicate n xs

length-zeros : (n : ℕ) → length (replicate {A = ℕ} n 0) ≡ n
length-zeros n = length-replicate n _

pub length-front : (n : ℕ) (xs : List ℕ) → length (replicate n 0 ++ xs) ≡ n + length xs
length-front n xs = omega (arith, length-append (replicate n 0) xs, length-zeros n)

pub pbufs-PbufLaws : PbufLaws pbufs
pbufs-PbufLaws = record {
  alloc_fresh = λ _ n _ h ne. ground (arith, length-zeros n);
  alloc_same = λ _ n _ h. record { bytes = λ q ne. ground arith; held = λ q ne. ground arith };
  free_refs = λ p h. ground arith;
  free_bytes = λ p h shared. refl;
  free_same = λ p h. record { bytes = λ q ne. refl; held = λ q ne. ground arith };
  ref_refs = λ p h pos. ground arith;
  ref_bytes = λ p h. refl;
  ref_same = λ p h. record { bytes = λ q ne. refl; held = λ q ne. ground arith };
  take_bytes = λ p xs h ne fits. ground arith;
  take_refs = λ p xs h. refl;
  take_same = λ p xs h. record { bytes = λ q ne. ground arith; held = λ q ne. refl };
  copy_bytes = λ p n off h. refl;
  cat_bytes = λ p q h ne. ground arith;
  cat_refs = λ p q h. refl;
  add_bytes = λ p n h ok. ground (arith, drop-replicate n (h.bytes p), length-front n (h.bytes p));
  add_refs = λ p n h. refl;
  remove_bytes = λ p n h ok. ground arith;
  remove_refs = λ p n h. ground arith;
}
