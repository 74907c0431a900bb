-- ===== src/Lwip/Fill.antt =====
-- A new buffer that is filled at once.
use tun2socket_lwip.Prelude.{ℕ, ◌≡◌, ◌≢◌, ◌∙◌, ap, List, ◌++◌, append-nil, arith, length, drop-all}
use tun2socket_lwip.Lwip.{Layer, PbufType, null, Pbufs, PbufLaws}

-- `pbuf_alloc` for `n` bytes and `pbuf_take` of `n` bytes give a buffer that holds those bytes, with
-- one reference.
pub fill_lem :
    (b : Pbufs)
    → PbufLaws b
    → (l : Layer) (n : ℕ) (t : PbufType) (xs : List ℕ) (h : b.Heap) → length xs ≡ n
    → let (p, h1) = b.pbuf_alloc l n t h in
      p ≢ null → (b.payload p (b.pbuf_take p xs h1).1 ≡ xs) × (b.refs p (b.pbuf_take p xs h1).1 ≡ 1)
fill_lem b laws l n t xs h size ne =
    let p = (b.pbuf_alloc l n t h).0 in
    let h1 = (b.pbuf_alloc l n t h).1 in
    let got = laws.alloc_fresh l n t h ne in
    (
      laws.take_bytes p xs h1 ne (omega (arith, got.2))
          ∙ ap (λ r. xs ++ r) (drop-all (length xs) (b.payload p h1) (omega (arith, got.2)))
          ∙ append-nil xs,
      laws.take_refs p xs h1 ∙ got.1,
    )
