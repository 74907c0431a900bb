-- ===== src/Queues/Overflow.antt =====
-- `pbuf_queue_append` on several buffers: which stay, and which are freed.
use tun2socket_lwip.Prelude.{
  ℕ, suc, ◌+◌, ◌-◌, ◌≤◌, ◌≡◌, refl, List, [], ◌∷◌, ◌++◌, append-nil, append_assoc, arith, ltb, inl,
  inr, Bool-cases, length, take, drop, length-append,
}
use tun2socket_lwip.Lwip.{Ptr}
use tun2socket_lwip.Queues.{capacity, Queue, release, append_loop, append}
use tun2socket_lwip.Queues.Holds.{Holds, append_one-room, append_one-full}

module _ {S : Type 0} (pbuf_free : Ptr → S → S) where
  -- frees the buffers of a list in order, NULL pointers skipped
  unfoldable pub release_all : List Ptr → S → S
  release_all [] s = s
  release_all (p ∷ ps) s = release_all ps (release pbuf_free p s)

-- how many of `n` buffers do not fit
abbrev pub excess : ℕ → ℕ
excess n = n - capacity

-- the outcome of appending `ps` to a queue that holds `xs`
record Appended {S : Type 0} (pbuf_free : Ptr → S → S) (all : List Ptr) (s : S) (out : Queue × S)
    : Type 0 where
  kept : Holds out.0 (drop (excess (length all)) all)
  freed : out.1 ≡ release_all pbuf_free (take (excess (length all)) all) s

module _ {S : Type 0} (pbuf_free : Ptr → S → S) where
  Appended-cons :
      (x : Ptr) {all : List Ptr} (s : S) {out : Queue × S}
      → capacity ≤ length all
      → Appended pbuf_free all (release pbuf_free x s) out
      → Appended pbuf_free (x ∷ all) s out
  unfolding release_all
  Appended-cons x {all} s long a =
      let more : excess (length (x ∷ all)) ≡ suc (excess (length all)) = omega arith in
      record { kept = rw more a.kept; freed = rw more a.freed }

  append_loop-Appended :
      (ps : List Ptr) {q : Queue} {xs : List Ptr} (s : S)
      → Holds q xs
      → Appended pbuf_free (xs ++ ps) s (append_loop pbuf_free q ps s)
  unfolding append_loop release_all
  append_loop-Appended [] {q} {xs} s h =
      let none_over : excess (length xs) ≡ 0 = omega (arith, h.fits) in
      rw append-nil (record { kept = rw none_over h; freed = rw none_over })
  append_loop-Appended (p ∷ ps) {q} {xs = []} s h =
      let one = append_one-room pbuf_free p s h (omega arith) in
      rw one.1 (append_loop-Appended ps s one.0)
  append_loop-Appended (p ∷ ps) {q} {xs = x ∷ xs} s h =
      elim (Bool-cases (ltb (length xs + 1) capacity)) [
        | inl room ↦
            let one = append_one-room pbuf_free p s h (ground arith) in
            rw one.1 (rw append_assoc at (append_loop-Appended ps s one.0))
        | inr full ↦
            let one = append_one-full pbuf_free p s h (ground (arith, h.fits)) in
            rw one.1 (
              Appended-cons x s (ground (arith, h.fits, length-append xs (p ∷ ps)))
                (rw append_assoc at (append_loop-Appended ps (release pbuf_free x s) one.0)))
      ]

  -- `pbuf_queue_append` on a well-formed queue returns `size` and keeps the newest 256 of the buffers
  -- held and given, in order; it frees exactly the others, oldest first and each once, and skips NULL.
  pub append_lem :
      (ps : List Ptr) {q : Queue} {xs : List Ptr} (s : S)
      → Holds q xs
      → let over = excess (length (xs ++ ps)) in
        let (size, q', s') = append pbuf_free q ps s in
        (size ≡ length ps)
        × Holds q' (drop over (xs ++ ps))
        × (s' ≡ release_all pbuf_free (take over (xs ++ ps)) s)
  unfolding append
  append_lem ps s h = let done = append_loop-Appended ps s h in (refl, done.kept, done.freed)
