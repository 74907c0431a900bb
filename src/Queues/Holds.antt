-- ===== src/Queues/Holds.antt =====
-- What a `pbuf_queue_t` holds: the packet buffers in order, oldest first, with every other slot NULL.
use native.Mathlib.Numerals.{add-one}
use tun2socket_lwip.Prelude.{
  ℕ, ◌+◌, ◌%◌, ◌≤◌, ◌<◌, ◌≡◌, ◌≢◌, refl, ◌∙◌, ap, true, false, List, [], ◌∷◌, ◌++◌, arith, inl, inr,
  Bool-cases, ◌==◌, length, get_or, set, length-append, length-set, get_or-set_self, get_or-set_ne,
  get_or_beyond, get_or-snoc_end, get_or-snoc_ne, length-replicate, get_or-replicate, take, drop,
  zero, suc, ◌&&◌, not,
}
use tun2socket_lwip.Lwip.{Ptr, null}
use tun2socket_lwip.Queues.{capacity, Queue, zeroed, release, append_one, count, pop}

-- `q` is well formed and its buffers, oldest first, are `xs`. Past the end of `xs` the index gives
-- `null`, so `slot` also says that every slot outside the window is cleared.
pub record Holds (q : Queue) (xs : List Ptr) : Type 0 where
  pub size : length q.slots ≡ capacity
  pub head_lt : q.head < capacity
  pub fits : length xs ≤ capacity
  pub tail_eq : q.tail ≡ (q.head + length xs) % capacity
  pub full_eq : q.full ≡ (length xs == capacity)
  pub slot :
      (k : ℕ) → k < capacity → get_or q.slots ((q.head + k) % capacity) null ≡ get_or xs k null

-- `pbuf_queue_length` of a well-formed queue is the number of buffers that it holds, 256 if it is full.
pub count-length : {q : Queue} {xs : List Ptr} → Holds q xs → count q ≡ length xs
unfolding count
count-length {q} {xs} h = ground arith

-- The slot behind the window is cleared, or is the oldest buffer if the window is the whole ring.
slot-tail :
    {q : Queue} {xs : List Ptr}
    → Holds q xs
    → length xs < capacity
    → get_or q.slots q.tail null ≡ null
slot-tail {q} {xs} h room =
    rw h.tail_eq (h.slot (length xs) room ∙ get_or_beyond xs (length xs) null (omega arith))

slot-head : {q : Queue} {xs : List Ptr} → Holds q xs → get_or q.slots q.head null ≡ get_or xs 0 null
slot-head {q} {xs} h =
    ap (λ i. get_or q.slots i null) (omega (arith, h.head_lt)) ∙ h.slot 0 (omega arith)

-- Two places of the ring that are less than a round apart are different slots.
ring-ne :
    (h i j : ℕ) → i < capacity → j < capacity → i ≢ j → (h + i) % capacity ≢ (h + j) % capacity
ring-ne h i j hi hj ne = omega arith

module _ (q : Queue) (p : Ptr) where
  slot-room :
      {xs : List Ptr}
      → Holds q xs
      → length xs < capacity
      → (k : ℕ) → k < capacity
      → get_or (set q.slots q.tail p) ((q.head + k) % capacity) null
        ≡ get_or (xs ++ (p ∷ [])) k null
  slot-room {xs} h room k hk = elim (Bool-cases (k == length xs)) [
    | inl e ↦ ground (arith, get_or-set_self q.slots q.tail p null, get_or-snoc_end xs p null)
    | inr ne ↦ ground (
      arith,
      h.slot k,
      ring-ne q.head (length xs) k,
      get_or-set_ne q.slots q.tail ((q.head + k) % capacity) p null,
      get_or-snoc_ne xs k p null,
    )
  ]

  slot-full :
      {x : Ptr} {xs : List Ptr}
      → Holds q (x ∷ xs)
      → length xs + 1 ≡ capacity
      → (k : ℕ) → k < capacity
      → get_or (set q.slots q.tail p) (((q.tail + 1) % capacity + k) % capacity) null
        ≡ get_or (xs ++ (p ∷ [])) k null
  slot-full {x} {xs} h room k hk = elim (Bool-cases (k == length xs)) [
    | inl e ↦ ground (arith, get_or-set_self q.slots q.tail p null, get_or-snoc_end xs p null)
    | inr ne ↦ ground (
      arith,
      h.slot (k + 1),
      add-one k,
      ring-ne q.head 0 (k + 1),
      get_or-set_ne q.slots q.tail (((q.tail + 1) % capacity + k) % capacity) p null,
      get_or-snoc_ne xs k p null,
    )
  ]

  slot-pop :
      {x : Ptr} {xs : List Ptr}
      → Holds q (x ∷ xs)
      → (k : ℕ) → k < capacity
      → get_or (set q.slots q.head null) (((q.head + 1) % capacity + k) % capacity) null
        ≡ get_or xs k null
  slot-pop {x} {xs} h k hk = elim (Bool-cases (k == 255)) [
    | inl e ↦ ground (arith, get_or-set_self q.slots q.head null null, get_or_beyond xs k null)
    | inr ne ↦ ground (
      arith,
      h.slot (k + 1),
      add-one k,
      ring-ne q.head 0 (k + 1),
      get_or-set_ne q.slots q.head (((q.head + 1) % capacity + k) % capacity) null null,
    )
  ]

module _ {S : Type 0} (pbuf_free : Ptr → S → S) {q : Queue} (p : Ptr) (s : S) where
  -- With room left nothing is freed, and the buffer goes to the end.
  pub append_one-room :
      {xs : List Ptr}
      → Holds q xs
      → length xs < capacity
      → Holds (append_one pbuf_free q p s).0 (xs ++ (p ∷ [])) × ((append_one pbuf_free q p s).1 ≡ s)
  unfolding append_one
  append_one-room {xs} h room = (
    record {
      size = length-set q.slots q.tail p ∙ h.size;
      head_lt = ground arith;
      fits = omega (arith, length-append xs (p ∷ []));
      tail_eq = ground (arith, length-append xs (p ∷ []));
      full_eq = ground (arith, length-append xs (p ∷ []));
      slot = ground (arith, slot-room q p h room);
    },
    rw (slot-tail h room),
  )

  -- When full, the oldest buffer is freed and its slot reused.
  pub append_one-full :
      {x : Ptr} {xs : List Ptr}
      → Holds q (x ∷ xs)
      → length xs + 1 ≡ capacity
      → Holds (append_one pbuf_free q p s).0 (xs ++ (p ∷ []))
        × ((append_one pbuf_free q p s).1 ≡ release pbuf_free x s)
  unfolding append_one
  append_one-full {x} {xs} h room =
      let at_head : q.tail ≡ q.head = omega (arith, h.tail_eq, h.head_lt) in
      (
        record {
          size = length-set q.slots q.tail p ∙ h.size;
          head_lt = ground arith;
          fits = omega (arith, length-append xs (p ∷ []));
          tail_eq = ground (arith, length-append xs (p ∷ []));
          full_eq = ground (arith, length-append xs (p ∷ []));
          slot = ground (arith, slot-full q p h room);
        },
        rw (at_head, slot-head h),
      )

-- A queue that was just zeroed is empty.
pub zeroed-Holds : Holds zeroed []
zeroed-Holds = record {
  size = length-replicate capacity null;
  head_lt = omega arith;
  fits = omega arith;
  tail_eq = refl;
  full_eq = refl;
  slot = λ k _. get_or-replicate capacity ((0 + k) % capacity) null;
}

-- One round of the loop of `pbuf_queue_pop`.
Holds-popped :
    {q : Queue} {x : Ptr} {xs : List Ptr}
    → Holds q (x ∷ xs)
    → Holds
        (record q { head = (q.head + 1) % capacity; full = false; slots = set q.slots q.head null })
        xs
Holds-popped {q} {x} {xs} h = record {
  size = length-set q.slots q.head null ∙ h.size;
  head_lt = omega arith;
  fits = omega arith;
  tail_eq = omega arith;
  full_eq = ground arith;
  slot = slot-pop q null h;
}

-- The test by which `pbuf_queue_pop` stops.
test-nil : {q : Queue} → Holds q [] → (q.head == q.tail && not q.full) ≡ true
test-nil h = ground arith

test-cons :
    {q : Queue} {x : Ptr} {xs : List Ptr}
    → Holds q (x ∷ xs)
    → (q.head == q.tail && not q.full) ≡ false
test-cons h = ground arith

-- `pbuf_queue_pop` of a well-formed queue hands out the oldest `n` buffers in order, fewer if the
-- queue holds fewer, and leaves it well formed with exactly the others.
pub pop-take-drop :
    (n : ℕ) {q : Queue} {xs : List Ptr}
    → Holds q xs
    → ((pop q n).0 ≡ take n xs) × Holds (pop q n).1 (drop n xs)
unfolding pop
pop-take-drop zero h = (refl, h)
pop-take-drop (suc n) {q} {xs = []} h = rw (test-nil h) (refl, h)
pop-take-drop (suc n) {q} {xs = x ∷ xs} h =
    let rest = pop-take-drop n (Holds-popped h) in
    rw (test-cons h, slot-head h) (ap (λ r. x ∷ r) rest.0, rest.1)
