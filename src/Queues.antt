-- ===== src/Queues.antt =====
-- native/queues.h and native/queues.c: the ring of packet buffers, which drops the oldest when full.
-- A `struct pbuf *` is a number, NULL is `null`. lwIP's `pbuf_free` and the state that it changes
-- are parameters.
pub mod Holds
pub mod Overflow
mod Tests
use tun2socket_lwip.Prelude.{
  ℕ, zero, suc, ◌+◌, ◌-◌, ◌%◌, Bool, false, not, ◌&&◌, List, [], ◌∷◌, ◌==◌, if◌then◌else◌, length,
  get_or, set, replicate,
}
use tun2socket_lwip.Lwip.{Ptr, null}

-- PBUF_QUEUE_LENGTH
abbrev pub capacity : ℕ
capacity = 256

-- `pbuf_queue_t`; the field `data` of the source is `slots`, and `full` holds 0 or 1 only.
pub record Queue : Type 0 where
  pub head : ℕ
  pub tail : ℕ
  pub full : Bool
  pub slots : List Ptr

-- what `memset(…, 0, …)` makes of a queue
abbrev pub zeroed : Queue
zeroed = record { head = 0; tail = 0; full = false; slots = replicate capacity null }

module _ {S : Type 0} (pbuf_free : Ptr → S → S) where
  -- `if (p != NULL) pbuf_free(p);`
  abbrev pub release : Ptr → S → S
  release p s = if p == null then s else pbuf_free p s

  -- one round of the loop of `pbuf_queue_append`
  pub append_one : Queue → Ptr → S → Queue × S
  append_one queue p s =
      let tail' = (queue.tail + 1) % capacity in
      let head' = (if queue.full then tail' else queue.head) in
      (
        record {
          head = head';
          tail = tail';
          full = head' == tail';
          slots = set queue.slots queue.tail p;
        },
        release (get_or queue.slots queue.tail null) s,
      )

  append_loop : Queue → List Ptr → S → Queue × S
  append_loop queue [] s = (queue, s)
  append_loop queue (p ∷ ps) s = let (queue', s') = append_one queue p s in append_loop queue' ps s'

  -- `pbuf_queue_append`: the array `in` of `size` buffers is the list
  pub append : Queue → List Ptr → S → ℕ × Queue × S
  append queue ps s = let (queue', s') = append_loop queue ps s in (length ps, queue', s')

-- `pbuf_queue_length`. The code adds the capacity before `%`, so the `int` is not negative.
pub count : Queue → ℕ
count queue =
    let size = (queue.tail + capacity - queue.head) % capacity in
    if size == 0 && queue.full then capacity else size

-- `pbuf_queue_pop`: at most `size` buffers, in the order of `out`, and the queue left
pub pop : Queue → ℕ → List Ptr × Queue
pop queue zero = ([], queue)
pop queue (suc size) =
    let taken = get_or queue.slots queue.head null in
    let rest =
      pop
        (record queue {
          head = (queue.head + 1) % capacity;
          full = false;
          slots = set queue.slots queue.head null;
        })
        size in
    if queue.head == queue.tail && not queue.full then ([], queue) else (taken ∷ rest.0, rest.1)
