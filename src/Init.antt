-- ===== src/Init.antt =====
-- native/init.c and the scoped locks of native/utils.c: how `init_lwip` waits until the stack's thread
-- has set the interface up.
-- A mutex has a holder, and a step that locks it needs it free. `pthread_cond_wait` gives the mutex up
-- and sleeps in one step, may wake for no reason, and takes the mutex again before it returns.
pub mod Handshake
mod Tests
use tun2socket_lwip.Prelude.{Bool, true, false}

-- where `init_lwip` is: before it locks, before `tcpip_init`, at the test of its loop, asleep on the
-- condition variable, awake but without the mutex, or past its return
pub data Caller : Type 0 where
  starting locked testing sleeping waking returned : Caller

-- where `tcpip_initialize` is, on the stack's thread: not called, before `global_interface_init`,
-- before it locks, before it sets the flag, before the broadcast, before it unlocks, or past its end
pub data Stack : Type 0 where
  absent started interface_ready entered flagged signalled finished : Stack

pub data Holder : Type 0 where
  nobody caller stack : Holder

-- the two threads, the mutex `lock`, and the flag `initialized` of `struct initialize_context`
pub data State : Type 0 where
  at : Caller → Stack → Holder → Bool → State

-- what `pthread_cond_broadcast` does to the caller
pub wake : Caller → Caller
wake sleeping = waking
wake starting = starting
wake locked = locked
wake testing = testing
wake waking = waking
wake returned = returned

-- one step of either thread
pub data Step : State → State → Type 0 where
  -- `init_lwip`
  lock : {s : Stack} {f : Bool} → Step (at starting s nobody f) (at locked s caller f)
  tcpip_init : {h : Holder} {f : Bool} → Step (at locked absent h f) (at testing started h f)
  leave : {s : Stack} {h : Holder} → Step (at testing s h true) (at returned s nobody true)
  wait : {s : Stack} {h : Holder} → Step (at testing s h false) (at sleeping s nobody false)
  spurious : {s : Stack} {h : Holder} {f : Bool} → Step (at sleeping s h f) (at waking s h f)
  relock : {s : Stack} {f : Bool} → Step (at waking s nobody f) (at testing s caller f)
  -- `tcpip_initialize`
  init_interface :
      {m : Caller} {h : Holder} {f : Bool} → Step (at m started h f) (at m interface_ready h f)
  enter : {m : Caller} {f : Bool} → Step (at m interface_ready nobody f) (at m entered stack f)
  set_flag : {m : Caller} {h : Holder} {f : Bool} → Step (at m entered h f) (at m flagged h true)
  broadcast :
      {m : Caller} {h : Holder} {f : Bool} → Step (at m flagged h f) (at (wake m) signalled h f)
  exit : {m : Caller} {h : Holder} {f : Bool} → Step (at m signalled h f) (at m finished nobody f)

-- where `init_lwip` begins
abbrev pub initial : State
initial = at starting absent nobody false

-- where both have come to their ends
abbrev pub complete : State
complete = at returned finished nobody true
