-- ===== src/Init/Handshake.antt =====
-- The handshake neither returns too early nor gets stuck.
use tun2socket_lwip.Prelude.{Bool, ℕ, ◌+◌, ◌*◌, ◌≤◌, ◌≡◌, ◌⊎◌, refl, true, false, arith, inl, inr}
use tun2socket_lwip.Init.{
  Holder, Caller, starting, locked, testing, sleeping, waking, returned, Stack, absent, started,
  interface_ready, entered, flagged, signalled, finished, nobody, caller, stack, State, at, wake,
  Step, lock, tcpip_init, leave, wait, spurious, relock, init_interface, enter, set_flag, broadcast,
  exit, initial, complete,
}

-- The states that occur. No state is among them in which the caller sleeps after the broadcast.
pub data Ok : State → Type 0 where
  begins : Ok (at starting absent nobody false)
  holds : Ok (at locked absent caller false)
  tests_started : Ok (at testing started caller false)
  tests_ready : Ok (at testing interface_ready caller false)
  tests_finished : Ok (at testing finished caller true)
  sleeps_started : Ok (at sleeping started nobody false)
  sleeps_ready : Ok (at sleeping interface_ready nobody false)
  sleeps_entered : Ok (at sleeping entered stack false)
  sleeps_flagged : Ok (at sleeping flagged stack true)
  wakes_started : Ok (at waking started nobody false)
  wakes_ready : Ok (at waking interface_ready nobody false)
  wakes_entered : Ok (at waking entered stack false)
  wakes_flagged : Ok (at waking flagged stack true)
  wakes_signalled : Ok (at waking signalled stack true)
  wakes_finished : Ok (at waking finished nobody true)
  ends : Ok complete

Step-Ok : {s s' : State} → Ok s → Step s s' → Ok s'
unfolding wake
Step-Ok begins lock = holds
Step-Ok holds tcpip_init = tests_started
Step-Ok tests_started wait = sleeps_started
Step-Ok tests_started init_interface = tests_ready
Step-Ok tests_ready wait = sleeps_ready
Step-Ok tests_finished leave = ends
Step-Ok sleeps_started spurious = wakes_started
Step-Ok sleeps_started init_interface = sleeps_ready
Step-Ok sleeps_ready spurious = wakes_ready
Step-Ok sleeps_ready enter = sleeps_entered
Step-Ok sleeps_entered spurious = wakes_entered
Step-Ok sleeps_entered set_flag = sleeps_flagged
Step-Ok sleeps_flagged spurious = wakes_flagged
Step-Ok sleeps_flagged broadcast = wakes_signalled
Step-Ok wakes_started relock = tests_started
Step-Ok wakes_started init_interface = wakes_ready
Step-Ok wakes_ready relock = tests_ready
Step-Ok wakes_ready enter = wakes_entered
Step-Ok wakes_entered set_flag = wakes_flagged
Step-Ok wakes_flagged broadcast = wakes_signalled
Step-Ok wakes_signalled exit = wakes_finished
Step-Ok wakes_finished relock = tests_finished
Step-Ok ends e = elim e [ ]

-- how many wake-ups without a broadcast a step is
unfoldable pub cost : {s s' : State} → Step s s' → ℕ
cost spurious = 1
cost _ = 0

-- runs, with the number of steps and of wake-ups without a broadcast
pub data Runs (s : State) : ℕ → ℕ → State → Type 0 where
  here : Runs s 0 0 s
  next : {n k : ℕ} {u v : State} → Runs s n k u → (e : Step u v) → Runs s (n + 1) (k + cost e) v

Runs-Ok : {s s' : State} {n k : ℕ} → Ok s → Runs s n k s' → Ok s'
Runs-Ok ok here = ok
Runs-Ok ok (next r e) = Step-Ok (Runs-Ok ok r) e

-- how far each thread is from its end
abbrev caller_work : Caller → ℕ
caller_work starting = 4
caller_work locked = 3
caller_work testing = 2
caller_work sleeping = 1
caller_work waking = 3
caller_work returned = 0

abbrev stack_work : Stack → ℕ
stack_work absent = 7
stack_work started = 7
stack_work interface_ready = 6
stack_work entered = 5
stack_work flagged = 4
stack_work signalled = 1
stack_work finished = 0

abbrev work : State → ℕ
work (at m s h f) = caller_work m + stack_work s

work-wake : (m : Caller) → caller_work (wake m) ≤ caller_work m + 2
unfolding wake
work-wake starting = omega arith
work-wake locked = omega arith
work-wake testing = omega arith
work-wake sleeping = omega arith
work-wake waking = omega arith
work-wake returned = omega arith

work-Step : {s s' : State} (e : Step s s') → 1 + work s' ≤ work s + 3 * cost e
unfolding cost
work-Step lock = omega arith
work-Step tcpip_init = omega arith
work-Step leave = omega arith
work-Step wait = omega arith
work-Step spurious = omega arith
work-Step relock = omega arith
work-Step init_interface = omega arith
work-Step enter = omega arith
work-Step set_flag = omega arith
work-Step (broadcast {m}) = omega (arith, work-wake m)
work-Step exit = omega arith

work-Runs : {s s' : State} {n k : ℕ} → Runs s n k s' → n + work s' ≤ work s + 3 * k
work-Runs here = omega arith
work-Runs (next r e) = omega (arith, work-Runs r, work-Step e)

-- a step that is not a wake-up without a broadcast
pub data Goes (s : State) : Type 0 where
  goes : (s' : State) (e : Step s s') → cost e ≡ 0 → Goes s

progress : {s : State} → Ok s → (s ≡ complete) ⊎ Goes s
unfolding cost
progress begins = inr (goes _ lock refl)
progress holds = inr (goes _ tcpip_init refl)
progress tests_started = inr (goes _ wait refl)
progress tests_ready = inr (goes _ wait refl)
progress tests_finished = inr (goes _ leave refl)
progress sleeps_started = inr (goes _ init_interface refl)
progress sleeps_ready = inr (goes _ enter refl)
progress sleeps_entered = inr (goes _ set_flag refl)
progress sleeps_flagged = inr (goes _ broadcast refl)
progress wakes_started = inr (goes _ relock refl)
progress wakes_ready = inr (goes _ enter refl)
progress wakes_entered = inr (goes _ set_flag refl)
progress wakes_flagged = inr (goes _ broadcast refl)
progress wakes_signalled = inr (goes _ exit refl)
progress wakes_finished = inr (goes _ relock refl)
progress ends = inl refl

-- Every run of `init_lwip` and `tcpip_initialize` from the start has at most 11 steps and 3 for each
-- wake-up without a broadcast, and it is either at its end, with `init_lwip` returned and the flag
-- set, or has a step that it can take and that is no such wake-up.
pub handshake_lem :
    {s : State} {n k : ℕ} → Runs initial n k s → (n ≤ 11 + 3 * k) × ((s ≡ complete) ⊎ Goes s)
handshake_lem r = (omega (arith, work-Runs r), progress (Runs-Ok begins r))

after_return :
    {s : Stack} {h : Holder} {f : Bool} → Ok (at returned s h f) → at returned s h f ≡ complete
after_return ends = refl

-- Whenever `init_lwip` has returned, `tcpip_initialize` has come to its end, so that the context on the
-- stack of the one is no longer used by the other, the flag is set, and nobody holds the mutex.
pub returned-complete :
    {n k : ℕ} {t : Stack} {h : Holder} {f : Bool}
    → Runs initial n k (at returned t h f)
    → at returned t h f ≡ complete
returned-complete r = after_return (Runs-Ok begins r)
