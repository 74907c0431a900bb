-- ===== src/TcpDemux/Backlog.antt =====
-- lwip/core/tcp.c: how a listener counts the connections that wait to be accepted, with what
-- lwip/core/tcp_in.c and lwip/api/api_msg.c call on the way of a connection. `none` is a failed
-- assertion, or an access to a listener that is gone, which aborts.
pub mod Count
pub mod Invariant
pub mod System
mod Tests
use tun2socket_lwip.Prelude.{
  ℕ, ◌+◌, ◌-◌, ◌%◌, ◌^◌, Bool, true, false, not, ◌&&◌, ◌||◌, Option, none, some, List, [], ◌∷◌,
  ◌==◌, if◌then◌else◌,
}
use tun2socket_lwip.Lwip.{Ptr, null}
use tun2socket_lwip.TcpDemux.{TcpPcb, ListenPcb, TcpPcbs, other}

-- a change of the listener at an address
at_listener : Ptr → (ListenPcb → Option ListenPcb) → List ListenPcb → Option (List ListenPcb)
at_listener p f [] = none
at_listener p f (l ∷ ls) =
    let rest = at_listener p f ls in
    if l.self == p
    then elim (f l) [ none ↦ none | some l' ↦ some (l' ∷ ls) ]
    else elim rest [ none ↦ none | some ls' ↦ some (l ∷ ls') ]

-- `accepts_pending` is a `u8_t`
increment : ListenPcb → Option ListenPcb
increment l =
    let n = (l.accepts_pending + 1) % 2 ^ 8 in
    if n == 0 then none else some (record l { accepts_pending = n })

decrement : ListenPcb → Option ListenPcb
decrement l =
    if l.accepts_pending == 0
    then none
    else some (record l { accepts_pending = l.accepts_pending - 1 })

-- `tcp_backlog_delayed`
pub tcp_backlog_delayed : TcpPcb → List ListenPcb → Option (TcpPcb × List ListenPcb)
unfolding at_listener increment
tcp_backlog_delayed c ls =
    if c.backlog_pending || c.listener == null
    then some (c, ls)
    else elim (at_listener c.listener increment ls) [
      | none ↦ none
      | some ls' ↦ some (record c { backlog_pending = true }, ls')
    ]

-- `tcp_backlog_accepted`
pub tcp_backlog_accepted : TcpPcb → List ListenPcb → Option (TcpPcb × List ListenPcb)
unfolding at_listener decrement
tcp_backlog_accepted c ls =
    if not c.backlog_pending || c.listener == null
    then some (c, ls)
    else elim (at_listener c.listener decrement ls) [
      | none ↦ none
      | some ls' ↦ some (record c { backlog_pending = false }, ls')
    ]
