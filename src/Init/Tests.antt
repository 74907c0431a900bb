-- ===== src/Init/Tests.antt =====
-- Runs of the handshake.
use tun2socket_lwip.Prelude.{◌+◌, ◌*◌, ◌≤◌, ◌≡◌, ◌⊎◌, true}
use tun2socket_lwip.Init.{
  at, returned, finished, nobody, lock, tcpip_init, leave, wait, spurious, relock, init_interface,
  enter, set_flag, broadcast, exit, initial, complete, wake,
}
use tun2socket_lwip.Init.Handshake.{Runs, here, next, cost, Goes, handshake_lem, returned-complete}

-- The caller wakes once for no reason, and the flag is set while it waits.
whole_run : Runs initial 13 1 complete
unfolding cost wake
whole_run =
    next
      (next
        (next
          (next
            (next
              (next
                (next
                  (next (next (next (next (next (next here lock) tcpip_init) wait) spurious) relock)
                    wait)
                  init_interface)
                enter)
              set_flag)
            broadcast)
          exit)
        relock)
      leave

handshake_lem_example : (13 ≤ 11 + 3 * 1) × ((complete ≡ complete) ⊎ Goes complete)
handshake_lem_example = handshake_lem whole_run

returned-complete_example : at returned finished nobody true ≡ complete
returned-complete_example = returned-complete whole_run
