-- ===== src/Blocks/Tests.antt =====
-- Runs of the operations on control blocks.
use tun2socket_lwip.Prelude.{◌≡◌, ◌≢◌, refl, true, false, ◌⊎◌, some, arith}
use tun2socket_lwip.Lwip.{Ptr, err_ok, err_use}
use tun2socket_lwip.Demux.{Pcb, accept_any_port, addr_any}
use tun2socket_lwip.Blocks.{Table, put, blocks, on_list, any_clash, udp_new, udp_bind, zero_pcb}
use tun2socket_lwip.Blocks.Bind.{bound, listed}
use tun2socket_lwip.Blocks.Clash.{Claims, udp_bind_lem}
use tun2socket_lwip.Blocks.Invariant.{IsTable, activated, overlap}
use tun2socket_lwip.Blocks.System.{started, here, next, new, bind, Reach-IsTable}

-- one new block, that block as `udp_conn_listen` binds it, and a second new block
abbrev one : Table
one = record (started 49152) { pcbs = put (started 49152).pcbs 5 (some (zero_pcb 5)) }

abbrev listening : Table
listening = listed one 5 (bound (zero_pcb 5) addr_any accept_any_port)

abbrev two : Table
two = record listening { pcbs = put listening.pcbs 6 (some (zero_pcb 6)) }

new_one : udp_new 5 (started 49152) ≡ some (5, one)
unfolding udp_new
new_one = refl

bind_one : udp_bind 5 addr_any accept_any_port one ≡ some (err_ok, listening)
unfolding udp_bind any_clash blocks on_list
bind_one = refl

new_two : udp_new 6 listening ≡ some (6, two)
unfolding udp_new
new_two = refl

bind_two : udp_bind 6 7 accept_any_port two ≡ some (err_use, two)
unfolding udp_bind any_clash blocks on_list
bind_two = refl

Reach-IsTable_example : IsTable two
Reach-IsTable_example = Reach-IsTable {port = 49152} (omega arith) (
    next (next (next here (new 5 5 refl new_one)) (bind 5 (zero_pcb 5) 0 1 err_ok refl bind_one))
      (new 6 6 refl new_two))

two-IsTable : IsTable two
two-IsTable = Reach-IsTable {port = 49152} (omega arith) (
    next (next (next here (new 5 5 refl new_one)) (bind 5 (zero_pcb 5) 0 1 err_ok refl bind_one))
      (new 6 6 refl new_two))

udp_bind_lem_example :
    ((udp_bind 6 7 accept_any_port two ≡ some (err_use, two))
      × Claims two.pcbs two.udp_pcbs 6 7 accept_any_port)
    ⊎ ((udp_bind 6 7 accept_any_port two
          ≡ some (err_ok, listed two 6 (bound (zero_pcb 6) 7 accept_any_port)))
        × (on_list 6 (activated 6 two.udp_pcbs) ≡ true)
        × ((q : Ptr) (d : Pcb)
            → on_list q two.udp_pcbs ≡ true
            → two.pcbs q ≡ some d
            → q ≢ 6
            → overlap d 7 accept_any_port ≡ false))
udp_bind_lem_example =
    udp_bind_lem two 6 7 accept_any_port two-IsTable refl (omega arith) (omega arith)
