-- ===== src/UdpIo/Output/Lengths.antt =====
-- The length that a header says.
use tun2socket_lwip.Prelude.{ℕ, ◌≤◌, arith}
use tun2socket_lwip.Demux.{Pcb}
use tun2socket_lwip.UdpIo.Output.{header_length}

pub header_length-bound : (c : Pcb) (total : ℕ) → header_length c total ≤ total
unfolding header_length
header_length-bound c total = ground arith
