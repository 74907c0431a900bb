-- ===== src/UdpIo/Header.antt =====
-- The header of a datagram, written and read back.
use tun2socket_lwip.Prelude.{
  ℕ, ◌+◌, ◌*◌, ◌/◌, ◌%◌, ◌^◌, ◌<◌, ◌≡◌, refl, List, ◌++◌, arith, length, drop,
}
use tun2socket_lwip.UdpIo.{UdpHdr, parse, print}

-- The fields are `u16_t`.
pub record IsUdpHdr (hdr : UdpHdr) : Type 0 where
  pub src_lt : hdr.src < 2 ^ 16
  pub dest_lt : hdr.dest < 2 ^ 16
  pub len_lt : hdr.len < 2 ^ 16
  pub chksum_lt : hdr.chksum < 2 ^ 16

pub length-print : (hdr : UdpHdr) → length (print hdr) ≡ 8
unfolding print
length-print hdr = refl

pub drop-print : (hdr : UdpHdr) (xs : List ℕ) → drop 8 (print hdr ++ xs) ≡ xs
unfolding print
drop-print hdr xs = refl

big_halves : (n : ℕ) → n / 2 ^ 8 * 2 ^ 8 + n % 2 ^ 8 ≡ n
big_halves n = omega arith

halves : (n : ℕ) → n < 2 ^ 16 → n % 2 ^ 8 + n / 2 ^ 8 * 2 ^ 8 ≡ n
halves n h = omega arith

-- `udp_input` reads a header as it was written, whatever follows it, if its fields are below 65536.
pub parse-print : (hdr : UdpHdr) (xs : List ℕ) → IsUdpHdr hdr → parse (print hdr ++ xs) ≡ hdr
unfolding parse print
parse-print hdr xs ok = λ i. record {
  src = big_halves hdr.src i;
  dest = big_halves hdr.dest i;
  len = big_halves hdr.len i;
  chksum = halves hdr.chksum ok.chksum_lt i;
}
