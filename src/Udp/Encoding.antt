-- ===== src/Udp/Encoding.antt =====
-- The metadata in front of a datagram is read back as it was written.
use tun2socket_lwip.Prelude.{
  ℕ, ◌+◌, ◌*◌, ◌/◌, ◌%◌, ◌^◌, ◌<◌, ◌≡◌, refl, List, ◌++◌, arith, length, take, drop,
}
use tun2socket_lwip.Udp.{Metadata, encode, decode, header_size}

-- The ports are `uint16_t`.
pub record IsMetadata (m : Metadata) : Type 0 where
  pub src_port_lt : m.src_port < 2 ^ 16
  pub dst_port_lt : m.dst_port < 2 ^ 16

pub length-encode : (m : Metadata) → length (encode m) ≡ header_size
unfolding encode
length-encode m = refl

pub take-encode : (m : Metadata) (xs : List ℕ) → take header_size (encode m ++ xs) ≡ encode m
unfolding encode
take-encode m xs = refl

pub drop-encode : (m : Metadata) (xs : List ℕ) → drop header_size (encode m ++ xs) ≡ xs
unfolding encode
drop-encode m xs = refl

halves : (n : ℕ) → n < 2 ^ 16 → n % 2 ^ 8 + n / 2 ^ 8 * 2 ^ 8 ≡ n
halves n h = omega arith

-- Reading the bytes of a `udp_metadata_t`, whatever follows them, gives it back, if its
-- ports are below 65536.
pub decode-encode : (m : Metadata) (xs : List ℕ) → IsMetadata m → decode (encode m ++ xs) ≡ m
unfolding encode decode
decode-encode m xs h = λ i. record {
  src_addr = m.src_addr;
  dst_addr = m.dst_addr;
  src_port = halves m.src_port h.src_port_lt i;
  dst_port = halves m.dst_port h.dst_port_lt i;
}
