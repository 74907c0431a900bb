-- ===== src/Address.antt =====
-- IPv4 addresses in network byte order as a little-endian `u32_t`: macros of
-- lwip/include/lwip/ip4_addr.h and lwip/include/lwip/def.h.
use tun2socket_lwip.Prelude.{ℕ, ◌+◌, ◌*◌, ◌/◌, ◌%◌, ◌^◌, ◌<◌, ◌≡◌, arith}

-- `LWIP_MAKEU32`
make_u32 : ℕ → ℕ → ℕ → ℕ → ℕ
make_u32 a b c d = a % 2 ^ 8 * 2 ^ 24 + b % 2 ^ 8 * 2 ^ 16 + c % 2 ^ 8 * 2 ^ 8 + d % 2 ^ 8

-- `PP_HTONL` on a little-endian machine
htonl : ℕ → ℕ
htonl n =
    n % 2 ^ 8 * 2 ^ 24
    + n / 2 ^ 8 % 2 ^ 8 * 2 ^ 16
    + n / 2 ^ 16 % 2 ^ 8 * 2 ^ 8
    + n / 2 ^ 24 % 2 ^ 8

-- `IP4_ADDR`
unfoldable pub ip4_addr : ℕ → ℕ → ℕ → ℕ → ℕ
unfolding make_u32 htonl
ip4_addr a b c d = htonl (make_u32 a b c d)

-- `ip4_addr_get_byte(ipaddr, idx)`
unfoldable pub get_byte : ℕ → ℕ → ℕ
get_byte addr idx = addr / 2 ^ (8 * idx) % 2 ^ 8

-- Four numbers below 256 put together by `IP4_ADDR` are read back by `ip4_addr_get_byte`.
pub get_byte-ip4_addr :
    (a b c d : ℕ)
    → a < 256
    → b < 256
    → c < 256
    → d < 256
    → (get_byte (ip4_addr a b c d) 0 ≡ a)
      × (get_byte (ip4_addr a b c d) 1 ≡ b)
      × (get_byte (ip4_addr a b c d) 2 ≡ c)
      × (get_byte (ip4_addr a b c d) 3 ≡ d)
unfolding get_byte ip4_addr
get_byte-ip4_addr a b c d ha hb hc hd = omega arith

-- A 32-bit address is put together again from its bytes.
pub ip4_addr-get_byte :
    (addr : ℕ)
    → addr < 2 ^ 32
    → ip4_addr (get_byte addr 0) (get_byte addr 1) (get_byte addr 2) (get_byte addr 3) ≡ addr
unfolding get_byte ip4_addr
ip4_addr-get_byte addr h = omega arith

-- Whatever its four arguments, `IP4_ADDR` gives a `u32_t`.
pub ip4_addr-bound : (a b c d : ℕ) → ip4_addr a b c d < 2 ^ 32
unfolding ip4_addr
ip4_addr-bound a b c d = omega arith
