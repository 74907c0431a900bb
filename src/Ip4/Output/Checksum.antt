-- ===== src/Ip4/Output/Checksum.antt =====
-- The header that `ip4_output_if_src` writes, read as `ip4_input` reads it, and its checksum.
use tun2socket_lwip.Prelude.{
  ℕ, ◌+◌, ◌-◌, ◌*◌, ◌%◌, ◌^◌, ◌<◌, ◌≡◌, refl, List, [], ◌∷◌, ◌++◌, arith, length, take, drop,
}
use tun2socket_lwip.Ip4.{
  version, header_len, packet_len, fragment, protocol, src_addr, dest_addr, ip_hlen,
}
use tun2socket_lwip.Ip4.Output.{Fields, swap, raw_sum, folded, ip_header}

-- fields that fit their places
pub record IsFields (f : Fields) : Type 0 where
  pub tos_lt : f.tos < 2 ^ 8
  pub total_lt : f.total < 2 ^ 16
  pub id_lt : f.id < 2 ^ 16
  pub ttl_lt : f.ttl < 2 ^ 8
  pub proto_lt : f.proto < 2 ^ 8
  pub src_lt : f.src < 2 ^ 32
  pub dest_lt : f.dest < 2 ^ 32

-- RFC 1071: the sum of the 16-bit words, as they lie in memory
unfoldable pub words : List ℕ → ℕ
words [] = 0
words (x ∷ []) = x
words (x ∷ y ∷ rest) = x + y * 2 ^ 8 + words rest

pub length-ip_header : (f : Fields) → length (ip_header f) ≡ ip_hlen
unfolding ip_header
length-ip_header f = refl

pub drop-ip_header : (f : Fields) (rest : List ℕ) → drop ip_hlen (ip_header f ++ rest) ≡ rest
unfolding ip_header
drop-ip_header f rest = refl

module _ (f : Fields) (ok : IsFields f) where
  -- `ip4_input` reads from the header the fields that were written.
  pub ip_header-read :
      (rest : List ℕ)
      → let bs = ip_header f ++ rest in
        (version bs ≡ 4)
        × (header_len bs ≡ ip_hlen)
        × (packet_len bs ≡ f.total)
        × (fragment bs ≡ 0)
        × (protocol bs ≡ f.proto)
        × (src_addr bs ≡ f.src)
        × (dest_addr bs ≡ f.dest)
  unfolding ip_header
  ip_header-read rest =
      let a = ok.total_lt in
      let c = ok.src_lt in
      let d = ok.dest_lt in (refl, refl, omega arith, refl, refl, omega arith, omega arith)

  raw_sum-words : words (ip_header f) ≡ raw_sum f + folded (raw_sum f)
  unfolding ip_header words raw_sum swap
  raw_sum-words =
      let a = ok.total_lt in
      let t = ok.tos_lt in
      let i = ok.id_lt in
      let l = ok.ttl_lt in
      let p = ok.proto_lt in let s = ok.src_lt in let d = ok.dest_lt in omega arith

  folded-cancels : (n : ℕ) → 0 < n → n < 2 ^ 20 → (n + folded n) % (2 ^ 16 - 1) ≡ 0
  unfolding folded
  folded-cancels n h h' = omega arith

  raw_sum-bound : (0 < raw_sum f) × (raw_sum f < 2 ^ 20)
  unfolding raw_sum swap
  raw_sum-bound =
      let t = ok.tos_lt in let s = ok.src_lt in let d = ok.dest_lt in (omega arith, omega arith)

  words-ip_header : (0 < words (ip_header f)) × (words (ip_header f) % (2 ^ 16 - 1) ≡ 0)
  words-ip_header =
      let bound = raw_sum-bound in
      let sum = raw_sum-words in
      (omega arith, omega (arith, folded-cancels (raw_sum f) bound.0 bound.1))

-- What RFC 1071 asks of `inet_chksum`: bytes whose words sum to a multiple of 65535, and not to 0, have
-- the checksum 0.
abbrev pub InetLaw : (List ℕ → ℕ) → Type 0
InetLaw inet_chksum =
    (bs : List ℕ) → 0 < words bs → words bs % (2 ^ 16 - 1) ≡ 0 → inet_chksum bs ≡ 0

-- A header that `ip4_output_if_src` writes, with fields that fit their places, is one that `ip4_input`
-- reads the same fields from and whose checksum, as RFC 1071 defines it, it finds right.
pub ip_header_lem :
    (inet_chksum : List ℕ → ℕ)
    → InetLaw inet_chksum
    → (f : Fields) → IsFields f
    → (rest : List ℕ)
    → let bs = ip_header f ++ rest in
      (version bs ≡ 4)
      × (header_len bs ≡ ip_hlen)
      × (packet_len bs ≡ f.total)
      × (fragment bs ≡ 0)
      × (protocol bs ≡ f.proto)
      × (src_addr bs ≡ f.src)
      × (dest_addr bs ≡ f.dest)
      × (inet_chksum (take (header_len bs) bs) ≡ 0)
unfolding ip_header
ip_header_lem inet_chksum law f ok rest =
    let sum = words-ip_header f ok in
    let read = ip_header-read f ok rest in
    (read.0, read.1, read.2, read.3, read.4, read.5, read.6, law (ip_header f) sum.0 sum.1)
