-- ===== src/Ip4/Model.antt =====
-- Concrete calls of lwIP that keep the laws, on the concrete heap of buffers, of which each is one piece.
-- They are instances for the tests, and no models of lwip/core/pbuf.c or lwip/core/inet_chksum.c.
use tun2socket_lwip.Prelude.{
  ℕ, ◌-◌, ◌%◌, ◌^◌, ◌≤◌, ◌≡◌, refl, List, ◌++◌, arith, length, take, drop, replicate, length-append,
  length-drop, length-take, take-all, if◌then◌else◌, ◌==◌,
}
use tun2socket_lwip.Lwip.Model.{pbufs, set_bytes, length-front}
use tun2socket_lwip.Ip4.{Calls}
use tun2socket_lwip.Ip4.Output.Checksum.{words, InetLaw}
use tun2socket_lwip.Ip4.Output.Sent.{CallLaws}

-- the complement of the sum in ones' complement
abbrev pub rfc_chksum : List ℕ → ℕ
rfc_chksum bs =
    if words bs == 0 then 2 ^ 16 - 1 else (2 ^ 16 - 1 - words bs % (2 ^ 16 - 1)) % (2 ^ 16 - 1)

pub rfc_chksum-InetLaw : InetLaw rfc_chksum
rfc_chksum-InetLaw bs some_ whole = ground arith

-- `xs` over the first bytes of `ys`, as far as they reach
abbrev overwrite : List ℕ → List ℕ → List ℕ
overwrite xs ys = take (length ys) (xs ++ drop (length xs) ys)

abbrev pub calls : {A : Type 0} → Calls pbufs A
calls = record {
  len = λ p m. length (m.bytes p);
  pbuf_realloc = λ p n m. set_bytes p (take n (m.bytes p)) m;
  pbuf_header_force = λ p n m. set_bytes p (replicate n 0 ++ m.bytes p) m;
  pbuf_chain = λ p q m. set_bytes p (m.bytes p ++ m.bytes q) m;
  write = λ p xs m. set_bytes p (overwrite xs (m.bytes p)) m;
  inet_chksum = rfc_chksum;
  ip_chksum_pseudo_partial = λ p proto n chklen src dest m. 0;
  ip_chksum_pseudo = λ p proto n src dest m. 0;
  icmp_proto_unreach = λ p s. s;
  icmp_port_unreach = λ p s. s;
}

overwrite-fits :
    (xs ys : List ℕ) → length xs ≤ length ys → overwrite xs ys ≡ xs ++ drop (length xs) ys
overwrite-fits xs ys fits =
    take-all (length ys) (xs ++ drop (length xs) ys)
      (omega (arith, length-append xs (drop (length xs) ys), length-drop (length xs) ys))

length-overwrite : (xs ys : List ℕ) → length (overwrite xs ys) ≡ length ys
length-overwrite xs ys = omega (
  arith,
  length-take (length ys) (xs ++ drop (length xs) ys),
  length-append xs (drop (length xs) ys),
  length-drop (length xs) ys,
)

pub calls-CallLaws : {A : Type 0} → CallLaws pbufs (calls {A = A})
calls-CallLaws = record {
  add_len = λ p n h room. ground (arith, length-front n (h.bytes p));
  write_bytes = λ p xs h fits. ground (arith, overwrite-fits xs (h.bytes p));
  write_len = λ p xs h. ground (arith, length-overwrite xs (h.bytes p));
  write_refs = λ p xs h. refl;
}
