-- ===== src/TcpDemux/Header/Tests.antt =====
-- A SYN whose header ends in its first buffer, and whose four bytes of options go on in the second.
use tun2socket_lwip.Prelude.{
  ℕ, ◌-◌, zero, suc, ◌≤◌, ◌≡◌, ◌⊎◌, refl, Bool, not, true, false, some, List, [], ◌∷◌, ◌++◌, arith,
  length, length-append, length-drop, drop, Bool-cases, inl, inr, leb, if◌then◌else◌, ◌==◌,
}
use tun2socket_lwip.Lwip.{Ptr, null, err_ok, Pbufs}
use tun2socket_lwip.Ip4.{Calls, Core, isbroadcast, ismulticast}
use tun2socket_lwip.Ip4.Input.{no_packet}
use tun2socket_lwip.UdpIo.Sample.{tun, blocks}
use tun2socket_lwip.TcpDemux.Header.{
  Chains, TcpInput, count_len, parse_tcp, split_options, tcp_check,
}
use tun2socket_lwip.TcpDemux.Header.Chain.{ChainLaws}
use tun2socket_lwip.TcpDemux.Header.Checks.{is_acceptable, read, Passes, Drops, tcp_check_lem}

-- one chain of two buffers, at 5 and 6, with the `tot_len` of both
abbrev Pieces : Type 0
Pieces = List ℕ × List ℕ × ℕ × ℕ

abbrev remove : Ptr → ℕ → Pieces → Bool × Pieces
remove p n (xs, ys, m, k) =
    if p == 5
    then (if leb n (length xs) then (false, (drop n xs, ys, m - n, k)) else (true, (xs, ys, m, k)))
    else if p == 6
    then (if leb n (length ys) then (false, (xs, drop n ys, m, k - n)) else (true, (xs, ys, m, k)))
    else (not (n == 0), (xs, ys, m, k))

abbrev pieces : Pbufs
pieces = record {
  Heap = Pieces;
  payload = λ p h. if p == 5 then h.0 ++ h.1 else if p == 6 then h.1 else [];
  refs = λ p h. 1;
  pbuf_alloc = λ _ _ _ h. (null, h);
  pbuf_free = λ p h. h;
  pbuf_ref = λ p h. h;
  pbuf_take = λ p xs h. (err_ok, h);
  pbuf_copy_partial = λ p n off h. [];
  pbuf_cat = λ p q h. h;
  pbuf_add_header = λ p n h. (true, h);
  pbuf_remove_header = remove;
}

abbrev piece_calls : Calls pieces (Unit {0})
piece_calls = record {
  len = λ p h. if p == 5 then length h.0 else if p == 6 then length h.1 else 0;
  pbuf_realloc = λ p n h. h;
  pbuf_header_force = λ p n h. h;
  pbuf_chain = λ p q h. h;
  write = λ p xs h. h;
  inet_chksum = λ bs. 0;
  ip_chksum_pseudo_partial = λ p proto n chklen src dest h. 0;
  ip_chksum_pseudo = λ p proto n src dest h. 0;
  icmp_proto_unreach = λ p s. s;
  icmp_port_unreach = λ p s. s;
}

abbrev two_pieces : Chains pieces
two_pieces = record {
  next = λ p h. if p == 5 then 6 else null;
  tot = λ p h. if p == 5 then h.2 else if p == 6 then h.3 else 0;
  set_tot_len =
      λ p n h. if p == 5 then (h.0, h.1, n, h.3) else if p == 6 then (h.0, h.1, h.2, n) else h;
}

drop-append : (n : ℕ) (xs ys : List ℕ) → n ≤ length xs → drop n (xs ++ ys) ≡ drop n xs ++ ys
drop-append zero xs ys fits = refl
drop-append (suc n) [] ys fits = absurd (omega arith)
drop-append (suc n) (x ∷ xs) ys fits = drop-append n xs ys (omega arith)

drop-length : (xs ys : List ℕ) → drop (length xs) (xs ++ ys) ≡ ys
drop-length [] ys = refl
drop-length (x ∷ xs) ys = drop-length xs ys

remove-bytes :
    (p : Ptr) (n : ℕ) (h : Pieces)
    → (remove p n h).0 ≡ false
    → pieces.payload p (remove p n h).1 ≡ drop n (pieces.payload p h)
remove-bytes p n (xs, ys, m, k) ok = elim (Bool-cases (p == 5)) [
  | inl head ↦ elim (Bool-cases (leb n (length xs))) [
    | inl fits ↦
        let some_ : n ≤ length xs = ground (arith, fits) in
        let moved = drop-append n xs ys some_ in ground (arith, head, fits, moved)
    | inr long ↦ absurd (ground (arith, head, long, ok))
  ]
  | inr behind ↦ elim (Bool-cases (p == 6)) [
    | inl second ↦ elim (Bool-cases (leb n (length ys))) [
      | inl fits ↦ ground (arith, behind, second, fits)
      | inr long ↦ absurd (ground (arith, behind, second, long, ok))
    ]
    | inr neither ↦
        let none_ : n ≡ 0 = ground (arith, behind, neither, ok) in
        ground (arith, behind, neither, none_)
  ]
]

two_pieces-ChainLaws : ChainLaws pieces piece_calls two_pieces
two_pieces-ChainLaws = record {
  len_le = λ p h. ground (arith, length-append h.0 h.1);
  next_set = λ p h more. ground arith;
  next_bytes = λ p h set. ground (arith, drop-length h.0 h.1);
  remove_ok = λ p n h fits. ground arith;
  remove_bytes = remove-bytes;
  remove_len = λ p n h fits. ground (arith, length-drop n h.0, length-drop n h.1);
  remove_next = λ p n h. refl;
  remove_next_len = λ p n h set. ground arith;
  remove_behind = λ p n h set. ground arith;
  set_bytes = λ p q n h. ground arith;
  set_len = λ p q n h. ground arith;
  remove_tot = λ p n h fits. ground arith;
  remove_next_tot = λ p n h set. ground arith;
  set_tot = λ p n h set. ground arith;
}

-- 40000 to 443, with 24 bytes of header: 22 in the first buffer, then two of options and three of data
abbrev start : Core pieces (Unit {0})
start = record {
  heap = (
    156 ∷ 64 ∷ 1 ∷ 187 ∷ 0 ∷ 0 ∷ 0 ∷ 5 ∷ 0 ∷ 0 ∷ 0 ∷ 0 ∷ 96 ∷ 2 ∷ 3 ∷ 232 ∷ 0 ∷ 0 ∷ 0 ∷ 0 ∷ 2 ∷ 4
        ∷ [],
    5 ∷ 180 ∷ 7 ∷ 8 ∷ 9 ∷ [],
    27,
    5,
  );
  ip_data = record no_packet { current_netif = some tun; current_iphdr_dest = 0x8080808 };
  ip_id = 7;
  udp_data = (0, 0);
  table = blocks;
  app = tt;
}

abbrev what_is_read : TcpInput
what_is_read = read pieces piece_calls two_pieces 5 tun start (2 ∷ 4 ∷ []) (5 ∷ 180 ∷ [])

-- The options are found in both buffers, and the data is left.
split_run :
    tcp_check pieces piece_calls two_pieces 5 start
    ≡ some (some what_is_read, record start { heap = ([], 7 ∷ 8 ∷ 9 ∷ [], 3, 3) })
unfolding tcp_check split_options count_len parse_tcp isbroadcast ismulticast
split_run = refl

tcp_check_lem_example :
    ((is_acceptable pieces piece_calls two_pieces 5 tun start ≡ true)
      × Passes pieces piece_calls two_pieces 5 tun start)
    ⊎ ((is_acceptable pieces piece_calls two_pieces 5 tun start ≡ false)
        × Drops pieces piece_calls two_pieces 5 tun start)
tcp_check_lem_example =
    tcp_check_lem pieces piece_calls two_pieces 5 tun start two_pieces-ChainLaws (omega arith) refl
      (omega arith) (record { tot_eq = refl; next_eq = λ set. refl })
