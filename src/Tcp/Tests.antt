-- ===== src/Tcp/Tests.antt =====
-- Connections at concrete inputs, over a concrete instance of the netconn interface.
use tun2socket_lwip.Prelude.{
  ℕ, ◌%◌, ◌^◌, ◌≡◌, ◌≢◌, ◌↔◌, ◌⊎◌, refl, Bool, true, false, none, some, List, [], ◌∷◌, ◌++◌, arith,
  ltb, length, take, drop, ◌==◌, if◌then◌else◌,
}
use tun2socket_lwip.Lwip.{Ptr, null, ErrT, err_ok, err_arg, err_clsd}
use tun2socket_lwip.Lwip.Model.{update}
use tun2socket_lwip.Address.{ip4_addr}
use tun2socket_lwip.Tcp.{
  Netconns, TcpConn, accepted, tcp_conn_read, accept_one, tcp_listener_accept, tcp_listener_listen,
  tcp_conn_local_addr, tcp_conn_remote_addr,
}
use tun2socket_lwip.Tcp.Stream.{
  StreamLaws, IsReading, bytes_read, remaining, read_all, read_all-stream, tcp_conn_read-progress,
}
use tun2socket_lwip.Tcp.Listener.{NetconnLaws, tcp_listener_listen_lem, accept_one-addresses}

-- one buffer at a time, the buffers to come, and for each connection to accept whether lwIP knows
-- the peer's address
record Netstate : Type 0 where
  current : List ℕ
  coming : List (List ℕ)
  clients : List Bool
  known : Bool
  alive : Ptr → Bool

-- a buffer holds less than 2^16 bytes
abbrev clip : List ℕ → List ℕ
clip xs = if ltb (length xs) (2 ^ 16) then xs else []

abbrev clip_all : List (List ℕ) → List (List ℕ)
clip_all [] = []
clip_all (xs ∷ xss) = clip xs ∷ clip_all xss

abbrev accept : Netstate → ErrT × Ptr × Netstate
accept s = elim s.clients [
  | [] ↦ (err_clsd, null, s)
  | k ∷ ks ↦ (err_ok, 2, record s { clients = ks; known = k })
]

abbrev recv : Netstate → ErrT × Ptr × Netstate
recv s = elim s.coming [
  | [] ↦ (err_clsd, null, s)
  | xs ∷ xss ↦ (err_ok, 1, record s { current = xs; coming = xss })
]

abbrev getaddr : Bool → Netstate → ErrT × ℕ × ℕ × Netstate
getaddr own s =
    if s.known
    then (if own then (err_ok, ip4_addr 8 8 8 8, 443, s) else (err_ok, ip4_addr 10 0 0 2, 40000, s))
    else (err_clsd, 0, 0, s)

abbrev netconns : Netconns
netconns = record {
  Heap = Netstate;
  netconn_new = λ s. (2, record s { alive = update s.alive 2 true });
  netconn_bind_any = λ c s. (if c == null then err_arg else err_ok, s);
  netconn_bind_if = λ c s. (err_ok, s);
  netconn_listen = λ c s. (err_ok, s);
  netconn_accept = λ c s. accept s;
  netconn_getaddr = λ c own s. getaddr own s;
  netconn_close = λ c s. s;
  netconn_prepare_delete = λ c s. s;
  netconn_delete = λ c s. record s { alive = update s.alive c false };
  netconn_recv = λ c s. recv s;
  netconn_write = λ c bytes s. (err_ok, s);
  netbuf_copy_partial = λ p size off s. take size (drop off (clip s.current));
  netbuf_len = λ p s. length (clip s.current);
  netbuf_free = λ p s. s;
  netbuf_delete = λ p s. s;
}

netconns-StreamLaws : StreamLaws netconns
netconns-StreamLaws = record {
  payload = λ p s. clip s.current;
  incoming = λ c s. clip_all s.coming;
  copy_bytes = λ p size off s. refl;
  len_bytes = λ p s. refl;
  len_lt = λ p s. ground arith;
  recv_next = λ c s good. ground arith;
  recv_fail = λ c s bad. ground arith;
  free_incoming = λ c p s. refl;
  delete_incoming = λ c p s. refl;
}

netconns-NetconnLaws : NetconnLaws netconns
netconns-NetconnLaws = record {
  live = λ c s. s.alive c;
  new_live = λ s ne. refl;
  bind_live = λ q c s. refl;
  bind_if_live = λ q c s. refl;
  listen_live = λ q c s. refl;
  delete_live = λ c s. ground arith;
}

-- two buffers are to come; the second client has its address, the first has not
abbrev state : Netstate
state = record {
  current = [];
  coming = (1 ∷ 2 ∷ 3 ∷ []) ∷ (4 ∷ []) ∷ [];
  clients = false ∷ true ∷ [];
  known = true;
  alive = λ _. false;
}

abbrev conn : TcpConn
conn = record {
  conn = 2;
  local = ip4_addr 10 0 0 2;
  remote = ip4_addr 8 8 8 8;
  local_port = 40000;
  remote_port = 443;
  pending = null;
  offset = 0;
}

-- one byte of the first buffer has been read
abbrev half_read : TcpConn
half_read = record conn { pending = 1; offset = 1 }

abbrev half_state : Netstate
half_state = record state { current = 1 ∷ 2 ∷ 3 ∷ []; coming = (4 ∷ []) ∷ [] }

half_read-IsReading : IsReading netconns netconns-StreamLaws half_read half_state
unfolding netconns-StreamLaws
half_read-IsReading = record { inside = λ ne. omega arith }

read_all-stream_example :
    let (bs, c', s') =
      read_all netconns netconns-StreamLaws half_read (1 ∷ 5 ∷ 5 ∷ []) half_state in
    remaining netconns netconns-StreamLaws half_read half_state
    ≡ bs ++ remaining netconns netconns-StreamLaws c' s'
read_all-stream_example =
    read_all-stream netconns netconns-StreamLaws (1 ∷ 5 ∷ 5 ∷ []) half_read half_state
      half_read-IsReading

read_in_pieces :
    (read_all netconns netconns-StreamLaws half_read (1 ∷ 5 ∷ 5 ∷ []) half_state).0 ≡ 2 ∷ 3 ∷ 4 ∷ []
unfolding read_all tcp_conn_read netconns-StreamLaws
read_in_pieces = refl

tcp_conn_read-progress_example :
    (bytes_read (tcp_conn_read netconns half_read 65536 half_state).0 ≡ []) ↔ (65536 % 2 ^ 16 ≡ 0)
tcp_conn_read-progress_example =
    tcp_conn_read-progress netconns netconns-StreamLaws half_read 65536 half_state (omega arith)
      half_read-IsReading

tcp_listener_listen_lem_example :
    ((◌≡◌ {A = ℕ} 2 null) × (tcp_listener_listen netconns state ≡ none))
    ⊎ ((◌≢◌ {A = ℕ} 2 null)
        × ((s' : Netstate) × (tcp_listener_listen netconns state ≡ some (some 2, s'))
            × (netconns-NetconnLaws.live 2 s' ≡ true)))
tcp_listener_listen_lem_example = tcp_listener_listen_lem netconns netconns-NetconnLaws state

abbrev first_gone : Netstate
first_gone = record state { clients = true ∷ []; known = false; alive = update state.alive 2 false }

abbrev second_here : Netstate
second_here = record first_gone { clients = []; known = true }

accepts_second : tcp_listener_accept netconns 5 7 state ≡ some (some conn, second_here)
unfolding tcp_listener_accept accept_one
accepts_second = refl

accept_one-addresses_example :
    (t : TcpConn) × (accept_one netconns 7 first_gone ≡ (accepted t, second_here))
    × (tcp_conn_local_addr t ≡ ((10, 0, 0, 2), 40000))
    × (tcp_conn_remote_addr t ≡ ((8, 8, 8, 8), 443))
accept_one-addresses_example =
    accept_one-addresses netconns 7 first_gone 10 0 0 2 8 8 8 8 40000 443 refl refl refl
      (omega arith)
