-- ===== src/Tcp/Accept/Tests.antt =====
-- Three connections that wait, of which the second is the first with both its ends.
use tun2socket_lwip.Prelude.{◌≡◌, refl, Bool, true, false, some, List, [], ◌∷◌, ◌==◌, if◌then◌else◌}
use tun2socket_lwip.Lwip.{Ptr, null, ErrT, err_ok, err_clsd}
use tun2socket_lwip.Lwip.Model.{update}
use tun2socket_lwip.Tcp.{Netconns, TcpConn, tcp_listener_accept, accept_one}
use tun2socket_lwip.Tcp.Accept.{View}

-- the connections that wait, and which are allocated
abbrev Waiting : Type 0
Waiting = List Ptr × (Ptr → Bool)

abbrev accept : Waiting → ErrT × Ptr × Waiting
accept ([], alive) = (err_clsd, null, ([], alive))
accept (c ∷ cs, alive) = (err_ok, c, (cs, alive))

-- the remote end is lost for connection 5
abbrev has_end : Bool → Ptr → Bool
has_end own c = if own then true else (if c == 5 then false else true)

abbrev netconns : Netconns
netconns = record {
  Heap = Waiting;
  netconn_new = λ s. (null, s);
  netconn_bind_any = λ c s. (err_ok, s);
  netconn_bind_if = λ c s. (err_ok, s);
  netconn_listen = λ c s. (err_ok, s);
  netconn_accept = λ c s. accept s;
  netconn_getaddr = λ c own s. (if has_end own c then err_ok else err_clsd, 7, 443, s);
  netconn_close = λ c s. s;
  netconn_prepare_delete = λ c s. s;
  netconn_delete = λ c s. (s.0, update s.1 c false);
  netconn_recv = λ c s. (err_clsd, null, s);
  netconn_write = λ c bytes s. (err_ok, s);
  netbuf_copy_partial = λ p size off s. [];
  netbuf_len = λ p s. 0;
  netbuf_free = λ p s. s;
  netbuf_delete = λ p s. s;
}

abbrev view : View netconns
view = record { waiting = λ s. s.0; known = λ own c s. has_end own c; live = λ c s. s.1 c }

abbrev three : Waiting
three = (5 ∷ 6 ∷ 8 ∷ [], λ c. true)

abbrev second : TcpConn
second = record {
  conn = 6;
  local = 7;
  remote = 7;
  local_port = 443;
  remote_port = 443;
  pending = null;
  offset = 0;
}

-- The second is returned, the first is deleted, and the third waits on.
second_run :
    tcp_listener_accept netconns 4 9 three
    ≡ some (some second, (8 ∷ [], update (λ c. true) 5 false))
unfolding tcp_listener_accept accept_one
second_run = refl
