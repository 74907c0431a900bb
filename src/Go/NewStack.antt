-- ===== src/Go/NewStack.antt =====
-- `NewStack` and `Close` of tun2socket.go, over the functions of native/ that they call.
use tun2socket_lwip.Prelude.{Option, none, some, ◌==◌, if◌then◌else◌, ℤ}
use tun2socket_lwip.Lwip.{Ptr, null}

-- The C functions that tun2socket.go reaches through NewLink, ListenTCP and ListenUDP, and through
-- the methods Close; NULL is failure.
pub record Natives (W : Type 0) : Type 0 where
  pub link_attach : ℤ → W → Ptr × W
  pub link_close : Ptr → W → W
  pub tcp_listener_listen : W → Ptr × W
  pub tcp_listener_close : Ptr → W → W
  pub udp_conn_listen : W → Ptr × W
  pub udp_conn_close : Ptr → W → W

-- `stack`
pub record GoStack : Type 0 where
  pub link : Ptr
  pub tcp : Ptr
  pub udp : Ptr

module _ {W : Type 0} (c : Natives W) where
  -- `NewStack`; `none` is an error
  unfoldable pub new_stack : ℤ → W → Option GoStack × W
  new_stack mtu w =
      let (link, w1) = c.link_attach mtu w in
      let (tcp, w2) = c.tcp_listener_listen w1 in
      let (udp, w3) = c.udp_conn_listen w2 in
      if link == null
      then (none, w1)
      else if tcp == null
      then (none, c.link_close link w2)
      else if udp == null
      then (none, c.tcp_listener_close tcp (c.link_close link w3))
      else (some (record { link = link; tcp = tcp; udp = udp }), w3)

  -- `(*stack).Close`
  pub close : GoStack → W → W
  close s w = c.udp_conn_close (s.udp) (c.tcp_listener_close (s.tcp) (c.link_close (s.link) w))
