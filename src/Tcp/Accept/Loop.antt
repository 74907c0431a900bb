-- ===== src/Tcp/Accept/Loop.antt =====
-- The loop of `tcp_listener_accept`.
