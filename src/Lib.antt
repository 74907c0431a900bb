-- ===== src/Lib.antt =====
-- Verification of tun2socket-lwip: the native part, which stands between a tunnel device, an
-- application and the lwIP stack.
--
-- The program. native/interface.c keeps the one network interface of the stack and the device
-- attached to it. native/link.c is that device: packets of the stack wait in a receive queue for
-- `link_read`, and packets given to `link_write` wait in a transmit queue until the stack's thread
-- runs `poll_tx`. native/udp.c does the same for datagrams, each with its addresses and ports in
-- front, and native/tcp.c gives connections as byte streams. All queues are the rings of
-- native/queues.c. The stack itself, lwip/, is a library that native/ calls, with
-- changes of this repository: a port that stands for all ports, an interface that takes packets for
-- any address, and a datagram sent from any source. The path of a datagram through it is modelled.
--
-- The files, and the code that each is about.
--   Prelude     numbers, lists and commands that may fault
--   Lwip        what native/ takes from lwIP: error codes, and packet buffers as an interface with
--               laws; Lwip/Model is an instance of it that computes
--   Address     the macros on IPv4 addresses of lwip/include/lwip/ip4_addr.h and def.h
--   Queues      native/queues.c: `pbuf_queue_t`, `append`, `count` and `pop` for
--               `pbuf_queue_append`, `pbuf_queue_length` and `pbuf_queue_pop`
--   Interface   native/interface.c
--   Link        native/link.c, with `global_if_output` and `global_interface_inject_packet` of
--               native/interface.c, which reach into the link; `link_output` is `if_output`
--   Udp         native/udp.c and native/udp.h
--   Demux       what this repository adds to lwip/core/udp.c: `find_pcb` is the search of `udp_input`
--               with UDP_ACCEPT_ANY_PORT, `new_port` is `udp_new_port`
--   Blocks      the control blocks of lwip/core/udp.c: `udp_new`, `udp_bind`, `udp_connect`,
--               `udp_remove` and the others, on the list `udp_pcbs`
--   Ip4         lwip/core/ipv4/ip4.c: `ip4_route` and `ip4_input_accept`; Ip4/Input is
--               `ip4_input`, Ip4/Output is `ip4_output` and the functions below it
--   UdpIo       lwip/core/udp.c: UdpIo/Input is `udp_input`, UdpIo/Output is `udp_send` and the
--               functions below it; UdpIo/Input/Capture joins Ip4, UdpIo and Udp, and
--               UdpIo/Listen is `udp_conn_listen` of native/udp.c on these blocks
--   TcpDemux    lwip/core/tcp_in.c: `tcp_demux` is the searches of `tcp_input`, with
--               `tcp_listen_input` and `tcp_timewait_input`; a flag of a segment is a Bool.
--               TcpDemux/Header is the checks of `tcp_input`, TcpDemux/Input is the whole of it,
--               and TcpDemux/Backlog the two counting functions of lwip/core/tcp.c
--   Go          link.go, udp.go and tun2socket.go: `read` and `write` are those of link.go, and
--               Go/NewStack is `NewStack` and `Close`
--   Stack       the parts put together: Stack/Emit goes from `udp_conn_sendto` to `link_read`,
--               Stack/Inject from `link_write` to `udp_conn_recv`, and Stack/Bounds says what is
--               read in the packets that are sent
--   Init        native/init.c, with the mutex of native/utils.c: the two threads as steps
--   Tcp         native/tcp.c; `close` is `tcp_listener_close` and `tcp_conn_close`
-- A child module holds proofs and is named for what they are about; the children named Tests hold
-- concrete runs and the instances of the theorems.
--
-- State. `Core` is the state of the stack that packets pass through, with that of the
-- application in it. Link and Udp run on any heap of packet buffers; in Stack that heap is a whole
-- `Core`, by `lift`, so that what native/ calls changes the stack. A queue is a record with its
-- list of 256 slots, and `Holds q xs` says that it is well formed and holds the buffers `xs`,
-- oldest first. Links live in a store by address, so a use after `link_free` is a fault, the result
-- `none` of a command. `none` is also the result where an assertion of lwIP fails, or the test of an
-- `LWIP_ERROR`: both call `abort` in this build. A region of code under a mutex is one step. `mbox` of a `World`, and `due` of a `UdpWorld`, stand for the callbacks
-- that `tcpip_try_callback` accepted and the stack's thread has not run; that call's result is
-- an argument. Step and Reach are the interleavings of the operations.
--
-- Bounds. Numbers are natural numbers; the indices of a ring stay below 256, so its `int` arithmetic
-- does not overflow. A length that goes to lwIP is cut to its `u16_t` where the code's conversion cuts
-- it, and `udp_conn_recv` subtracts in a `size_t` of 64 bits. Sizes that callers pass are not
-- negative. `tcp_listener_accept` is a loop without a bound of its own, and takes fuel:
-- one pass more than connections wait is enough;
-- `new_port` takes fuel too, and 16384 is enough, since the code gives up after as many ports.
--
-- Not modelled. But for what Demux, Blocks, Ip4, UdpIo and TcpDemux model, lwip/ is a copy of
-- another project's library: its calls are arguments (Pbufs, Calls, Chains, TcpCalls, Udps, Netifs,
-- Netconns), among them what `tcp_input` does to an established connection, and
-- what is relied on of them is stated as laws, for which Ip4/Model, TcpDemux/Header/Tests,
-- Link/Tests, Udp/Tests, Tcp/Tests and Tcp/Accept/Tests have instances that compute. Link takes the
-- stack's input of a packet as an argument; `IsStack` says that it reaches links by putting packets out only. A blocking wait is
-- the result `waits` of one test of the loop. `malloc` is an argument of `link_attach`, and
-- taken to succeed elsewhere. Of the Go files those of TCP and the finalizers are left out, and so
-- is the build. Closing a TCP listener, which clears the pointers to it, is left out.
pub mod Prelude
pub mod Address
pub mod Blocks
pub mod Demux
pub mod Go
pub mod Init
pub mod Interface
pub mod Ip4
pub mod Link
pub mod Lwip
pub mod Queues
pub mod Stack
pub mod Tcp
pub mod TcpDemux
pub mod Udp
pub mod UdpIo
