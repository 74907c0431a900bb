-- ===== src/TcpDemux/Input/Connect.antt =====
-- From the interface to a new connection: `ip4_input` and `tcp_input` put together.
use tun2socket_lwip.Prelude.{◌+◌, ◌^◌, ◌<◌, ◌≡◌, ◌≢◌, refl, inl, inr, true, [], ◌∷◌, ◌++◌, arith}
use tun2socket_lwip.Lwip.{Ptr, null, Pbufs, tot_len}
use tun2socket_lwip.Interface.{Netif}
use tun2socket_lwip.Ip4.{Core, Calls, freed, protocol, proto_tcp}
use tun2socket_lwip.Ip4.Input.Filter.{ip_bytes, took, entered}
use tun2socket_lwip.TcpDemux.{
  TcpPcb, ListenPcb, Segment, TcpPcbs, Action, send_syn_ack, abandon, new_pcb,
}
use tun2socket_lwip.TcpDemux.Header.{Chains}
use tun2socket_lwip.TcpDemux.Header.Chain.{ChainLaws, IsCounted}
use tun2socket_lwip.TcpDemux.Header.Checks.{is_acceptable, read, Passes, tcp_check_lem}
use tun2socket_lwip.TcpDemux.Input.{TcpStack, TcpCalls, segment_of}

module _ (b : Pbufs) (lwip : Calls b TcpStack) (chains : Chains b) (calls : TcpCalls b) (p : Ptr)
    (inp : Netif) (s : Core b TcpStack) where
  -- the state that `tcp_input` starts in, and the segment that it looks for
  abbrev pub at_tcp : Core b TcpStack
  at_tcp = entered b lwip p inp s

  abbrev pub seg : Segment
  seg = segment_of (read b lwip chains p inp at_tcp [] []) at_tcp.ip_data inp

  -- a segment that `tcp_input` lets on to its searches
  pub record IsTcp : Type 0 where
    pub not_null : p ≢ null
    pub passes : took b lwip p inp s ≡ true
    pub proto_eq : protocol (ip_bytes b lwip p inp s) ≡ proto_tcp
    pub short : tot_len b p at_tcp.heap < 2 ^ 16
    pub acceptable : is_acceptable b lwip chains p inp at_tcp ≡ true
    pub counted : IsCounted b chains p at_tcp.heap

  module _ (chain : ChainLaws b lwip chains) (ok : IsTcp) where
    pub passed : Passes b lwip chains p inp at_tcp
    passed =
        elim (tcp_check_lem b lwip chains p inp at_tcp chain ok.not_null refl ok.short ok.counted) [
          | inl (yes_, r) ↦ r
          | inr (no_, r) ↦ absurd (ground (arith, no_, ok.acceptable))
        ]

    -- the state once the header is off
    abbrev pub at_search : Core b TcpStack
    at_search = record at_tcp { heap = passed.0 }

    module _ (l : ListenPcb) (npcb : TcpPcb) where
      -- the new connection, and the state once its SYN has been answered, or given up
      abbrev pub conn : TcpPcb
      conn = new_pcb seg l npcb calls.tcp_next_iss

      abbrev pub connected : TcpPcbs
      connected = record (s.app.pcbs) {
        active = conn ∷ s.app.pcbs.active;
        listening = record l { accepts_pending = l.accepts_pending + 1 } ∷ [];
      }

      abbrev pub left : TcpPcbs → Action → Core b TcpStack
      left pcbs action = freed b p (record at_search {
        app = record { pcbs = pcbs; actions = s.app.actions ++ (action ∷ []) };
      })

      abbrev pub answered : Core b TcpStack
      answered = left connected (send_syn_ack conn)

      abbrev pub given_up : Core b TcpStack
      given_up = left (s.app.pcbs) (abandon conn)
