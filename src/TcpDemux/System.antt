-- ===== src/TcpDemux/System.antt =====
-- The segments that come in by the one interface, and the ends of connections, in any order.
use tun2socket_lwip.Prelude.{ℕ, ◌≡◌, sym, Option, List, [], ◌==◌}
use mathlib.Core.Path.{subst}
use tun2socket_lwip.Lwip.{ErrT, Ptr}
use tun2socket_lwip.TcpDemux.{
  TcpPcb, ListenPcb, Segment, TcpPcbs, to_listener, tcp_demux, tcp_listen_input,
}
use tun2socket_lwip.TcpDemux.Find.{without_first}
use tun2socket_lwip.TcpDemux.Distinct.{
  IsTcp, Distinct-without, AllOn-without, tcp_demux-IsTcp, tcp_listen_input-IsTcp,
}

-- A segment that comes in by the interface, to a connection or to the listener; or the end of a
-- connection.
pub data Step (idx : ℕ) (t t' : TcpPcbs) : Type 0 where
  arrive : (seg : Segment) → seg.input ≡ idx → t' ≡ (tcp_demux seg t).1 → Step idx t t'
  connect :
      (seg : Segment) (l : ListenPcb) (rest : List ListenPcb) (alloc : Option TcpPcb) (iss : ℕ)
      (rc : ErrT)
      → seg.input ≡ idx
      → (tcp_demux seg t).0 ≡ to_listener l
      → t' ≡ (tcp_listen_input seg alloc iss rc l rest (tcp_demux seg t).1).0
      → Step idx t t'
  remove :
      (p : Ptr)
      → t' ≡ record t { active = without_first (λ c. c.self == p) t.active }
      → Step idx t t'

pub data Reach (idx : ℕ) (t : TcpPcbs) : TcpPcbs → Type 0 where
  here : Reach idx t t
  next : {u v : TcpPcbs} → Reach idx t u → Step idx u v → Reach idx t v

Step-IsTcp : {idx : ℕ} {t t' : TcpPcbs} → Step idx t t' → IsTcp idx t → IsTcp idx t'
Step-IsTcp {idx} {t} (arrive seg at_ e) ok = rw e (
    subst (λ n. IsTcp n (tcp_demux seg t).1) at_
      (tcp_demux-IsTcp seg t (subst (λ n. IsTcp n t) (sym at_) ok)))
Step-IsTcp {idx} {t} (connect seg l rest alloc iss rc at_ to e) ok = rw e (
    subst (λ n. IsTcp n (tcp_listen_input seg alloc iss rc l rest (tcp_demux seg t).1).0) at_
      (tcp_listen_input-IsTcp seg t l rest alloc iss rc (subst (λ n. IsTcp n t) (sym at_) ok) to))
Step-IsTcp {idx} {t} (remove p e) ok = rw e (record {
  distinct = Distinct-without (λ c. c.self == p) t.active ok.distinct;
  all_on = AllOn-without (λ c. c.self == p) idx t.active ok.all_on;
})

-- From a state without connections, whatever segments come in by the one interface and whichever
-- connections end, no two connections have the same addresses and ports.
pub Reach-IsTcp : {idx : ℕ} {t t' : TcpPcbs} → t.active ≡ [] → Reach idx t t' → IsTcp idx t'
Reach-IsTcp {idx} {t} none_yet here = record { distinct = rw none_yet tt; all_on = rw none_yet tt }
Reach-IsTcp none_yet (next r s) = Step-IsTcp s (Reach-IsTcp none_yet r)
