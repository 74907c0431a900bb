-- ===== src/TcpDemux/Backlog/System.antt =====
-- The segments that come in and the fates of connections, in any order, with one listener.
use tun2socket_lwip.Prelude.{
  ℕ, ◌<◌, ◌≤◌, ◌^◌, ◌≡◌, ◌≢◌, ap, sym, subst, ◌∙◌, Option, some, List, [], ◌∷◌, ◌++◌, arith,
}
use tun2socket_lwip.Lwip.{null, ErrT}
use tun2socket_lwip.TcpDemux.{
  TcpPcb, ListenPcb, Segment, TcpPcbs, syn_rcvd, other, tcp_demux, tcp_listen_input,
}
use tun2socket_lwip.TcpDemux.Backlog.{tcp_backlog_delayed, tcp_backlog_accepted}
use tun2socket_lwip.TcpDemux.Backlog.Count.{pending, AllOwned}
use tun2socket_lwip.TcpDemux.Backlog.Invariant.{
  IsCounted, tcp_demux-IsCounted, tcp_listen_input-IsCounted, fewer, accepted, removed, settled,
  again, as_before, delayed, established,
}

-- What happens to a connection in the middle of the list: `tcp_process` ends its handshake, where the
-- accept callback keeps it waiting for `netconn_accept`; it is accepted, or leaves the handshake by
-- `tcp_close`; or it is removed.
pub data Step (t t' : TcpPcbs) : Type 0 where
  arrive : (seg : Segment) → t' ≡ (tcp_demux seg t).1 → Step t t'
  connect :
      (seg : Segment) (l : ListenPcb) (rest : List ListenPcb) (alloc : Option TcpPcb) (iss : ℕ)
      (rc : ErrT)
      → (tcp_demux seg t).1.listening ≡ l ∷ rest
      → t' ≡ (tcp_listen_input seg alloc iss rc l rest (tcp_demux seg t).1).0
      → Step t t'
  establish :
      (front : List TcpPcb) (c : TcpPcb) (back : List TcpPcb) (c1 c2 : TcpPcb)
      (ls1 ls2 : List ListenPcb)
      → t.active ≡ front ++ (c ∷ back)
      → c.state ≡ syn_rcvd
      → c.listener ≢ null
      → tcp_backlog_accepted (record c { state = other }) t.listening ≡ some (c1, ls1)
      → tcp_backlog_delayed c1 ls1 ≡ some (c2, ls2)
      → t' ≡ record t { active = front ++ (c2 ∷ back); listening = ls2 }
      → Step t t'
  settle :
      (front : List TcpPcb) (c : TcpPcb) (back : List TcpPcb) (c1 : TcpPcb) (ls1 : List ListenPcb)
      → t.active ≡ front ++ (c ∷ back)
      → tcp_backlog_accepted (record c { state = other }) t.listening ≡ some (c1, ls1)
      → t' ≡ record t { active = front ++ (c1 ∷ back); listening = ls1 }
      → Step t t'
  remove :
      (front : List TcpPcb) (c : TcpPcb) (back : List TcpPcb) (c1 : TcpPcb) (ls1 : List ListenPcb)
      → t.active ≡ front ++ (c ∷ back)
      → tcp_backlog_accepted c t.listening ≡ some (c1, ls1)
      → t' ≡ record t { active = front ++ back; listening = ls1 }
      → Step t t'

pub data Reach (t : TcpPcbs) : TcpPcbs → Type 0 where
  here : Reach t t
  next : {u v : TcpPcbs} → Reach t u → Step u v → Reach t v

-- A partial result is one result: what holds of it holds of any that it is said to be.
one_result :
    {A : Type 0} (P : A → Type 0) {o : Option A} {x y : A} → o ≡ some x → o ≡ some y → P x → P y
one_result P e e' p = subst P (cc) p

Step-IsCounted :
    {t t' : TcpPcbs} (l : ListenPcb)
    → IsCounted l t
    → Step t t'
    → (l' : ListenPcb) × IsCounted l' t'
Step-IsCounted {t} l ok (arrive seg e) =
    (l, subst (IsCounted l) (sym e) (tcp_demux-IsCounted seg l t ok))
Step-IsCounted {t} l ok (connect seg z rest alloc iss rc at_ e) =
    let u = (tcp_demux seg t).1 in
    let ok' = tcp_demux-IsCounted seg l t ok in
    let only = ok'.only in
    let same : l ≡ z = ground (arith, at_, only) in
    let alone : [] ≡ rest = ground (arith, at_, only) in
    let made = tcp_listen_input-IsCounted seg u l alloc iss rc ok' in
    (
      made.0,
      subst (λ v. IsCounted made.0 v)
          (ap (λ k. (tcp_listen_input seg alloc iss rc k [] u).0) same
            ∙ ap (λ r. (tcp_listen_input seg alloc iss rc z r u).0) alone
            ∙ sym e)
          made.1,
    )
Step-IsCounted {t} l ok (establish front c back c1 c2 ls1 ls2 at_ shaking kept_ e1 e2 e) =
    let as_ = as_before l t ok front back c at_ shaking kept_ in
    (
      as_,
      subst (IsCounted as_) (sym e) (
          one_result
            (λ r. IsCounted as_ (record t { active = front ++ (r.0 ∷ back); listening = r.1 }))
            (one_result
              (λ r.
                tcp_backlog_delayed r.0 r.1
                ≡ some (again l t ok front back c at_ shaking kept_, as_ ∷ []))
              (accepted l t ok front back c at_ other) e1
              (delayed l t ok front back c at_ shaking kept_))
            e2 (established l t ok front back c at_ shaking kept_)),
    )
Step-IsCounted {t} l ok (settle front c back c1 ls1 at_ e1 e) =
    let l' = fewer l t ok front back c at_ in
    (
      l',
      subst (IsCounted l') (sym e) (
          one_result
            (λ r. IsCounted l' (record t { active = front ++ (r.0 ∷ back); listening = r.1 }))
            (accepted l t ok front back c at_ other) e1 (settled l t ok front back c at_)),
    )
Step-IsCounted {t} l ok (remove front c back c1 ls1 at_ e1 e) =
    let l' = fewer l t ok front back c at_ in
    (
      l',
      subst (IsCounted l') (sym e) (
          one_result (λ r. IsCounted l' (record t { active = front ++ back; listening = r.1 }))
            (accepted l t ok front back c at_ c.state) e1 (removed l t ok front back c at_)),
    )

Reach-IsCounted :
    {t t' : TcpPcbs} (l : ListenPcb)
    → IsCounted l t
    → Reach t t'
    → (l' : ListenPcb) × IsCounted l' t'
Reach-IsCounted l ok here = (l, ok)
Reach-IsCounted l ok (next r s) =
    let before = Reach-IsCounted l ok r in Step-IsCounted before.0 before.1 s

-- a state as `tcp_listener_listen` leaves it: one listener, and no connections
pub record IsFresh (l : ListenPcb) (t : TcpPcbs) : Type 0 where
  pub none_yet : t.active ≡ []
  pub only : t.listening ≡ l ∷ []
  pub set : l.self ≢ null
  pub zero_ : l.accepts_pending ≡ 0
  pub small : l.backlog < 2 ^ 8

IsFresh-IsCounted : {t : TcpPcbs} (l : ListenPcb) → IsFresh l t → IsCounted l t
unfolding pending AllOwned
IsFresh-IsCounted {t} l fresh =
    let none_yet = fresh.none_yet in
    record {
      only = fresh.only;
      set = fresh.set;
      counted = fresh.zero_ ∙ ap (pending l.self) (sym none_yet);
      bounded = omega (arith, fresh.zero_);
      small = fresh.small;
      owned = subst (AllOwned l.self) (sym none_yet) tt;
    }

-- From a state with one listener, whose backlog is below 256, and without connections, whatever segments
-- come in and whichever connections are established, accepted, closed or removed: the listener is still
-- the only one, and it counts the connections that wait for it, no more than its backlog.
pub backlog_lem :
    {t t' : TcpPcbs} (l : ListenPcb)
    → IsFresh l t
    → Reach t t'
    → (l' : ListenPcb) × (t'.listening ≡ l' ∷ [])
      × (l'.accepts_pending ≡ pending l'.self t'.active)
      × (l'.accepts_pending ≤ l'.backlog)
backlog_lem l fresh reach =
    let end_ = Reach-IsCounted l (IsFresh-IsCounted l fresh) reach in
    let ok = end_.1 in (end_.0, ok.only, ok.counted, ok.bounded)

-- From a state with one listener, whose backlog is below 256, and without connections, whatever segments
-- come in and whichever connections are established, accepted, closed or removed: `tcp_backlog_accepted`
-- of any connection on the list ends with none of its assertions failed, and leaves one listener, which
-- counts the other connections that wait for it.
pub accepted_lem :
    {t t' : TcpPcbs} (l : ListenPcb)
    → IsFresh l t
    → Reach t t'
    → (front : List TcpPcb) (c : TcpPcb) (back : List TcpPcb) → t'.active ≡ front ++ (c ∷ back)
    → (c1 : TcpPcb) × (l' : ListenPcb) × (tcp_backlog_accepted c t'.listening ≡ some (c1, l' ∷ []))
      × (l'.accepts_pending ≡ pending l'.self (front ++ back))
accepted_lem {t} {t'} l fresh reach front c back at_ =
    let end_ = Reach-IsCounted l (IsFresh-IsCounted l fresh) reach in
    let ok = end_.1 in
    (
      _,
      fewer end_.0 t' ok front back c at_,
      accepted end_.0 t' ok front back c at_ c.state,
      (removed end_.0 t' ok front back c at_).counted,
    )
