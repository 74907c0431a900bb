-- ===== src/TcpDemux/Backlog/Invariant.antt =====
-- The count of a listener through what happens to one connection.
use tun2socket_lwip.Prelude.{
  ℕ, ◌+◌, ◌-◌, ◌<◌, ◌≤◌, ◌^◌, ◌≡◌, ◌≢◌, ◌⊎◌, inl, inr, refl, ap, sym, subst, ◌∙◌, Bool, true, not,
  ◌&&◌, ◌||◌, Option, none, some, List, [], ◌∷◌, ◌++◌, ◌==◌, leb, arith, Bool-cases, Option-cases,
}
use tun2socket_lwip.Lwip.{Ptr, null, ErrT, is_ok}
use tun2socket_lwip.TcpDemux.{
  TcpPcb, ListenPcb, Segment, TcpPcbs, TcpState, syn_rcvd, other, is_flow, is_wanted, search_front,
  search_first, tcp_demux, new_pcb, tcp_listen_input,
}
use tun2socket_lwip.TcpDemux.Find.{fronted}
use tun2socket_lwip.TcpDemux.Distinct.{demux-active}
use tun2socket_lwip.TcpDemux.Backlog.{tcp_backlog_delayed, tcp_backlog_accepted}
use tun2socket_lwip.TcpDemux.Backlog.Count.{
  waits, one, pending, IsOwned, AllOwned, pending-middle, AllOwned-middle, AllOwned-insert,
  search_first-parts, accepted-one, delayed-one,
}

-- The one listener counts the connections that wait for it, no more than its backlog.
pub record IsCounted (l : ListenPcb) (t : TcpPcbs) : Type 0 where
  pub only : t.listening ≡ l ∷ []
  pub set : l.self ≢ null
  pub counted : l.accepts_pending ≡ pending l.self t.active
  pub bounded : l.accepts_pending ≤ l.backlog
  pub small : l.backlog < 2 ^ 8
  pub owned : AllOwned l.self t.active

-- the first match of a search in front
reordered :
    (p : Ptr) (f : TcpPcb → Bool) (cs active : List TcpPcb)
    → active ≡ fronted f (search_first f cs) cs
    → AllOwned p cs
    → (pending p active ≡ pending p cs) × AllOwned p active
unfolding pending AllOwned
reordered p f cs active e own = elim (Option-cases (search_first f cs)) [
  | inl gone ↦
      let same : active ≡ cs = ground (arith, e, gone) in
      (ap (pending p) same, subst (AllOwned p) (sym same) own)
  | inr (c, found) ↦
      let parts = search_first-parts f cs found in
      let moved : active ≡ c ∷ (parts.0 ++ parts.1) = ground (arith, e, found, parts.3) in
      let all = AllOwned-middle p parts.0 c parts.1 (subst (AllOwned p) parts.2 own) in
      (
        ap (pending p) moved
            ∙ sym (pending-middle p parts.0 c parts.1)
            ∙ ap (pending p) (sym parts.2),
        subst (AllOwned p) (sym moved) all,
      )
]

demux-only :
    (seg : Segment) (t : TcpPcbs) (l : ListenPcb)
    → t.listening ≡ l ∷ []
    → (tcp_demux seg t).1.listening ≡ l ∷ []
unfolding tcp_demux search_front
demux-only seg t l only = elim (Option-cases (search_front (is_flow seg) [] t.active).0) [
  | inr (c, found) ↦ ground (arith, only, found)
  | inl gone ↦ elim (Option-cases (search_first (is_flow seg) t.tw)) [
    | inr (w, waits_) ↦ ground (arith, only, gone, waits_)
    | inl none_ ↦ elim (Bool-cases (is_wanted seg l)) [
      | inl yes_ ↦ ground (arith, only, gone, none_, yes_)
      | inr no_ ↦ ground (arith, only, gone, none_, no_)
    ]
  ]
]

pub tcp_demux-IsCounted :
    (seg : Segment) (l : ListenPcb) (t : TcpPcbs) → IsCounted l t → IsCounted l (tcp_demux seg t).1
tcp_demux-IsCounted seg l t ok =
    let same =
      reordered l.self (is_flow seg) t.active (tcp_demux seg t).1.active (demux-active seg t)
        ok.owned in
    record {
      only = demux-only seg t l ok.only;
      set = ok.set;
      counted = ok.counted ∙ sym same.0;
      bounded = ok.bounded;
      small = ok.small;
      owned = same.1;
    }

-- A listener refuses, or has room for one more that waits.
listen-outcome :
    (seg : Segment) (alloc : Option TcpPcb) (iss : ℕ) (rc : ErrT) (l : ListenPcb)
    (rest : List ListenPcb) (t : TcpPcbs)
    → ((tcp_listen_input seg alloc iss rc l rest t).0 ≡ t)
      ⊎ ((npcb : TcpPcb) × (l.accepts_pending < l.backlog)
          × ((tcp_listen_input seg alloc iss rc l rest t).0 ≡ record t {
            active = new_pcb seg l npcb iss ∷ t.active;
            listening = record l { accepts_pending = l.accepts_pending + 1 } ∷ rest;
          }))
unfolding tcp_listen_input
listen-outcome seg none iss rc l rest t = inl (ground arith)
listen-outcome seg (some npcb) iss rc l rest t =
    elim (Bool-cases
      (not (is_ok rc) || seg.rst || seg.ack || not seg.syn || leb l.backlog l.accepts_pending)) [
        | inl refused ↦ inl (ground arith)
        | inr taken ↦ inr (npcb, ground (arith, taken), ground arith)
      ]

pub tcp_listen_input-IsCounted :
    (seg : Segment) (t : TcpPcbs) (l : ListenPcb) (alloc : Option TcpPcb) (iss : ℕ) (rc : ErrT)
    → IsCounted l t
    → (l' : ListenPcb) × IsCounted l' (tcp_listen_input seg alloc iss rc l [] t).0
unfolding new_pcb pending AllOwned
tcp_listen_input-IsCounted seg t l alloc iss rc ok = elim (listen-outcome seg alloc iss rc l [] t) [
  | inl kept ↦ (l, subst (IsCounted l) (sym kept) ok)
  | inr (npcb, room, made) ↦
      let counted = ok.counted in
      let more = record l { accepts_pending = l.accepts_pending + 1 } in
      (
        more,
        subst (IsCounted more) (sym made) (record {
          only = refl;
          set = ok.set;
          counted = ground (arith, counted);
          bounded = omega (arith, room);
          small = ok.small;
          owned = (record { owner = inr refl; waiting = λ s set. refl }, ok.owned);
        }),
      )
]

-- a connection in the middle of the list, and what the listener counts without it
module _ (l : ListenPcb) (t : TcpPcbs) (ok : IsCounted l t) (front back : List TcpPcb) (c : TcpPcb)
    (at_ : t.active ≡ front ++ (c ∷ back)) where
  others : AllOwned l.self (front ++ back)
  others = (AllOwned-middle l.self front c back (subst (AllOwned l.self) at_ ok.owned)).1

  own : IsOwned l.self c
  own = (AllOwned-middle l.self front c back (subst (AllOwned l.self) at_ ok.owned)).0

  count : l.accepts_pending ≡ one (waits l.self c) + pending l.self (front ++ back)
  count = ok.counted ∙ ap (pending l.self) at_ ∙ pending-middle l.self front c back

  -- the connection and the listener once the connection is counted as accepted
  abbrev pub freed : TcpState → TcpPcb
  freed s = record c { state = s; backlog_pending = c.backlog_pending && c.listener == null }

  abbrev pub fewer : ListenPcb
  fewer = record l { accepts_pending = l.accepts_pending - one (waits l.self c) }

  pub accepted :
      (s : TcpState)
      → tcp_backlog_accepted (record c { state = s }) t.listening ≡ some (freed s, fewer ∷ [])
  accepted s =
      ap (tcp_backlog_accepted (record c { state = s })) ok.only
      ∙ accepted-one l ok.set (record c { state = s }) own.owner (omega (arith, count))

  left : fewer.accepts_pending ≡ pending l.self (front ++ back)
  left = omega (arith, count)

  -- what becomes of the list, with the listener as it is then
  kept :
      (l' : ListenPcb) (active : List TcpPcb)
      → l'.self ≡ l.self
      → l'.backlog ≡ l.backlog
      → l'.accepts_pending ≤ l.accepts_pending
      → l'.accepts_pending ≡ pending l.self active
      → AllOwned l.self active
      → IsCounted l' (record t { active = active; listening = l' ∷ [] })
  kept l' active same_self same_backlog less counted owned = record {
    only = refl;
    set = λ e. ok.set (sym same_self ∙ e);
    counted = counted ∙ ap (λ p. pending p active) (sym same_self);
    bounded = omega (arith, ok.bounded, less, same_backlog);
    small = omega (arith, ok.small, same_backlog);
    owned = subst (λ p. AllOwned p active) (sym same_self) owned;
  }

  pub removed : IsCounted fewer (record t { active = front ++ back; listening = fewer ∷ [] })
  removed = kept fewer (front ++ back) refl refl (omega arith) left others

  freed-IsOwned : IsOwned l.self (freed other)
  freed-IsOwned = record { owner = own.owner; waiting = λ e set. absurd (ground (arith, e)) }

  pub settled :
      IsCounted fewer (record t { active = front ++ (freed other ∷ back); listening = fewer ∷ [] })
  settled =
      let set = ok.set in
      let alone : one (waits l.self (freed other)) ≡ 0 = ground (arith, set) in
      kept fewer (front ++ (freed other ∷ back)) refl refl (omega arith)
        (omega (arith, left, alone, pending-middle l.self front (freed other) back))
        (AllOwned-insert l.self front (freed other) back freed-IsOwned others)

  module _ (shaking : c.state ≡ syn_rcvd) (kept_ : c.listener ≢ null) where
    ours : c.listener ≡ l.self
    ours = elim (own.owner) [ inl closed ↦ absurd (kept_ closed) | inr e ↦ e ]

    in_count : one (waits l.self c) ≡ 1
    in_count =
        let waiting = own.waiting shaking kept_ in let at_l = ours in ground (arith, waiting, at_l)

    -- the connection and the listener once the accept callback has the connection wait on
    abbrev pub again : TcpPcb
    again = record (freed other) { backlog_pending = true }

    abbrev pub as_before : ListenPcb
    as_before = record fewer { accepts_pending = fewer.accepts_pending + 1 }

    pub delayed : tcp_backlog_delayed (freed other) (fewer ∷ []) ≡ some (again, as_before ∷ [])
    delayed =
        let waiting = own.waiting shaking kept_ in
        let at_l = ours in
        delayed-one fewer ok.set (freed other) at_l (ground (arith, waiting, kept_))
          (omega (arith, in_count, count, ok.bounded, ok.small))

    pub established :
        IsCounted as_before
          (record t { active = front ++ (again ∷ back); listening = as_before ∷ [] })
    established =
        let at_l = ours in
        let waits_on : one (waits l.self again) ≡ 1 = ground (arith, at_l) in
        kept as_before (front ++ (again ∷ back)) refl refl (omega (arith, in_count, count))
          (omega (arith, left, waits_on, pending-middle l.self front again back))
          (AllOwned-insert l.self front again back
            (record { owner = own.owner; waiting = λ s set. refl }) others)
