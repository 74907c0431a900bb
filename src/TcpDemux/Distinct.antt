-- ===== src/TcpDemux/Distinct.antt =====
-- No two connections have the same ends, whatever segments arrive.
use tun2socket_lwip.Prelude.{
  ℕ, ◌≡◌, refl, ◌∙◌, ap, Bool, true, false, not, ◌&&◌, ◌||◌, Option, none, some, List, [], ◌∷◌,
  arith, ◌==◌, leb, ◌⊎◌, Option-cases, Bool-cases, inl, inr,
}
use tun2socket_lwip.Lwip.{is_ok, ErrT}
use tun2socket_lwip.Demux.{no_index}
use tun2socket_lwip.TcpDemux.{
  TcpPcb, ListenPcb, Segment, TcpPcbs, to_listener, on_netif, is_flow, is_wanted, search_first,
  tcp_demux, tcp_listen_input, new_pcb,
}
use tun2socket_lwip.TcpDemux.Find.{fronted, without_first, search_front_lem}

abbrev same_ends : TcpPcb → TcpPcb → Bool
same_ends c d =
    c.remote_port == d.remote_port
    && c.local_port == d.local_port
    && c.remote_ip == d.remote_ip
    && c.local_ip == d.local_ip

-- a block of the list has the ends of `c`
abbrev has_ends : TcpPcb → List TcpPcb → Bool
has_ends c [] = false
has_ends c (d ∷ ds) = same_ends c d || has_ends c ds

abbrev pub Distinct : List TcpPcb → Type 0
Distinct [] = Unit
Distinct (c ∷ cs) = (has_ends c cs ≡ false) × Distinct cs

-- every block may get segments from the interface
abbrev pub AllOn : ℕ → List TcpPcb → Type 0
AllOn idx [] = Unit
AllOn idx (c ∷ cs) = ((c.netif_idx == no_index || c.netif_idx == idx) ≡ true) × AllOn idx cs

pub record IsTcp (idx : ℕ) (t : TcpPcbs) : Type 0 where
  pub distinct : Distinct t.active
  pub all_on : AllOn idx t.active

module _ (f : TcpPcb → Bool) where
  has_ends-without :
      (c : TcpPcb) (ds : List TcpPcb)
      → has_ends c ds ≡ false
      → has_ends c (without_first f ds) ≡ false
  unfolding without_first
  has_ends-without c [] e = refl
  has_ends-without c (d ∷ ds) e = ground (arith, has_ends-without c ds)

  pub Distinct-without : (ds : List TcpPcb) → Distinct ds → Distinct (without_first f ds)
  unfolding without_first
  Distinct-without [] ok = tt
  Distinct-without (d ∷ ds) ok = elim (Bool-cases (f d)) [
    | inl hit ↦ rw hit ok.1
    | inr miss ↦ rw miss (has_ends-without d ds ok.0, Distinct-without ds ok.1)
  ]

  pub AllOn-without : (idx : ℕ) (ds : List TcpPcb) → AllOn idx ds → AllOn idx (without_first f ds)
  unfolding without_first
  AllOn-without idx [] ok = tt
  AllOn-without idx (d ∷ ds) ok = elim (Bool-cases (f d)) [
    | inl hit ↦ rw hit ok.1
    | inr miss ↦ rw miss (ok.0, AllOn-without idx ds ok.1)
  ]

  -- a block that the others do not have the ends of, among them
  has_ends-first :
      (ds : List TcpPcb) (x : TcpPcb) (d : TcpPcb)
      → search_first f ds ≡ some x
      → has_ends d ds ≡ false
      → same_ends x d ≡ false
  unfolding search_first
  has_ends-first [] x d e away = absurd (ground arith)
  has_ends-first (y ∷ ds) x d e away = elim (Bool-cases (f y)) [
    | inl hit ↦ let same : y ≡ x = ground arith in rw (← same) (ground arith)
    | inr miss ↦ has_ends-first ds x d (ground arith) (ground arith)
  ]

  first-apart :
      (ds : List TcpPcb) (x : TcpPcb)
      → Distinct ds
      → search_first f ds ≡ some x
      → has_ends x (without_first f ds) ≡ false
  unfolding search_first without_first
  first-apart [] x ok e = refl
  first-apart (y ∷ ds) x ok e = elim (Bool-cases (f y)) [
    | inl hit ↦ let same : y ≡ x = ground arith in rw (hit, ← same) ok.0
    | inr miss ↦
        let later : search_first f ds ≡ some x = ground arith in
        let apart = has_ends-first ds x y later ok.0 in
        ground (arith, miss, apart, first-apart ds x ok.1 later)
  ]

  AllOn-first :
      (idx : ℕ) (ds : List TcpPcb) (x : TcpPcb)
      → AllOn idx ds
      → search_first f ds ≡ some x
      → (x.netif_idx == no_index || x.netif_idx == idx) ≡ true
  unfolding search_first
  AllOn-first idx [] x ok e = absurd (ground arith)
  AllOn-first idx (y ∷ ds) x ok e = elim (Bool-cases (f y)) [
    | inl hit ↦ let same : y ≡ x = ground arith in rw (← same) ok.0
    | inr miss ↦ AllOn-first idx ds x ok.1 (ground arith)
  ]

  pub fronted-IsTcp :
      (idx : ℕ) (ds : List TcpPcb) (o : Option TcpPcb)
      → search_first f ds ≡ o
      → Distinct ds
      → AllOn idx ds
      → Distinct (fronted f o ds) × AllOn idx (fronted f o ds)
  fronted-IsTcp idx ds none e ok on = (ok, on)
  fronted-IsTcp idx ds (some x) e ok on = (
    (first-apart ds x ok e, Distinct-without ds ok),
    (AllOn-first idx ds x on e, AllOn-without idx ds on),
  )

-- what a search finds passes its test
search_first-true :
    {A : Type 0} (f : A → Bool) (xs : List A) (x : A) → search_first f xs ≡ some x → f x ≡ true
unfolding search_first
search_first-true f [] x e = absurd (ground arith)
search_first-true f (y ∷ ys) x e = elim (Bool-cases (f y)) [
  | inl hit ↦ let same : y ≡ x = ground arith in rw (← same) hit
  | inr miss ↦ search_first-true f ys x (ground arith)
]

module _ (seg : Segment) (l : ListenPcb) (npcb : TcpPcb) (iss : ℕ) where
  -- A segment of no connection differs in its ends from all.
  new_pcb-apart :
      (cs : List TcpPcb)
      → search_first (is_flow seg) cs ≡ none
      → AllOn seg.input cs
      → has_ends (new_pcb seg l npcb iss) cs ≡ false
  unfolding search_first is_flow new_pcb
  new_pcb-apart [] e on = refl
  new_pcb-apart (c ∷ cs) e on = elim (Bool-cases (is_flow seg c)) [
    | inl hit ↦ absurd (ground arith)
    | inr miss ↦ let here = on.0 in ground (arith, miss, here, new_pcb-apart cs (ground arith) on.1)
  ]

module _ (seg : Segment) (t : TcpPcbs) where
  pub demux-active :
      (tcp_demux seg t).1.active
      ≡ fronted (is_flow seg) (search_first (is_flow seg) t.active) t.active
  unfolding tcp_demux
  demux-active = elim (Option-cases (search_first (is_flow seg) t.active)) [
    | inl gone ↦ elim (Option-cases (search_first (is_flow seg) t.tw)) [
      | inl none_ ↦ ground (arith, search_front_lem (is_flow seg) t.active, gone, none_)
      | inr (w, waits) ↦ ground (arith, search_front_lem (is_flow seg) t.active, gone, waits)
    ]
    | inr (c, found) ↦ ground (arith, search_front_lem (is_flow seg) t.active, found)
  ]

  demux-listener :
      (l : ListenPcb)
      → (tcp_demux seg t).0 ≡ to_listener l
      → (search_first (is_flow seg) t.active ≡ none)
        × (search_first (is_wanted seg) t.listening ≡ some l)
  unfolding tcp_demux
  demux-listener l e =
      let active_ = search_front_lem (is_flow seg) t.active in
      let listening_ = search_front_lem (is_wanted seg) t.listening in
      elim (Option-cases (search_first (is_flow seg) t.active)) [
        | inr (c, found) ↦ absurd (ground (arith, e, active_, found))
        | inl gone ↦ elim (Option-cases (search_first (is_flow seg) t.tw)) [
          | inr (w, waits) ↦ absurd (ground (arith, e, active_, gone, waits))
          | inl none_ ↦ elim (Option-cases (search_first (is_wanted seg) t.listening)) [
            | inl nobody ↦ absurd (ground (arith, e, active_, gone, none_, listening_, nobody))
            | inr (z, wants) ↦ (gone, ground (arith, e, active_, gone, none_, listening_, wants))
          ]
        ]
      ]

  -- the listener takes segments of this interface
  listener-on : (l : ListenPcb) → is_wanted seg l ≡ true → on_netif seg l.netif_idx ≡ true
  unfolding is_wanted
  listener-on l e = ground arith

  pub tcp_demux-IsTcp : IsTcp seg.input t → IsTcp seg.input (tcp_demux seg t).1
  tcp_demux-IsTcp ok =
      let moved =
        fronted-IsTcp (is_flow seg) seg.input t.active (search_first (is_flow seg) t.active) refl
          ok.distinct ok.all_on in
      record { distinct = rw demux-active moved.0; all_on = rw demux-active moved.1 }

-- a new block is on the interface of its listener
listener-on-new :
    (seg : Segment) (l : ListenPcb) (npcb : TcpPcb) (iss : ℕ)
    → on_netif seg l.netif_idx ≡ true
    → ((new_pcb seg l npcb iss).netif_idx == no_index
        || (new_pcb seg l npcb iss).netif_idx == seg.input)
      ≡ true
unfolding new_pcb
listener-on-new seg l npcb iss e = e

-- A listener adds one block to the connections, or none.
listen-active :
    (seg : Segment) (alloc : Option TcpPcb) (iss : ℕ) (rc : ErrT) (l : ListenPcb)
    (rest : List ListenPcb) (t : TcpPcbs)
    → ((tcp_listen_input seg alloc iss rc l rest t).0.active ≡ t.active)
      ⊎ ((npcb : TcpPcb) × ((tcp_listen_input seg alloc iss rc l rest t).0.active
            ≡ new_pcb seg l npcb iss ∷ t.active))
unfolding tcp_listen_input
listen-active seg none iss rc l rest t = inl (ground arith)
listen-active seg (some npcb) iss rc l rest t =
    elim (Bool-cases
      (not (is_ok rc) || seg.rst || seg.ack || not seg.syn || leb l.backlog l.accepts_pending)) [
        | inl refused ↦ inl (ground arith)
        | inr taken ↦ inr (npcb, ground arith)
      ]

pub tcp_listen_input-IsTcp :
    (seg : Segment) (t : TcpPcbs) (l : ListenPcb) (rest : List ListenPcb) (alloc : Option TcpPcb)
    (iss : ℕ) (rc : ErrT)
    → IsTcp seg.input t
    → (tcp_demux seg t).0 ≡ to_listener l
    → IsTcp seg.input (tcp_listen_input seg alloc iss rc l rest (tcp_demux seg t).1).0
tcp_listen_input-IsTcp seg t l rest alloc iss rc ok e =
    let found = demux-listener seg t l e in
    let wanted = search_first-true (is_wanted seg) t.listening l found.1 in
    let same : (tcp_demux seg t).1.active ≡ t.active =
      demux-active seg t ∙ ap (λ o. fronted (is_flow seg) o t.active) found.0 in
    elim (listen-active seg alloc iss rc l rest (tcp_demux seg t).1) [
      | inl kept ↦ record {
        distinct = rw (kept ∙ same) ok.distinct;
        all_on = rw (kept ∙ same) ok.all_on;
      }
      | inr (npcb, added) ↦
          let more = added ∙ ap (λ cs. new_pcb seg l npcb iss ∷ cs) same in
          record {
            distinct =
                rw more (new_pcb-apart seg l npcb iss t.active found.0 ok.all_on, ok.distinct);
            all_on =
                rw more (listener-on-new seg l npcb iss (listener-on seg t l wanted), ok.all_on);
          }
    ]
