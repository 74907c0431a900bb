-- ===== src/TcpDemux/Backlog/Count.antt =====
-- How many connections wait for a listener, and what the two counting functions do to the count.
use tun2socket_lwip.Prelude.{
  ℕ, ◌+◌, ◌-◌, ◌<◌, ◌≤◌, ◌^◌, ◌≡◌, ◌≢◌, ◌⊎◌, inl, inr, refl, ap, Bool, true, false, ◌&&◌, some,
  List, [], ◌∷◌, ◌++◌, ◌==◌, if◌then◌else◌, arith, Bool-cases,
}
use tun2socket_lwip.Lwip.{Ptr, null}
use tun2socket_lwip.TcpDemux.{TcpPcb, ListenPcb, syn_rcvd, search_first}
use tun2socket_lwip.TcpDemux.Find.{without_first}
use tun2socket_lwip.TcpDemux.Backlog.{
  at_listener, increment, decrement, tcp_backlog_delayed, tcp_backlog_accepted,
}

-- The connection waits for the listener at `p`.
abbrev pub waits : Ptr → TcpPcb → Bool
waits p c = c.backlog_pending && c.listener == p

abbrev pub one : Bool → ℕ
one w = if w then 1 else 0

unfoldable pub pending : Ptr → List TcpPcb → ℕ
pending p [] = 0
pending p (c ∷ cs) = one (waits p c) + pending p cs

-- A connection is of the listener at `p` or of one that is closed; while its handshake lasts, it waits.
pub record IsOwned (p : Ptr) (c : TcpPcb) : Type 0 where
  pub owner : (c.listener ≡ null) ⊎ (c.listener ≡ p)
  pub waiting : c.state ≡ syn_rcvd → c.listener ≢ null → c.backlog_pending ≡ true

unfoldable pub AllOwned : Ptr → List TcpPcb → Type 0
AllOwned p [] = Unit
AllOwned p (c ∷ cs) = IsOwned p c × AllOwned p cs

module _ (p : Ptr) where
  pub pending-middle :
      (front : List TcpPcb) (c : TcpPcb) (back : List TcpPcb)
      → pending p (front ++ (c ∷ back)) ≡ one (waits p c) + pending p (front ++ back)
  unfolding pending
  pending-middle [] c back = refl
  pending-middle (x ∷ xs) c back = omega (arith, pending-middle xs c back)

  pub AllOwned-middle :
      (front : List TcpPcb) (c : TcpPcb) (back : List TcpPcb)
      → AllOwned p (front ++ (c ∷ back))
      → IsOwned p c × AllOwned p (front ++ back)
  unfolding AllOwned
  AllOwned-middle [] c back all = all
  AllOwned-middle (x ∷ xs) c back all =
      let rest = AllOwned-middle xs c back all.1 in (rest.0, (all.0, rest.1))

  pub AllOwned-insert :
      (front : List TcpPcb) (c : TcpPcb) (back : List TcpPcb)
      → IsOwned p c
      → AllOwned p (front ++ back)
      → AllOwned p (front ++ (c ∷ back))
  unfolding AllOwned
  AllOwned-insert [] c back own all = (own, all)
  AllOwned-insert (x ∷ xs) c back own all = (all.0, AllOwned-insert xs c back own all.1)

-- the first match of a search, and the others around it
pub search_first-parts :
    {A : Type 0} (f : A → Bool) (xs : List A) {y : A}
    → search_first f xs ≡ some y
    → (front : List A) × (back : List A) × (xs ≡ front ++ (y ∷ back))
      × (without_first f xs ≡ front ++ back)
unfolding search_first without_first
search_first-parts f [] e = absurd (ground (arith, e))
search_first-parts f (x ∷ xs) e = elim (Bool-cases (f x)) [
  | inl hit ↦ ([], xs, ground (arith, e, hit), ground (arith, hit))
  | inr miss ↦
      let rest = search_first-parts f xs (ground (arith, e, miss)) in
      (x ∷ rest.0, rest.1, ap (λ r. x ∷ r) rest.2, ground (arith, miss, rest.3))
]

module _ (l : ListenPcb) (set : l.self ≢ null) (c : TcpPcb) where
  -- The count goes down by one if the connection waits, and no assertion fails.
  pub accepted-one :
      (c.listener ≡ null) ⊎ (c.listener ≡ l.self)
      → one (waits l.self c) ≤ l.accepts_pending
      → tcp_backlog_accepted c (l ∷ [])
        ≡ some (
          record c { backlog_pending = c.backlog_pending && c.listener == null },
          record l { accepts_pending = l.accepts_pending - one (waits l.self c) } ∷ [],
        )
  unfolding tcp_backlog_accepted at_listener decrement
  accepted-one own some_ = elim (Bool-cases (c.backlog_pending)) [
    | inr settled ↦ ground (arith, settled)
    | inl wait ↦ elim own [
      | inl closed ↦ ground (arith, wait, closed, set)
      | inr ours ↦ ground (arith, wait, ours, set, some_)
    ]
  ]

  -- It goes up by one if the connection is to wait.
  pub delayed-one :
      c.listener ≡ l.self
      → c.backlog_pending ≡ false
      → l.accepts_pending + 1 < 2 ^ 8
      → tcp_backlog_delayed c (l ∷ [])
        ≡ some (
          record c { backlog_pending = true },
          record l { accepts_pending = l.accepts_pending + 1 } ∷ [],
        )
  unfolding tcp_backlog_delayed at_listener increment
  delayed-one ours settled fits = ground (arith, ours, settled, fits, set)
