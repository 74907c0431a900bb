-- ===== src/Link/Invariant.antt =====
-- The invariant of all links: queues in order, and one callback due exactly when `tx_polling` is set.
use tun2socket_lwip.Prelude.{
  ℕ, ◌+◌, ◌≡◌, ◌≢◌, refl, some, List, [], ◌∷◌, ◌++◌, arith, ◌==◌, if◌then◌else◌, inl, inr,
  Bool-cases,
}
use tun2socket_lwip.Lwip.{Ptr, Pbufs}
use tun2socket_lwip.Queues.Holds.{Holds}
use tun2socket_lwip.Link.{Link, World, store}

-- how many callbacks wait for a link
abbrev pub due : Ptr → List Ptr → ℕ
due ctx [] = 0
due ctx (c ∷ cs) = (if c == ctx then 1 else 0) + due ctx cs

-- what holds of a link with `n` callbacks due
pub record IsSound (l : Link) (n : ℕ) : Type 0 where
  pub received : List Ptr
  pub sent : List Ptr
  pub rx_holds : Holds l.rx received
  pub tx_holds : Holds l.tx sent
  pub polls : n ≡ (if l.tx_polling then 1 else 0)

abbrev pub IsWellFormed : {b : Pbufs} → World b → Type 0
IsWellFormed w = (ctx : Ptr) (l : Link) → w.links ctx ≡ some l → IsSound l (due ctx w.mbox)

pub due-snoc :
    (ctx c : Ptr) (cs : List Ptr)
    → due ctx (cs ++ (c ∷ [])) ≡ due ctx cs + (if c == ctx then 1 else 0)
due-snoc ctx c [] = omega arith
due-snoc ctx c (d ∷ cs) = omega (arith, due-snoc ctx c cs)

module _ {b : Pbufs} where
  -- A change of one link and of its callbacks alone.
  pub update-IsWellFormed :
      (w : World b) (ctx : Ptr) (l' : Link) (h : b.Heap) (mbox : List Ptr)
      → IsWellFormed w
      → IsSound l' (due ctx mbox)
      → ((q : Ptr) → ctx ≢ q → due q mbox ≡ due q w.mbox)
      → IsWellFormed (record w { heap = h; links = store w.links ctx (some l'); mbox = mbox })
  update-IsWellFormed w ctx l' h mbox wf sound others q l at_q = elim (Bool-cases (ctx == q)) [
    | inl same ↦
        let is_q : ctx ≡ q = ground arith in
        let is_l : l' ≡ l = ground arith in rw (← is_l, ← is_q) sound
    | inr other ↦ let ne : ctx ≢ q = ground arith in rw (others q ne) (wf q l (ground arith))
  ]

  -- The same, where no callback is added or run and `tx_polling` stays.
  pub keep-IsWellFormed :
      (w : World b) (ctx : Ptr) {l : Link} (l' : Link) (h : b.Heap) {rx tx : List Ptr}
      → IsWellFormed w
      → w.links ctx ≡ some l
      → Holds l'.rx rx
      → Holds l'.tx tx
      → l'.tx_polling ≡ l.tx_polling
      → IsWellFormed (record w { heap = h; links = store w.links ctx (some l') })
  keep-IsWellFormed w ctx {l} l' h {rx} {tx} wf at_ctx hrx htx same =
      update-IsWellFormed w ctx l' h w.mbox wf
        (record {
          received = rx;
          sent = tx;
          rx_holds = hrx;
          tx_holds = htx;
          polls = rw same (wf ctx l at_ctx).polls;
        })
        (λ q ne. refl)
