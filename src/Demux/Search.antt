-- ===== src/Demux/Search.antt =====
-- Which control block `udp_input` gives a datagram to, and the order that it leaves the list in.
use tun2socket_lwip.Prelude.{
  ℕ, ◌≡◌, refl, ◌∙◌, ap, sym, Bool, true, false, not, ◌&&◌, Option, none, some, List, [], ◌∷◌, ◌++◌,
  append-nil, append_assoc, arith, ◌==◌, if◌then◌else◌, inl, inr, Bool-cases,
}
use tun2socket_lwip.Demux.{
  Pcb, Datagram, addr_broadcast, matches, from_remote, prefer, search, find_pcb,
}

-- the first element that passes a test, and the list without it
pub first : (Pcb → Bool) → List Pcb → Option Pcb
first test [] = none
first test (p ∷ ps) = let rest = first test ps in if test p then some p else rest

pub without : (Pcb → Bool) → List Pcb → List Pcb
without test [] = []
without test (p ∷ ps) = let rest = without test ps in if test p then ps else p ∷ rest

abbrev or_else : Option Pcb → Option Pcb → Option Pcb
or_else none o = o
or_else (some p) o = some p

and_true : (a b : Bool) {c : Bool} → a ≡ true → b ≡ c → (a && b) ≡ c
and_true a b e f = ap (λ x. x && b) e ∙ f

and_false : (a b : Bool) → a ≡ false → (a && b) ≡ false
and_false a b e = ap (λ x. x && b) e

module _ (same_net : ℕ → ℕ → Bool) (d : Datagram) where
  -- a full match, and a match of a block that is not connected
  abbrev pub is_full : Pcb → Bool
  is_full p = matches same_net d p && from_remote same_net d p

  abbrev pub is_open : Pcb → Bool
  is_open p = matches same_net d p && not p.connected

  -- the choice and the list, as the comments of `udp_input` describe them, behind `seen` with `uncon`
  abbrev pub settle : List Pcb → Option Pcb → List Pcb → Option Pcb → Option Pcb × List Pcb
  settle seen uncon ps none = (or_else uncon (first is_open ps), seen ++ ps)
  settle seen uncon ps (some p) = (some p, p ∷ (seen ++ without is_full ps))

  prefer-or_else :
      (d.broadcast && d.dst_ip == addr_broadcast) ≡ false
      → (uncon : Option Pcb) (p : Pcb)
      → prefer same_net d uncon p ≡ or_else uncon (if p.connected then none else some p)
  unfolding prefer
  prefer-or_else one none p = refl
  prefer-or_else one (some u) p = ground arith

  or_else_assoc : (a b c : Option Pcb) → or_else (or_else a b) c ≡ or_else a (or_else b c)
  or_else_assoc none b c = refl
  or_else_assoc (some a) b c = refl

  first-miss :
      (test : Pcb → Bool) (p : Pcb) (ps : List Pcb)
      → test p ≡ false
      → (first test (p ∷ ps) ≡ first test ps) × (without test (p ∷ ps) ≡ p ∷ without test ps)
  unfolding first without
  first-miss test p ps miss = (rw miss, rw miss)

  first-hit :
      (test : Pcb → Bool) (p : Pcb) (ps : List Pcb)
      → test p ≡ true
      → (first test (p ∷ ps) ≡ some p) × (without test (p ∷ ps) ≡ ps)
  unfolding first without
  first-hit test p ps hit = (rw hit, rw hit)

  -- A block that is not a full match joins those that were passed.
  settle-cons :
      (seen : List Pcb) (uncon uncon' : Option Pcb) (p : Pcb) (ps : List Pcb)
      → is_full p ≡ false
      → or_else uncon' (first is_open ps) ≡ or_else uncon (first is_open (p ∷ ps))
      → (o : Option Pcb) → settle (seen ++ (p ∷ [])) uncon' ps o ≡ settle seen uncon (p ∷ ps) o
  settle-cons seen uncon uncon' p ps miss same none = λ i. (same i, append_assoc seen (p ∷ []) ps i)
  settle-cons seen uncon uncon' p ps miss same (some q) =
      let kept = ap (λ r. seen ++ r) (sym (first-miss is_full p ps miss).1) in
      λ i. (some q, q ∷ (append_assoc seen (p ∷ []) (without is_full ps) ∙ kept) i)

  outcome-cons :
      (seen : List Pcb) (uncon uncon' : Option Pcb) (p : Pcb) (ps : List Pcb)
      → is_full p ≡ false
      → or_else uncon' (first is_open ps) ≡ or_else uncon (first is_open (p ∷ ps))
      → settle (seen ++ (p ∷ [])) uncon' ps (first is_full ps)
        ≡ settle seen uncon (p ∷ ps) (first is_full (p ∷ ps))
  outcome-cons seen uncon uncon' p ps miss same =
      settle-cons seen uncon uncon' p ps miss same (first is_full ps)
      ∙ ap (settle seen uncon (p ∷ ps)) (sym (first-miss is_full p ps miss).0)

  -- A matching block, connected or not, and what it makes of `uncon_pcb`.
  prefer-first :
      (d.broadcast && d.dst_ip == addr_broadcast) ≡ false
      → (uncon : Option Pcb) (p : Pcb) (ps : List Pcb) → matches same_net d p ≡ true
      → or_else (prefer same_net d uncon p) (first is_open ps)
        ≡ or_else uncon (first is_open (p ∷ ps))
  prefer-first one uncon p ps found = elim (Bool-cases (p.connected)) [
    | inl busy ↦
        ap (λ u. or_else u (first is_open ps))
          (prefer-or_else one uncon p ∙ ap (λ c. or_else uncon (if c then none else some p)) busy)
        ∙ or_else_assoc uncon none (first is_open ps)
        ∙ ap (or_else uncon) (sym (first-miss is_open p ps (and_true _ _ found (ap not busy))).0)
    | inr idle ↦
        ap (λ u. or_else u (first is_open ps))
          (prefer-or_else one uncon p ∙ ap (λ c. or_else uncon (if c then none else some p)) idle)
        ∙ or_else_assoc uncon (some p) (first is_open ps)
        ∙ ap (or_else uncon) (sym (first-hit is_open p ps (and_true _ _ found (ap not idle))).0)
  ]

  -- One block: it is a full match, a match of its local end, or neither.
  search-full :
      (seen : List Pcb) (uncon : Option Pcb) (p : Pcb) (ps : List Pcb)
      → matches same_net d p ≡ true
      → from_remote same_net d p ≡ true
      → search same_net d seen uncon (p ∷ ps) ≡ (some p, p ∷ (seen ++ ps))
  unfolding search
  search-full seen uncon p ps found full = rw (found, full)

  search-part :
      (seen : List Pcb) (uncon : Option Pcb) (p : Pcb) (ps : List Pcb)
      → matches same_net d p ≡ true
      → from_remote same_net d p ≡ false
      → search same_net d seen uncon (p ∷ ps)
        ≡ search same_net d (seen ++ (p ∷ [])) (prefer same_net d uncon p) ps
  unfolding search
  search-part seen uncon p ps found part = rw (found, part)

  search-miss :
      (seen : List Pcb) (uncon : Option Pcb) (p : Pcb) (ps : List Pcb)
      → matches same_net d p ≡ false
      → search same_net d seen uncon (p ∷ ps) ≡ search same_net d (seen ++ (p ∷ [])) uncon ps
  unfolding search
  search-miss seen uncon p ps miss = rw miss

  pub settle-full :
      (seen : List Pcb) (uncon : Option Pcb) (p : Pcb) (ps : List Pcb)
      → is_full p ≡ true
      → settle seen uncon (p ∷ ps) (first is_full (p ∷ ps)) ≡ (some p, p ∷ (seen ++ ps))
  settle-full seen uncon p ps full =
      let hit = first-hit is_full p ps full in
      ap (settle seen uncon (p ∷ ps)) hit.0 ∙ ap (λ r. (some p, p ∷ (seen ++ r))) hit.1

  search-settle :
      (d.broadcast && d.dst_ip == addr_broadcast) ≡ false
      → (seen : List Pcb) (uncon : Option Pcb) (ps : List Pcb)
      → search same_net d seen uncon ps ≡ settle seen uncon ps (first is_full ps)
  unfolding search first without
  search-settle one seen none [] = λ i. (none, sym (append-nil seen) i)
  search-settle one seen (some u) [] = λ i. (some u, sym (append-nil seen) i)
  search-settle one seen uncon (p ∷ ps) = elim (Bool-cases (matches same_net d p)) [
    | inr miss ↦
        search-miss seen uncon p ps miss
        ∙ search-settle one (seen ++ (p ∷ [])) uncon ps
        ∙ outcome-cons seen uncon uncon p ps (and_false _ _ miss)
            (ap (or_else uncon) (sym (first-miss is_open p ps (and_false _ _ miss)).0))
    | inl found ↦ elim (Bool-cases (from_remote same_net d p)) [
      | inl full ↦
          search-full seen uncon p ps found full
          ∙ sym (settle-full seen uncon p ps (and_true _ _ found full))
      | inr part ↦
          search-part seen uncon p ps found part
          ∙ search-settle one (seen ++ (p ∷ [])) (prefer same_net d uncon p) ps
          ∙ outcome-cons seen uncon (prefer same_net d uncon p) p ps (and_true _ _ found part)
              (prefer-first one uncon p ps found)
    ]
  ]

  -- The search of `udp_input`, for a datagram that is not to the broadcast address, picks the first
  -- control block that matches both ends, and moves it to the front of the list, the others in
  -- order; if there is none it leaves the list, and picks the first unconnected block that matches
  -- the local end, or no block.
  pub find_pcb_lem :
      (d.broadcast && d.dst_ip == addr_broadcast) ≡ false
      → (pcbs : List Pcb) → find_pcb same_net d pcbs ≡ settle [] none pcbs (first is_full pcbs)
  unfolding find_pcb
  find_pcb_lem one pcbs = search-settle one [] none pcbs

  pub first-passes :
      (test : Pcb → Bool) (ps : List Pcb) {p : Pcb} → first test ps ≡ some p → test p ≡ true
  unfolding first
  first-passes test [] e = absurd (ground arith)
  first-passes test (q ∷ ps) {p} e = elim (Bool-cases (test q)) [
    | inl hit ↦
        let same : some q ≡ some p = sym (first-hit test q ps hit).0 ∙ e in
        let is_p : q ≡ p = cc in ap test (sym is_p) ∙ hit
    | inr miss ↦ first-passes test ps (sym (first-miss test q ps miss).0 ∙ e)
  ]

  pub first-middle :
      (test : Pcb → Bool) (front : List Pcb) (p : Pcb) (back : List Pcb)
      → test p ≡ true
      → (q : Pcb) × (first test (front ++ (p ∷ back)) ≡ some q)
  unfolding first
  first-middle test [] p back hit = (p, (first-hit test p back hit).0)
  first-middle test (r ∷ front) p back hit = elim (Bool-cases (test r)) [
    | inl here_ ↦ (r, (first-hit test r (front ++ (p ∷ back)) here_).0)
    | inr miss ↦
        let rest = first-middle test front p back hit in
        (rest.0, (first-miss test r (front ++ (p ∷ back)) miss).0 ∙ rest.1)
  ]
