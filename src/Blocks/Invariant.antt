-- ===== src/Blocks/Invariant.antt =====
-- The invariant of the control blocks: the list names allocated blocks, each once and with a port, and
-- no two of them claim one port at addresses that overlap.
use tun2socket_lwip.Prelude.{
  ℕ, ◌≡◌, ◌≢◌, Bool, true, false, not, ◌&&◌, ◌||◌, ◌⊎◌, Option, none, some, List, [], ◌∷◌, arith,
  ◌==◌, if◌then◌else◌, inl, inr, Bool-cases,
}
use tun2socket_lwip.Lwip.{Ptr, null}
use tun2socket_lwip.Demux.{Pcb, addr_any, taken}
use tun2socket_lwip.Demux.Port.{InRange}
use tun2socket_lwip.Blocks.{Table, blocks, on_list, any_clash, unlink}

-- no address stands twice on a list
abbrev pub Once : List Ptr → Type 0
Once [] = Unit
Once (p ∷ ps) = (on_list p ps ≡ false) × Once ps

-- One port, at addresses of which one is the other or any.
abbrev pub overlap : Pcb → ℕ → ℕ → Bool
overlap c ip port =
    c.local_port == port && (c.local_ip == ip || ip == addr_any || c.local_ip == addr_any)

pub record IsTable (t : Table) : Type 0 where
  pub null_free : t.pcbs null ≡ none
  pub self_eq : (p : Ptr) (c : Pcb) → t.pcbs p ≡ some c → c.self ≡ p
  pub live :
      (p : Ptr) → on_list p t.udp_pcbs ≡ true → (c : Pcb) × (t.pcbs p ≡ some c) × (c.local_port ≢ 0)
  pub has_port :
      (p : Ptr) (c : Pcb) → t.pcbs p ≡ some c → (on_list p t.udp_pcbs ≡ true) ⊎ (c.local_port ≡ 0)
  pub once : Once t.udp_pcbs
  pub port_ok : InRange t.udp_port
  pub apart :
      (p q : Ptr) (c d : Pcb)
      → on_list p t.udp_pcbs ≡ true
      → on_list q t.udp_pcbs ≡ true
      → p ≢ q
      → t.pcbs p ≡ some c
      → t.pcbs q ≡ some d
      → overlap c d.local_ip d.local_port ≡ false

-- the list with a block on it
abbrev pub activated : Ptr → List Ptr → List Ptr
activated p ps = if on_list p ps then ps else p ∷ ps

pub on_list-activated :
    (p q : Ptr) (ps : List Ptr) → on_list q (activated p ps) ≡ (q == p || on_list q ps)
unfolding on_list
on_list-activated p q ps = elim (Bool-cases (on_list p ps)) [
  | inl there ↦ ground arith
  | inr gone ↦ ground arith
]

pub Once-activated : (p : Ptr) (ps : List Ptr) → Once ps → Once (activated p ps)
Once-activated p ps h = elim (Bool-cases (on_list p ps)) [
  | inl there ↦ rw there h
  | inr gone ↦ rw gone (gone, h)
]

pub on_list-unlink :
    (p q : Ptr) (ps : List Ptr) → Once ps → on_list q (unlink p ps) ≡ (not (q == p) && on_list q ps)
unfolding on_list unlink
on_list-unlink p q [] h = ground arith
on_list-unlink p q (r ∷ rs) h = ground (arith, on_list-unlink p q rs h.1)

pub Once-unlink : (p : Ptr) (ps : List Ptr) → Once ps → Once (unlink p ps)
unfolding unlink
Once-unlink p [] h = tt
Once-unlink p (r ∷ rs) h = elim (Bool-cases (p == r)) [
  | inl same ↦ rw same h.1
  | inr other ↦ rw other (ground (arith, on_list-unlink p r rs h.1), Once-unlink p rs h.1)
]

module _ (pcbs : Ptr → Option Pcb) where
  -- A search for a port that is taken, or for a clash, misses no block of the list.
  pub taken-local_port :
      (port : ℕ) (ps : List Ptr) (q : Ptr) (d : Pcb)
      → taken port (blocks pcbs ps) ≡ false
      → on_list q ps ≡ true
      → pcbs q ≡ some d
      → (d.local_port == port) ≡ false
  unfolding blocks taken on_list
  taken-local_port port [] q d free there at_q = absurd (ground arith)
  taken-local_port port (r ∷ rs) q d free there at_q = elim (Bool-cases (q == r)) [
    | inl same ↦ let at_r : pcbs r ≡ some d = ground arith in ground arith
    | inr other ↦ ground (arith, taken-local_port port rs q d)
  ]

  pub any_clash-overlap :
      (pcb : Ptr) (ip port : ℕ) (ps : List Ptr) (q : Ptr) (d : Pcb)
      → any_clash pcb ip port (blocks pcbs ps) ≡ false
      → on_list q ps ≡ true
      → pcbs q ≡ some d
      → d.self ≡ q
      → q ≢ pcb
      → overlap d ip port ≡ false
  unfolding blocks any_clash on_list
  any_clash-overlap pcb ip port [] q d free there at_q self ne = absurd (ground arith)
  any_clash-overlap pcb ip port (r ∷ rs) q d free there at_q self ne = elim (Bool-cases (q == r)) [
    | inl same ↦ let at_r : pcbs r ≡ some d = ground arith in ground arith
    | inr other ↦ ground (arith, any_clash-overlap pcb ip port rs q d)
  ]
