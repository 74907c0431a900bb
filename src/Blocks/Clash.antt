-- ===== src/Blocks/Clash.antt =====
-- When `udp_bind` refuses a port.
use tun2socket_lwip.Prelude.{
  ℕ, ◌≡◌, ◌≢◌, ◌∙◌, true, false, ◌⊎◌, Option, some, List, [], ◌∷◌, arith, inl, inr, Bool-cases,
  Option-cases,
}
use tun2socket_lwip.Lwip.{Ptr, null, err_ok, err_use}
use tun2socket_lwip.Demux.{Pcb}
use tun2socket_lwip.Blocks.{Table, blocks, on_list, clashes, any_clash, udp_bind}
use tun2socket_lwip.Blocks.Bind.{bound, listed, udp_bind-port}
use tun2socket_lwip.Blocks.Invariant.{IsTable, overlap, any_clash-overlap, activated}

-- a block of a list, other than `pcb`, that claims a port at an overlapping address
pub record Claims (pcbs : Ptr → Option Pcb) (ps : List Ptr) (pcb : Ptr) (ip port : ℕ) : Type 0 where
  pub at_ : Ptr
  pub block : Pcb
  pub on : on_list at_ ps ≡ true
  pub there : pcbs at_ ≡ some block
  pub other : block.self ≢ pcb
  pub claims : overlap block ip port ≡ true

module _ (pcbs : Ptr → Option Pcb) (pcb : Ptr) (ip port : ℕ) where
  Claims-cons :
      (p : Ptr) (ps : List Ptr) → Claims pcbs ps pcb ip port → Claims pcbs (p ∷ ps) pcb ip port
  unfolding on_list
  Claims-cons p ps k = record {
    at_ = k.at_;
    block = k.block;
    on = ground (arith, k.on);
    there = k.there;
    other = k.other;
    claims = k.claims;
  }

  Claims-head :
      (p : Ptr) (ps : List Ptr) (c : Pcb)
      → pcbs p ≡ some c
      → clashes pcb ip port c ≡ true
      → Claims pcbs (p ∷ ps) pcb ip port
  unfolding on_list clashes
  Claims-head p ps c at_p hit = record {
    at_ = p;
    block = c;
    on = ground arith;
    there = at_p;
    other = ground arith;
    claims = ground arith;
  }

  any_clash-Claims :
      (ps : List Ptr) → any_clash pcb ip port (blocks pcbs ps) ≡ true → Claims pcbs ps pcb ip port
  unfolding any_clash blocks
  any_clash-Claims [] e = absurd (ground arith)
  any_clash-Claims (p ∷ ps) e = elim (Option-cases (pcbs p)) [
    | inl gone ↦ Claims-cons p ps (any_clash-Claims ps (ground (arith, gone)))
    | inr (c, at_p) ↦ elim (Bool-cases (clashes pcb ip port c)) [
      | inl hit ↦ Claims-head p ps c at_p hit
      | inr miss ↦ Claims-cons p ps (any_clash-Claims ps (ground (arith, at_p, miss)))
    ]
  ]

-- `udp_bind` of an allocated block to a port other than 0 either refuses, with a block on the list
-- that claims that port at an overlapping address, and changes nothing; or no other block on the
-- list claims it, and the block has the address and the port and is on the list.
pub udp_bind_lem :
    (t : Table) (p : Ptr) (ip port : ℕ) {c : Pcb}
    → IsTable t
    → t.pcbs p ≡ some c
    → p ≢ null
    → port ≢ 0
    → ((udp_bind p ip port t ≡ some (err_use, t)) × Claims t.pcbs t.udp_pcbs p ip port)
      ⊎ ((udp_bind p ip port t ≡ some (err_ok, listed t p (bound c ip port)))
          × (on_list p (activated p t.udp_pcbs) ≡ true)
          × ((q : Ptr) (d : Pcb)
              → on_list q t.udp_pcbs ≡ true
              → t.pcbs q ≡ some d
              → q ≢ p
              → overlap d ip port ≡ false))
unfolding on_list
udp_bind_lem t p ip port {c} ok at_p ne some_port =
    let out = udp_bind-port t p at_p ip port ne some_port in
    elim (Bool-cases (any_clash p ip port (blocks t.pcbs t.udp_pcbs))) [
      | inl clash ↦ inl (out ∙ rw clash, any_clash-Claims t.pcbs p ip port t.udp_pcbs clash)
      | inr clear ↦ inr (
        out ∙ rw clear,
        ground arith,
        λ q d on at_q other.
            any_clash-overlap t.pcbs p ip port t.udp_pcbs q d clear on at_q (ok.self_eq q d at_q)
              other,
      )
    ]
