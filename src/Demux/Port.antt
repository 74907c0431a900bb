-- ===== src/Demux/Port.antt =====
-- `udp_new_port`: it ends, and what it returns.
use tun2socket_lwip.Prelude.{
  ℕ, zero, suc, ◌+◌, ◌-◌, ◌%◌, ◌≤◌, ◌<◌, ◌≡◌, refl, true, false, some, List, arith, ◌==◌, ltb, inl,
  inr, Bool-cases,
}
use tun2socket_lwip.Demux.{Pcb, range_start, range_end, taken, next_port, new_port}

-- a port of the range for local ports
abbrev pub InRange : ℕ → Type 0
InRange port = (range_start ≤ port) × (port ≤ range_end)

-- how many steps back from `port` another port of the range lies
abbrev steps_back : ℕ → ℕ → ℕ
steps_back port q = (port + 16384 - q) % 16384

-- The last `n` ports tried, `port` the latest, are taken.
abbrev Tried : ℕ → ℕ → List Pcb → Type 0
Tried n port pcbs = (q : ℕ) → InRange q → steps_back port q < n → taken q pcbs ≡ true

-- what the port returned, 0 for none, says of the ports in use
pub data Answer (pcbs : List Pcb) (r q : ℕ) : Type 0 where
  free_port : r ≡ q → InRange r → taken r pcbs ≡ false → Answer pcbs r q
  all_taken : r ≡ 0 → ((p : ℕ) → InRange p → taken p pcbs ≡ true) → Answer pcbs r q

new_port-answers :
    (fuel n port : ℕ) (pcbs : List Pcb)
    → 16384 ≤ n + fuel
    → n < 16384
    → InRange port
    → Tried n port pcbs
    → (r : ℕ) × (q : ℕ) × (new_port fuel n port pcbs ≡ some (r, q)) × InRange q × Answer pcbs r q
unfolding new_port
new_port-answers zero n port pcbs enough more ok tried = absurd (omega arith)
new_port-answers (suc fuel) n port pcbs enough more ok tried =
    let port' = next_port port in
    let ok' : InRange port' = ground arith in
    elim (Bool-cases (taken port' pcbs)) [
      | inr free ↦ (port', port', rw free, ok', free_port refl ok' free)
      | inl used ↦
          let tried' : Tried (n + 1) port' pcbs = λ q range near. elim (Bool-cases (q == port')) [
            | inl same ↦ ground arith
            | inr other ↦ tried q range (ground arith)
          ] in
          elim (Bool-cases (ltb (range_end - range_start) (n + 1))) [
            | inl last ↦ (
              0,
              port',
              rw (used, last),
              ok',
              all_taken refl (λ p range. tried' p range (ground arith)),
            )
            | inr on ↦
                let rest =
                  new_port-answers fuel (n + 1) port' pcbs (omega arith) (ground arith) ok'
                    tried' in
                (rest.0, rest.1, rw (used, on) rest.2, rest.3, rest.4)
          ]
    ]

-- Started at a port of the local range, `udp_new_port` ends within 16384 passes. It returns a port of
-- the range that no control block has, and keeps it in `udp_port`; or it returns 0, and then every
-- port of the range is taken.
pub new_port_lem :
    (fuel port : ℕ) (pcbs : List Pcb)
    → 16384 ≤ fuel
    → InRange port
    → (r : ℕ) × (q : ℕ) × (new_port fuel 0 port pcbs ≡ some (r, q)) × InRange q × Answer pcbs r q
new_port_lem fuel port pcbs enough ok =
    new_port-answers fuel 0 port pcbs (omega arith) (omega arith) ok
      (λ q range near. absurd (omega arith))
