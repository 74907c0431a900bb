-- ===== src/Link/Callback.antt =====
-- A callback that runs keeps the invariant, also when the stack puts packets out while it runs.
use tun2socket_lwip.Prelude.{
  ◌≡◌, refl, sym, ◌∙◌, none, some, List, [], ◌∷◌, arith, take, drop, ap, Cmd, ◌==◌, inl, inr,
  Bool-cases, Option-cases, one_outcome,
}
use tun2socket_lwip.Lwip.{Ptr, null, ErrT, is_ok, Pbufs}
use tun2socket_lwip.Queues.Holds.{pop-take-drop}
use tun2socket_lwip.Link.{Link, World, store, load, global_if_output, poll_tx, run_callback}
use tun2socket_lwip.Link.Poll.{polled, poll_tx_lem}
use tun2socket_lwip.Link.Invariant.{due, IsSound, IsWellFormed, update-IsWellFormed}
use tun2socket_lwip.Link.Preserve.{global_if_output-IsWellFormed}
use tun2socket_lwip.Link.{inject_packet, inject_all}

module _ (b : Pbufs) where
  -- what the stack does to links: it changes lwIP's heap and puts packets out, any number of times
  pub data Outputs (w : World b) : World b → Type 0 where
    begin : Outputs w w
    heap_changed : {u : World b} → Outputs w u → (h : b.Heap) → Outputs w (record u { heap = h })
    put_out :
        {u v : World b}
        → Outputs w u
        → (p : Ptr) (r : ErrT) → global_if_output b p u ≡ some (r, v)
        → Outputs w v

  -- The input of the stack, where it does not fault, reaches links in no other way.
  abbrev pub IsStack : (Ptr → Cmd (World b) ErrT) → Type 0
  IsStack input = (p : Ptr) (w w' : World b) (e : ErrT) → input p w ≡ some (e, w') → Outputs w w'

  Outputs-IsWellFormed : {w w' : World b} → Outputs w w' → IsWellFormed w → IsWellFormed w'
  Outputs-IsWellFormed begin wf = wf
  Outputs-IsWellFormed (heap_changed o h) wf = λ ctx l e. Outputs-IsWellFormed o wf ctx l e
  Outputs-IsWellFormed (put_out {u} o p r e) wf =
      global_if_output-IsWellFormed b u (Outputs-IsWellFormed o wf) p e

module _ (b : Pbufs) (input : Ptr → Cmd (World b) ErrT) (ok : IsStack b input) where
  inject_packet-IsWellFormed :
      (p : Ptr) (w : World b) {w' : World b}
      → IsWellFormed w
      → inject_packet b input p w ≡ some (tt, w')
      → IsWellFormed w'
  unfolding inject_packet
  inject_packet-IsWellFormed p w wf e = elim (Bool-cases (p == null)) [
    | inl nil ↦
        let idle : inject_packet b input p w ≡ some (tt, w) = ground arith in
        one_outcome IsWellFormed idle e wf
    | inr ne ↦ elim (Option-cases (input p w)) [
      | inl stops ↦
          let faults : inject_packet b input p w ≡ none = ground arith in
          absurd (ground (arith, faults, e))
      | inr ((r, u), ran) ↦
          let after : IsWellFormed u = Outputs-IsWellFormed b (ok p w u r ran) wf in
          elim (Bool-cases (is_ok r)) [
            | inl good ↦
                let done : inject_packet b input p w ≡ some (tt, u) = ground arith in
                one_outcome IsWellFormed done e after
            | inr bad ↦
                let freed : World b = record u { heap = b.pbuf_free p u.heap } in
                let done : inject_packet b input p w ≡ some (tt, freed) = ground arith in
                one_outcome IsWellFormed done e (λ ctx l at_ctx. after ctx l at_ctx)
          ]
    ]
  ]

  inject_all-IsWellFormed :
      (ps : List Ptr) (w : World b) {w' : World b}
      → IsWellFormed w
      → inject_all b input ps w ≡ some (tt, w')
      → IsWellFormed w'
  unfolding inject_all
  inject_all-IsWellFormed [] w wf e = one_outcome IsWellFormed refl e wf
  inject_all-IsWellFormed (p ∷ ps) w wf e = elim (Option-cases (inject_packet b input p w)) [
    | inl stops ↦
        let faults : inject_all b input (p ∷ ps) w ≡ none = ground arith in
        absurd (ground (arith, faults, e))
    | inr ((r, u), ran) ↦
        let on : inject_all b input (p ∷ ps) w ≡ inject_all b input ps u = ground arith in
        inject_all-IsWellFormed ps u (inject_packet-IsWellFormed p w wf ran) (sym on ∙ e)
  ]

module _ (b : Pbufs) (w : World b) (wf : IsWellFormed w) where
  module _ (input : Ptr → Cmd (World b) ErrT) where
    poll_tx-fault :
        (ctx : Ptr) (m : List Ptr)
        → w.links ctx ≡ none
        → poll_tx b input ctx (record w { mbox = m }) ≡ none
    unfolding poll_tx load
    poll_tx-fault ctx m e = ground arith

    -- the link after its callback, with one callback fewer
    polled-IsSound :
        (ctx : Ptr) (rest : List Ptr) {l : Link}
        → w.mbox ≡ ctx ∷ rest
        → w.links ctx ≡ some l
        → IsSound (polled l) (due ctx rest)
    polled-IsSound ctx rest {l} is at_ctx =
        let old = wf ctx l at_ctx in
        record {
          received = old.received;
          sent = drop 32 old.sent;
          rx_holds = old.rx_holds;
          tx_holds = (pop-take-drop 32 old.tx_holds).1;
          polls = ground (arith, old.polls, ap (due ctx) is);
        }

    run-mbox :
        IsStack b input
        → (m : List Ptr) {w' : World b} → w.mbox ≡ m
        → run_callback b input w ≡ some (tt, w')
        → IsWellFormed w'
    unfolding run_callback
    run-mbox ok [] is e =
        let idle : run_callback b input w ≡ some (tt, w) = rw is in
        one_outcome IsWellFormed idle e wf
    run-mbox ok (ctx ∷ rest) is e = elim (Option-cases (w.links ctx)) [
      | inl gone ↦ absurd (ground (arith, poll_tx-fault ctx rest gone))
      | inr (l, at_ctx) ↦
          let batch =
            poll_tx_lem b input ctx (record w { mbox = rest }) at_ctx (wf ctx l at_ctx).tx_holds in
          let mid : World b = record w {
            mbox = rest;
            links = store w.links ctx (some (polled l));
          } in
          let all : run_callback b input w
              ≡ inject_all b input (take 32 (wf ctx l at_ctx).sent) mid =
            rw is batch.0 in
          inject_all-IsWellFormed b input ok (take 32 (wf ctx l at_ctx).sent) mid
            (update-IsWellFormed w ctx (polled l) w.heap rest wf (polled-IsSound ctx rest is at_ctx)
              (λ q ne. ground (arith, ap (due q) is)))
            (sym all ∙ e)
    ]

  -- A callback that runs keeps the invariant, whatever packets the stack puts out meanwhile.
  pub run_callback-IsWellFormed :
      (input : Ptr → Cmd (World b) ErrT)
      → IsStack b input
      → {w' : World b} → run_callback b input w ≡ some (tt, w')
      → IsWellFormed w'
  run_callback-IsWellFormed input ok e = run-mbox input ok w.mbox refl e
