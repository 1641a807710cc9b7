-- ===== src/Loop/Timeout.antt =====
-- Which handshakes the second loop of the checks in `event_loop` (src/peer.c) gives up.
use lane_cove_tunnel.Prelude.{
  ℕ, zero, suc, ◌+◌, ◌≤◌, ◌<◌, ◌≡◌, ◌≢◌, refl, sym, ap, ◌∙◌, Bool, false, not, ◌&&◌, ◌||◌, Option,
  none, some, Bool-cases, inl, inr, if_both, arith, ltb, get_or-set_here, get_or-set_ne, ◌==◌,
  ==_iff,
}
use lane_cove_tunnel.Prelude.Bytes.{Bytes}
use lane_cove_tunnel.Node.{
  PendingHs, Node, Timers, config_at, pending_at, set_pending, zero_pending,
}
use lane_cove_tunnel.Loop.Periodic.{set_rekeying, stop_rekeying, expire_pending, expire_pendings}

module _ {PKey : Type 0} (timers : Timers) (now : ℕ) where
  -- A handshake that still has time.
  abbrev pub is_waiting : PendingHs PKey → Bool
  is_waiting p = p.active && ltb now (p.sent_at + timers.handshake_timeout)

  set_rekeying_pending :
      (flag : Bool) (found : Option ℕ) (node : Node PKey)
      → (set_rekeying flag found node).pending_hs ≡ node.pending_hs
  unfolding set_rekeying
  set_rekeying_pending flag none node = refl
  set_rekeying_pending flag (some i) node = refl

  stop_rekeying_pending :
      (key : Bytes) (node : Node PKey) (j : ℕ)
      → pending_at (stop_rekeying key node) j ≡ pending_at node j
  unfolding stop_rekeying
  stop_rekeying_pending key node j = rw (set_rekeying_pending false _ node) refl

  -- The slot that gives up.
  abbrev given_up : PendingHs PKey → PendingHs PKey
  given_up p = record p { active = false; hs_state = record p.hs_state { eph_key = none } }

  expire_pending_other :
      (j k : ℕ) (node : Node PKey)
      → j ≢ k
      → pending_at (expire_pending timers now j node) k ≡ pending_at node k
  unfolding expire_pending
  expire_pending_other j k node ne =
      let p : PendingHs PKey = pending_at node j in
      if_both (λ (n : Node PKey). pending_at n k ≡ pending_at node k)
        (not p.active || ltb now (p.sent_at + timers.handshake_timeout)) _ _ refl
        (stop_rekeying_pending _ (set_pending node j (given_up p)) k
          ∙ get_or-set_ne node.pending_hs j k (given_up p) zero_pending ne)

  expire_pending_active :
      (j : ℕ) (node : Node PKey)
      → (pending_at (expire_pending timers now j node) j).active ≡ is_waiting (pending_at node j)
  unfolding expire_pending zero_pending
  expire_pending_active j node =
      let p : PendingHs PKey = pending_at node j in
      elim (Bool-cases (not p.active || ltb now (p.sent_at + timers.handshake_timeout))) [
        | inl waits ↦ rw (waits, expire_pending) (ground (arith, waits))
        | inr over ↦
            let off : is_waiting p ≡ false = ground (arith, over) in
            rw (over, expire_pending)
              (ap (λ (q : PendingHs PKey). q.active)
                  (stop_rekeying_pending (config_at node p.cfg_idx).pub_key
                    (set_pending node j (given_up p)) j)
                ∙ (get_or-set_here (λ (q : PendingHs PKey). q.active ≡ false) node.pending_hs j
                      (given_up p) zero_pending refl refl
                    ∙ sym off))
      ]

  expire_pendings_below :
      (n j k : ℕ) (node : Node PKey)
      → k < j
      → pending_at (expire_pendings timers now n j node) k ≡ pending_at node k
  unfolding expire_pendings
  expire_pendings_below zero j k node lt = refl
  expire_pendings_below (suc n) j k node lt =
      expire_pendings_below n (suc j) k (expire_pending timers now j node) (omega arith)
      ∙ expire_pending_other j k node (λ same. absurd (omega (arith, same)))

  -- The loop over n slots from slot j on leaves active exactly the handshakes that were active and whose
  -- time is not up: they were sent less than `handshake_timeout` seconds ago.
  pub expire_pendings-active :
      (n j k : ℕ) (node : Node PKey)
      → j ≤ k
      → k < j + n
      → (pending_at (expire_pendings timers now n j node) k).active ≡ is_waiting (pending_at node k)
  unfolding expire_pendings
  expire_pendings-active zero j k node low high = absurd (omega arith)
  expire_pendings-active (suc n) j k node low high = elim (Bool-cases (j == k)) [
    | inl here ↦
        let same : j ≡ k = (==_iff j k).0 here in
        rw (← same) (
          ap (λ (q : PendingHs PKey). q.active)
            (expire_pendings_below n (suc j) j (expire_pending timers now j node) (omega arith))
          ∙ expire_pending_active j node)
    | inr later ↦
        let apart : j ≢ k = λ same. cc (later, (==_iff j k).1 same) in
        expire_pendings-active n (suc j) k (expire_pending timers now j node)
          (ground (arith, later)) (omega arith)
        ∙ ap is_waiting (expire_pending_other j k node apart)
  ]
