-- ===== src/Loop/Table.antt =====
-- The session table of src/peer.c through the parts of the loop that start and end sessions.
use lane_cove_tunnel.Prelude.{
  ℕ, zero, suc, ◌+◌, ◌≡◌, refl, Bool, true, false, Option, none, some, List, [], ◌∷◌, Bool-cases,
  Option-cases, inl, inr, arith, length, ltb, not, ◌||◌,
}
use lane_cove_tunnel.Prelude.Bytes.{Bytes, bytes_gt}
use lane_cove_tunnel.World.{Env, World, Addr}
use lane_cove_tunnel.Node.{
  Session, PeerConfig, Self, Node, Timers, config_at, pending_at, zero_session,
}
use lane_cove_tunnel.Sessions.{slot, find_index, alloc_session}
use lane_cove_tunnel.Sessions.Unique.{IsTable, update-IsTable, session_init-IsTable}
use lane_cove_tunnel.Loop.Periodic.{
  set_rekeying, stop_rekeying, expire_pending, expire_pendings, expire_session, expire_sessions,
}
use lane_cove_tunnel.Loop.Response.{awaits, start_session}
use lane_cove_tunnel.Loop.Inbound.{break_tie}

module _ {PKey : Type 0} where
  -- The session table of a node.
  abbrev pub HasTable : Node PKey → Type 0
  HasTable node = IsTable node.sessions

  pub set_rekeying-HasTable :
      (flag : Bool) (found : Option ℕ) (node : Node PKey)
      → HasTable node
      → HasTable (set_rekeying flag found node)
  unfolding set_rekeying
  set_rekeying-HasTable flag none node t = t
  set_rekeying-HasTable flag (some i) node t =
      update-IsTable node.sessions i _ t (λ wakes. wakes) refl

  pub stop_rekeying-HasTable :
      (key : Bytes) (node : Node PKey) → HasTable node → HasTable (stop_rekeying key node)
  unfolding stop_rekeying
  stop_rekeying-HasTable key node t = set_rekeying-HasTable false _ node t

  pub start_session-HasTable :
      (e : Env PKey) (self : Self PKey) (key : Bytes) (src : Addr) (session_key : Bytes)
      (cfg : PeerConfig) (is_outbound : Bool) (node : Node PKey) (w : World)
      → HasTable node
      → HasTable (start_session e self key src session_key cfg is_outbound node w).0
  unfolding start_session
  start_session-HasTable e self key src session_key cfg is_outbound node w t =
      elim (Option-cases (alloc_session key src node.sessions)) [
        | inl full ↦ rw (full, start_session) t
        | inr ((i, sessions), found) ↦
            rw (found, start_session)
              (session_init-IsTable e self.timers key session_key src (some cfg) is_outbound
                node.sessions sessions i w t found)
      ]

  pub break_tie-HasTable :
      (self : Self PKey) (src : Addr) (node : Node PKey)
      → HasTable node
      → HasTable (break_tie self src node).1
  unfolding break_tie
  break_tie-HasTable self src node t =
      elim (Option-cases (find_index (awaits src) node.pending_hs)) [
        | inl no_one ↦ rw (no_one, break_tie) t
        | inr (j, found) ↦
            let key = (config_at node (pending_at node j).cfg_idx).pub_key in
            elim (Bool-cases (bytes_gt self.static_pub key)) [
              | inl higher ↦ rw (found, break_tie, higher) t
              | inr lower ↦ rw (found, break_tie, lower) (stop_rekeying-HasTable key _ t)
            ]
      ]

  expire_pending-HasTable :
      (timers : Timers) (now j : ℕ) (node : Node PKey)
      → HasTable node
      → HasTable (expire_pending timers now j node)
  unfolding expire_pending
  expire_pending-HasTable timers now j node t =
      elim (Bool-cases (
        not (pending_at node j).active
        || ltb now ((pending_at node j).sent_at + timers.handshake_timeout))) [
          | inl waits ↦ rw (waits, expire_pending) t
          | inr over ↦ rw (over, expire_pending) (stop_rekeying-HasTable _ _ t)
        ]

  pub expire_pendings-HasTable :
      (timers : Timers) (now n j : ℕ) (node : Node PKey)
      → HasTable node
      → HasTable (expire_pendings timers now n j node)
  unfolding expire_pendings
  expire_pendings-HasTable timers now zero j node t = t
  expire_pendings-HasTable timers now (suc n) j node t =
      expire_pendings-HasTable timers now n (suc j) _ (expire_pending-HasTable timers now j node t)

expire_session-still :
    (timers : Timers) (now : ℕ) (s : Session)
    → ((expire_session timers now s).active ≡ true → s.active ≡ true)
      × ((expire_session timers now s).static_pub ≡ s.static_pub)
unfolding expire_session
expire_session-still timers now s = ground arith

pub slot-expire_sessions :
    (timers : Timers) (now i : ℕ) (sessions : List Session)
    → slot (expire_sessions timers now sessions) i ≡ expire_session timers now (slot sessions i)
unfolding expire_sessions slot expire_session zero_session
slot-expire_sessions timers now i [] = refl
slot-expire_sessions timers now zero (s ∷ sessions) = refl
slot-expire_sessions timers now (suc i) (s ∷ sessions) = slot-expire_sessions timers now i sessions

length-expire_sessions :
    (timers : Timers) (now : ℕ) (sessions : List Session)
    → length (expire_sessions timers now sessions) ≡ length sessions
unfolding expire_sessions
length-expire_sessions timers now [] = refl
length-expire_sessions timers now (s ∷ sessions) =
    omega (arith, length-expire_sessions timers now sessions)

-- A table whose sessions are changed one by one, each neither woken nor given another key.
pub each-IsTable :
    (old new : List Session)
    → length new ≡ length old
    → ((i : ℕ)
        → ((slot new i).active ≡ true → (slot old i).active ≡ true)
          × ((slot new i).static_pub ≡ (slot old i).static_pub))
    → IsTable old
    → IsTable new
each-IsTable old new size still t = record {
  bounded = omega (arith, t.bounded, size);
  unique = λ i j p q same.
      t.unique i j ((still i).0 p) ((still j).0 q) (cc ((still i).1, (still j).1, same));
}

pub expire_sessions-IsTable :
    (timers : Timers) (now : ℕ) (sessions : List Session)
    → IsTable sessions
    → IsTable (expire_sessions timers now sessions)
expire_sessions-IsTable timers now sessions t =
    each-IsTable sessions _ (length-expire_sessions timers now sessions)
      (λ i.
        rw (slot-expire_sessions timers now i sessions)
          (expire_session-still timers now (slot sessions i)))
      t
