-- ===== src/Sessions/Unique.antt =====
-- The keys of the active sessions, through `alloc_session` and `session_init` (src/peer.c).
use lane_cove_tunnel.Prelude.{
  ℕ, ◌≤◌, ◌<◌, ◌≡◌, ◌≢◌, refl, Bool, true, false, not, ◌⊎◌, Option, none, some, inl, inr, List, [],
  ◌∷◌, ◌++◌, length, set, arith, length-append, length-set,
}
use lane_cove_tunnel.Prelude.Bytes.{Bytes, bytes_eq_refl, bytes_eq→eq}
use lane_cove_tunnel.World.{Addr, Env, World}
use lane_cove_tunnel.Node.{Session, PeerConfig, Timers, max_peers, zero_session}
use lane_cove_tunnel.Sessions.{
  has_pub, has_addr, find_index, find_session_by_addr, alloc_session, slot, session_init,
}
use lane_cove_tunnel.Sessions.Find.{
  find_slot-hit, find_slot-none, slot-beyond, slot-append_zero, slot-set_self, slot-set_ne,
}

-- A table within its bound whose active sessions have different keys.
pub record IsTable (sessions : List Session) : Type 0 where
  pub bounded : length sessions ≤ max_peers
  pub unique :
      (i j : ℕ)
      → (slot sessions i).active ≡ true
      → (slot sessions j).active ≡ true
      → (slot sessions i).static_pub ≡ (slot sessions j).static_pub
      → i ≡ j

active_below :
    (sessions : List Session) (i : ℕ) → (slot sessions i).active ≡ true → i < length sessions
active_below sessions i h = ground (arith, slot-beyond sessions i)

pub empty-IsTable : IsTable []
empty-IsTable = record {
  bounded = omega arith;
  unique = λ i j p q e. let below = active_below [] i p in absurd (omega arith);
}

-- No active session but that of slot i has the key.
abbrev IsOwner : Bytes → ℕ → List Session → Type 0
IsOwner key i sessions = (j : ℕ) → j ≢ i → has_pub key (slot sessions j) ≡ false

IsOwner-found :
    (key : Bytes) (sessions : List Session) (i : ℕ)
    → IsTable sessions
    → find_index (has_pub key) sessions ≡ some i
    → IsOwner key i sessions
IsOwner-found key sessions i t h j ne = ground (
  arith,
  find_slot-hit (has_pub key) sessions i h,
  bytes_eq→eq (slot sessions i).static_pub key,
  bytes_eq→eq (slot sessions j).static_pub key,
  t.unique j i,
)

IsOwner-none :
    (key : Bytes) (sessions : List Session) (i : ℕ)
    → find_index (has_pub key) sessions ≡ none
    → IsOwner key i sessions
IsOwner-none key sessions i h j ne =
    ground (arith, find_slot-none (has_pub key) sessions j h, slot-beyond sessions j)

grown-IsTable :
    (sessions : List Session)
    → IsTable sessions
    → length sessions < max_peers
    → IsTable (sessions ++ zero_session ∷ [])
grown-IsTable sessions t room = record {
  bounded = omega (arith, length-append sessions (zero_session ∷ []));
  unique = λ i j p q e.
      t.unique i j (rw (slot-append_zero sessions i) at p) (rw (slot-append_zero sessions j) at q)
        (rw (slot-append_zero sessions i, slot-append_zero sessions j) at e);
}

-- The three outcomes of `alloc_session`: the key's own slot, another slot of the table, a new slot.
abbrev Allocated : Bytes → List Session → ℕ → List Session → Type 0
Allocated key sessions i sessions' =
    ((find_index (has_pub key) sessions ≡ some i) × (sessions' ≡ sessions))
    ⊎ ((find_index (has_pub key) sessions ≡ none)
        × (((i < length sessions) × (sessions' ≡ sessions))
            ⊎ ((i ≡ length sessions)
                × (length sessions < max_peers)
                × (sessions' ≡ sessions ++ zero_session ∷ []))))

alloc_session-Allocated :
    (key : Bytes) (addr : Addr) (sessions sessions' : List Session) (i : ℕ)
    → alloc_session key addr sessions ≡ some (i, sessions')
    → Allocated key sessions i sessions'
unfolding alloc_session find_session_by_addr
alloc_session-Allocated key addr sessions sessions' i h =
    ground (
      arith,
      find_slot-hit (has_addr addr) sessions i,
      find_slot-hit (λ s. not s.active) sessions i,
    )

-- The slot is in the table, which is the old one or has a slot more at its end.
pub alloc_session-grows :
    (key : Bytes) (addr : Addr) (sessions sessions' : List Session) (i : ℕ)
    → alloc_session key addr sessions ≡ some (i, sessions')
    → (i < length sessions')
      × ((sessions' ≡ sessions) ⊎ (sessions' ≡ sessions ++ zero_session ∷ []))
alloc_session-grows key addr sessions sessions' i h =
    elim (alloc_session-Allocated key addr sessions sessions' i h) [
      | inl (found, same) ↦ rw same ((find_slot-hit (has_pub key) sessions i found).0, inl refl)
      | inr (fresh, inl (below, same)) ↦ rw same (below, inl refl)
      | inr (fresh, inr (at_end, room, grown)) ↦
          rw grown (omega (arith, length-append sessions (zero_session ∷ [])), inr refl)
    ]

-- The slot that `alloc_session` returns is in the table, the table stays one, and no other active
-- session has the key.
pub alloc_session-IsOwner :
    (key : Bytes) (addr : Addr) (sessions sessions' : List Session) (i : ℕ)
    → IsTable sessions
    → alloc_session key addr sessions ≡ some (i, sessions')
    → (i < length sessions') × IsTable sessions' × IsOwner key i sessions'
alloc_session-IsOwner key addr sessions sessions' i t h =
    elim (alloc_session-Allocated key addr sessions sessions' i h) [
      | inl (found, same) ↦ rw same (
        (find_slot-hit (has_pub key) sessions i found).0,
        t,
        IsOwner-found key sessions i t found,
      )
      | inr (fresh, inl (below, same)) ↦ rw same (below, t, IsOwner-none key sessions i fresh)
      | inr (fresh, inr (at_end, room, grown)) ↦ rw grown (
        omega (arith, length-append sessions (zero_session ∷ [])),
        grown-IsTable sessions t room,
        λ j ne. rw (slot-append_zero sessions j) (IsOwner-none key sessions i fresh j ne),
      )
    ]

-- The slot that owns a key takes any session of that key.
pub set-IsTable :
    (key : Bytes) (sessions : List Session) (i : ℕ) (s : Session)
    → IsTable sessions
    → i < length sessions
    → IsOwner key i sessions
    → s.static_pub ≡ key
    → IsTable (set sessions i s)
set-IsTable key sessions i s t below owner e = record {
  bounded = omega (arith, t.bounded, length-set sessions i s);
  unique = λ j k p q same. ground (
    arith,
    slot-set_self sessions i s below,
    slot-set_ne sessions i j s,
    slot-set_ne sessions i k s,
    owner j,
    owner k,
    bytes_eq_refl key,
    t.unique j k,
  );
}

-- A change of a session that neither wakes it nor gives it another key keeps the table.
pub update-IsTable :
    (sessions : List Session) (i : ℕ) (s : Session)
    → IsTable sessions
    → (s.active ≡ true → (slot sessions i).active ≡ true)
    → s.static_pub ≡ (slot sessions i).static_pub
    → IsTable (set sessions i s)
update-IsTable sessions i s t wakes e = record {
  bounded = omega (arith, t.bounded, length-set sessions i s);
  unique = λ j k p q same. ground (
    arith,
    slot-set_self sessions i s,
    slot-set_ne sessions i j s,
    slot-set_ne sessions i k s,
    slot-beyond (set sessions i s) i,
    length-set sessions i s,
    t.unique j k,
  );
}

-- Starting a session in the slot that `alloc_session` gave for its key keeps the keys of the
-- active sessions apart, and the table within its bound.
pub session_init-IsTable :
    {PKey : Type 0} (env : Env PKey) (timers : Timers) (key session_key : Bytes) (addr : Addr)
    (cfg : Option PeerConfig) (is_outbound : Bool) (sessions sessions' : List Session) (i : ℕ)
    (w : World)
    → IsTable sessions
    → alloc_session key addr sessions ≡ some (i, sessions')
    → IsTable (
        set sessions' i
          (session_init env timers (slot sessions' i) addr key session_key cfg is_outbound w).0)
unfolding session_init
session_init-IsTable env timers key session_key addr cfg is_outbound sessions sessions' i w t h =
    let (below, t', owner) = alloc_session-IsOwner key addr sessions sessions' i t h in
    set-IsTable key sessions' i _ t' below owner refl
