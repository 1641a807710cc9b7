-- ===== src/Tunnel/Begin.antt =====
-- The session that a handshake starts (`start_session`, src/peer.c), for the searches of both peers.
use lane_cove_tunnel.Prelude.{
  ℕ, ◌<◌, ◌≡◌, refl, Bool, true, none, some, List, length, inl, inr, arith,
}
use lane_cove_tunnel.Prelude.Bytes.{Bytes}
use lane_cove_tunnel.World.{Env, World, Addr}
use lane_cove_tunnel.Replay.{empty_window}
use lane_cove_tunnel.Node.{IpPrefix, Session, PeerConfig, Self, Node, zero_session}
use lane_cove_tunnel.Sessions.{slot, has_addr, find_session_by_addr, alloc_session, session_init}
use lane_cove_tunnel.Sessions.Find.{slot-set_self, find_index-set_hit, find_index-append_miss}
use lane_cove_tunnel.Sessions.Unique.{alloc_session-grows}
use lane_cove_tunnel.Loop.Response.{start_session}

-- Session i is new, and the one that datagrams from its address are for.
pub record IsNew (key : Bytes) (addr : Addr) (session_key : Bytes) (routes : List IpPrefix) (i : ℕ)
    (sessions : List Session) : Type 0 where
  pub found : find_session_by_addr addr sessions ≡ some i
  pub active : (slot sessions i).active ≡ true
  pub static_pub : (slot sessions i).static_pub ≡ key
  pub to : (slot sessions i).addr ≡ addr
  pub keyed : (slot sessions i).session_key ≡ session_key
  pub unsent : (slot sessions i).send_seq ≡ 0
  pub unseen : (slot sessions i).window ≡ empty_window
  pub routed : (slot sessions i).routes ≡ routes

fresh_table :
    (key : Bytes) (addr : Addr) (sessions sessions' : List Session) (i : ℕ)
    → find_session_by_addr addr sessions ≡ none
    → alloc_session key addr sessions ≡ some (i, sessions')
    → (i < length sessions') × (find_session_by_addr addr sessions' ≡ none)
unfolding find_session_by_addr zero_session
fresh_table key addr sessions sessions' i fresh allocated =
    let (below, same) = alloc_session-grows key addr sessions sessions' i allocated in
    (
      below,
      elim same [
        | inl e ↦ rw e fresh
        | inr e ↦ rw e (find_index-append_miss (has_addr addr) sessions zero_session fresh refl)
      ],
    )

module _ {PKey : Type 0} (e : Env PKey) where
  pub start_session-IsNew :
      (self : Self PKey) (key : Bytes) (src : Addr) (session_key : Bytes) (cfg : PeerConfig)
      (is_outbound : Bool) (node : Node PKey) (w : World) (i : ℕ) (sessions : List Session)
      → find_session_by_addr src node.sessions ≡ none
      → alloc_session key src node.sessions ≡ some (i, sessions)
      → IsNew key src session_key cfg.routes i
          (start_session e self key src session_key cfg is_outbound node w).0.sessions
  unfolding start_session session_init find_session_by_addr
  start_session-IsNew self key src session_key cfg is_outbound node w i sessions fresh allocated =
      let (below, missing) = fresh_table key src node.sessions sessions i fresh allocated in
      let s =
        (session_init e self.timers (slot sessions i) src key session_key (some cfg) is_outbound
          w).0 in
      let same = slot-set_self sessions i s below in
      rw (allocated, start_session)
        (record {
          found = find_index-set_hit (has_addr src) sessions i s missing below (ground arith);
          active = rw same;
          static_pub = rw same;
          to = rw same;
          keyed = rw same;
          unsent = rw same;
          unseen = rw same;
          routed = rw same;
        })
