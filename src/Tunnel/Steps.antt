-- ===== src/Tunnel/Steps.antt =====
-- What one packet of a stream leaves of the two session tables (src/peer.c).
use lane_cove_tunnel.Prelude.{
  ℕ, suc, ◌+◌, ◌^◌, ◌<◌, ◌≡◌, refl, some, Option, List, [], ◌∷◌, length, set, arith, ◌∙◌, sym,
}
use lane_cove_tunnel.Prelude.Bytes.{Bytes}
use lane_cove_tunnel.World.{Addr}
use lane_cove_tunnel.Node.{Session}
use lane_cove_tunnel.Sessions.{slot, find_session_by_addr, route_lookup}
use lane_cove_tunnel.Sessions.Find.{slot-set_self, find_slot-hit}
use lane_cove_tunnel.Tunnel.Lookup.{Keeps, find_session_by_addr-set, route_lookup-set}
use lane_cove_tunnel.Tunnel.Send.{Counted}
use lane_cove_tunnel.Tunnel.Receive.{received, received-Keeps}
use lane_cove_tunnel.Tunnel.Stream.{
  IsBehind, check_replay-IsBehind, skip-IsBehind, IsCarried, AllCarried, Ends, IsReady, Schedule,
}

-- The sender's table: session i has counted a packet.
pub record IsSent (i : ℕ) (old new : List Session) : Type 0 where
  pub lookup : (ip : ℕ) → route_lookup ip new ≡ route_lookup ip old
  pub keeps : Keeps (slot old i) (slot new i)
  pub count : (slot new i).send_seq ≡ (slot old i).send_seq + 1

pub set-IsSent :
    (i : ℕ) (sessions : List Session) (s : Session)
    → i < length sessions
    → (slot sessions i).send_seq + 1 < 2 ^ 64
    → Counted (slot sessions i) s
    → IsSent i sessions (set sessions i s)
set-IsSent i sessions s inside room counted = record {
  lookup = λ ip. route_lookup-set ip sessions i s counted.keeps;
  keeps = rw (slot-set_self sessions i s inside) counted.keeps;
  count = rw (slot-set_self sessions i s inside) (omega (arith, counted.count));
}

-- The receiver's table: session j is as before to every search, and ready for the next number.
pub record IsTaken (src : Addr) (j seq : ℕ) (old new : List Session) : Type 0 where
  pub lookup : (ip : ℕ) → route_lookup ip new ≡ route_lookup ip old
  pub found : find_session_by_addr src new ≡ find_session_by_addr src old
  pub keeps : Keeps (slot old j) (slot new j)
  pub behind : IsBehind (slot new j).window (seq + 1)

pub lost-IsTaken :
    (src : Addr) (j seq : ℕ) (sessions : List Session)
    → IsBehind (slot sessions j).window seq
    → IsTaken src j seq sessions sessions
lost-IsTaken src j seq sessions behind = record {
  lookup = λ ip. refl;
  found = refl;
  keeps = record { active = refl; addr = refl; session_key = refl; routes = refl };
  behind = skip-IsBehind (slot sessions j).window seq behind;
}

pub received-IsTaken :
    (src : Addr) (j seq now : ℕ) (sessions : List Session)
    → find_session_by_addr src sessions ≡ some j
    → IsBehind (slot sessions j).window seq
    → IsTaken src j seq sessions (set sessions j (received now (slot sessions j) seq))
unfolding find_session_by_addr
received-IsTaken src j seq now sessions found behind =
    let r = received now (slot sessions j) seq in
    let keeps = received-Keeps now (slot sessions j) seq in
    let same = slot-set_self sessions j r (find_slot-hit _ sessions j found).0 in
    record {
      lookup = λ ip. route_lookup-set ip sessions j r keeps;
      found = find_session_by_addr-set src sessions j r keeps;
      keeps = rw same keeps;
      behind = rw same (check_replay-IsBehind (slot sessions j).window seq behind).1;
    }

-- Then the rest of the stream can go on.
module _ (src : Addr) (i j seq : ℕ) (senders senders' receivers receivers' : List Session)
    (sent : IsSent i senders senders') (taken : IsTaken src j seq receivers receivers') where
  IsCarried-kept :
      (psk : Option Bytes) (packet : Bytes)
      → IsCarried psk i j senders receivers packet
      → IsCarried psk i j senders' receivers' packet
  IsCarried-kept psk packet c = record {
    ipv4 = c.ipv4;
    route = sent.lookup _ ∙ c.route;
    size = c.size;
    allowed = rw taken.keeps.routes c.allowed;
    here = rw (taken.lookup _) c.here;
  }

  pub AllCarried-kept :
      (psk : Option Bytes) (schedule : Schedule)
      → AllCarried psk i j senders receivers schedule
      → AllCarried psk i j senders' receivers' schedule
  AllCarried-kept psk [] all = tt
  AllCarried-kept psk ((packet, _) ∷ schedule) (c, all) =
      (IsCarried-kept psk packet c, AllCarried-kept psk schedule all)

pub IsReady-kept :
    {PKey : Type 0} (src there : Addr) (i j left : ℕ) (n n' : Ends PKey)
    → IsReady src there i j n (suc left)
    → IsSent i n.sender.sessions n'.sender.sessions
    → IsTaken src j (slot n.sender.sessions i).send_seq n.receiver.sessions n'.receiver.sessions
    → IsReady src there i j n' left
IsReady-kept src there i j left n n' ready sent taken = record {
  found = taken.found ∙ ready.found;
  to = sent.keeps.addr ∙ ready.to;
  same_key = sent.keeps.session_key ∙ ready.same_key ∙ sym taken.keeps.session_key;
  room = omega (arith, sent.count, ready.room);
  behind = rw sent.count taken.behind;
}
