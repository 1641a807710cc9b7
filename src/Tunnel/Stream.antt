-- ===== src/Tunnel/Stream.antt =====
-- A stream of packets from the TUN device of one peer to that of another (src/peer.c), over a
-- network that loses what it likes.
use lane_cove_tunnel.Prelude.{
  ℕ, ◌+◌, ◌^◌, ◌≤◌, ◌<◌, ◌≡◌, ◌≢◌, Bool, true, false, Option, some, List, [], ◌∷◌, if◌then◌else◌,
  length, arith,
}
use lane_cove_tunnel.Prelude.Bytes.{Bytes}
use lane_cove_tunnel.Crypto.{Crypto}
use lane_cove_tunnel.World.{Env, World, Addr, Datagram}
use lane_cove_tunnel.Handshake.{hs_size}
use lane_cove_tunnel.Replay.{Window, check_replay}
use lane_cove_tunnel.Replay.Refines.{Tracks, mem, maximum, fresh, check_replay-refines}
use lane_cove_tunnel.Node.{Session, Self, Node}
use lane_cove_tunnel.Sessions.{same_addr, slot, find_session_by_addr, route_lookup}
use lane_cove_tunnel.Loop.Data.{is_ipv4, dst_ip, handle_tun}
use lane_cove_tunnel.Loop.Delivery.{IsAllowed}
use lane_cove_tunnel.Loop.Step.{handle_udp}
use lane_cove_tunnel.Tunnel.Receive.{IsLocal}

-- The two peers, each with its own surroundings.
pub record Ends (PKey : Type 0) : Type 0 where
  pub sender : Node PKey
  pub sender_world : World
  pub receiver : Node PKey
  pub receiver_world : World

-- Packets for the TUN device of the sender, and whether the network brings on what becomes of each.
abbrev pub Schedule : Type 0
Schedule = List (Bytes × Bool)

-- The packets that the network brings on, before those of `acc`: the latest first.
unfoldable pub arrived : Schedule → List Bytes → List Bytes
arrived [] acc = acc
arrived ((packet, true) ∷ schedule) acc = arrived schedule (packet ∷ acc)
arrived ((packet, false) ∷ schedule) acc = arrived schedule acc

module _ {PKey Ctx : Type 0} (c : Crypto PKey Ctx) (e : Env PKey) (self : Self PKey)
    (src there : Addr) where
  -- The receiver at `there` gets what was sent to that address, the oldest first.
  unfoldable pub receive_all : List Datagram → Node PKey × World → Node PKey × World
  receive_all [] b = b
  receive_all (d ∷ ds) b =
      let rest = receive_all ds b in
      if same_addr d.to there then handle_udp c e self src d.bytes rest.0 rest.1 else rest

module _ {PKey Ctx : Type 0} (c : Crypto PKey Ctx) (e e' : Env PKey) (self : Self PKey)
    (src there : Addr) where
  -- One packet. The network takes what was sent and loses it or brings it on.
  unfoldable pub hop : Bytes × Bool → Ends PKey → Ends PKey
  hop (packet, arrives) n =
      let (sender, w) = handle_tun c e packet n.sender (record n.sender_world { sent = [] }) in
      let b =
        if arrives
        then receive_all c e' self src there w.sent (n.receiver, n.receiver_world)
        else (n.receiver, n.receiver_world) in
      record { sender = sender; sender_world = w; receiver = b.0; receiver_world = b.1 }

  unfoldable pub carry : Schedule → Ends PKey → Ends PKey
  carry [] n = n
  carry (p ∷ schedule) n = carry schedule (hop p n)

-- No number from `seq` on has been accepted, and none beyond it.
pub record IsBehind (w : Window) (seq : ℕ) : Type 0 where
  pub log : List ℕ
  pub tracks : Tracks w log
  pub new : (n : ℕ) → seq ≤ n → mem n log ≡ false
  pub top : maximum log ≤ seq

-- The next number is accepted, and the one after it is next.
pub check_replay-IsBehind :
    (w : Window) (seq : ℕ)
    → IsBehind w seq
    → ((check_replay seq w).0 ≡ true) × IsBehind (check_replay seq w).1 (seq + 1)
unfolding fresh
check_replay-IsBehind w seq b =
    let (is_fresh, tracks) = check_replay-refines seq w b.log b.tracks in
    let accepted : (check_replay seq w).0 ≡ true = ground (arith, is_fresh, b.new seq, b.top) in
    (
      accepted,
      record {
        log = seq ∷ b.log;
        tracks = rw accepted at tracks;
        new = λ n h. unfold mem in ground (arith, b.new n);
        top = unfold maximum in omega (arith, b.top);
      },
    )

pub skip-IsBehind : (w : Window) (seq : ℕ) → IsBehind w seq → IsBehind w (seq + 1)
skip-IsBehind w seq b = record {
  log = b.log;
  tracks = b.tracks;
  new = λ n h. b.new n (omega arith);
  top = omega (arith, b.top);
}

-- A packet that goes through the tunnel from session i of the sender to session j of the receiver.
pub record IsCarried (psk : Option Bytes) (i j : ℕ) (senders receivers : List Session)
    (packet : Bytes) : Type 0 where
  pub ipv4 : is_ipv4 packet ≡ true
  pub route : route_lookup (dst_ip packet) senders ≡ some i
  -- so that its datagram has not the size of a handshake
  pub size : length packet + 44 ≢ hs_size psk
  pub allowed : IsAllowed (slot receivers j) packet
  pub here : IsLocal packet j receivers

abbrev pub AllCarried : Option Bytes → ℕ → ℕ → List Session → List Session → Schedule → Type 0
AllCarried psk i j senders receivers [] = Unit {0}
AllCarried psk i j senders receivers ((packet, _) ∷ schedule) =
    IsCarried psk i j senders receivers packet × AllCarried psk i j senders receivers schedule

-- Session i of the sender and session j of the receiver are the two ends of a tunnel with room
-- for so many packets.
pub record IsReady {PKey : Type 0} (src there : Addr) (i j : ℕ) (n : Ends PKey) (left : ℕ)
    : Type 0 where
  pub found : find_session_by_addr src n.receiver.sessions ≡ some j
  pub to : (slot n.sender.sessions i).addr ≡ there
  pub same_key : (slot n.sender.sessions i).session_key ≡ (slot n.receiver.sessions j).session_key
  pub room : (slot n.sender.sessions i).send_seq + left < 2 ^ 64
  pub behind : IsBehind (slot n.receiver.sessions j).window (slot n.sender.sessions i).send_seq
