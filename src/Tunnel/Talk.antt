-- ===== src/Tunnel/Talk.antt =====
-- From the first call to the packets of the tunnel (src/peer.c).
use lane_cove_tunnel.Prelude.{ℕ, ◌^◌, ◌<◌, ◌≡◌, refl, List, [], length, arith, ◌∙◌, sym}
use lane_cove_tunnel.Prelude.Bytes.{Bytes}
use lane_cove_tunnel.Crypto.{Crypto, IsCrypto}
use lane_cove_tunnel.World.{Env, Addr, IsEnv}
use lane_cove_tunnel.Replay.{empty_window}
use lane_cove_tunnel.Replay.Refines.{mem, maximum, empty-Tracks}
use lane_cove_tunnel.Node.{PeerConfig, Self, IpPrefix, config_at}
use lane_cove_tunnel.Tunnel.Send.{IsReliable}
use lane_cove_tunnel.Tunnel.Stream.{Ends, Schedule, arrived, carry, IsBehind, AllCarried, IsReady}
use lane_cove_tunnel.Tunnel.Arrival.{carry-written}
use lane_cove_tunnel.Tunnel.Begin.{IsNew}
use lane_cove_tunnel.Tunnel.Able.{IsAble}
use lane_cove_tunnel.Tunnel.Meet.{meet, CanMeet}
use lane_cove_tunnel.Tunnel.Connect.{meet-IsNew}

empty-IsBehind : IsBehind empty_window 0
unfolding mem maximum
empty-IsBehind = record { log = []; tracks = empty-Tracks; new = λ n h. refl; top = omega arith }

-- The two ends of a tunnel that has just been set up.
pub IsNew-IsReady :
    {PKey : Type 0} (a_key b_key key : Bytes) (a_addr b_addr : Addr) (there back : List IpPrefix)
    (k l left : ℕ) (n : Ends PKey)
    → IsNew a_key a_addr key there l n.receiver.sessions
    → IsNew b_key b_addr key back k n.sender.sessions
    → left < 2 ^ 64
    → IsReady a_addr b_addr k l n left
IsNew-IsReady a_key b_key key a_addr b_addr there back k l left n r s room = record {
  found = r.found;
  to = s.to;
  same_key = s.keyed ∙ sym r.keyed;
  room = omega (arith, s.unsent, room);
  behind = rw (r.unseen, s.unsent) empty-IsBehind;
}

module _ {PKey Ctx : Type 0} (c : Crypto PKey Ctx) (ok : IsCrypto c) (able : IsAble c)
    (e e' : Env PKey) (random : IsEnv e) (reliable : IsReliable e) (reliable' : IsReliable e')
    (a b : Self PKey) (a_addr : Addr) (i k l : ℕ) (cfg : PeerConfig) (n : Ends PKey)
    (m : CanMeet c a b a_addr i k l cfg n) where
  -- After the first call the tunnel carries: of a stream of packets with a route to the new session,
  -- which the other peer takes and keeps, it writes those that the network brings on, in order, and
  -- no others.
  pub carry-meet :
      (schedule : Schedule)
      → length schedule < 2 ^ 64
      → AllCarried b.psk_key k l
          (meet c e e' a b a_addr i n).sender.sessions
          (meet c e e' a b a_addr i n).receiver.sessions
          schedule
      → (carry c e e' b a_addr
          (config_at n.sender i).endpoint
          schedule
          (meet c e e' a b a_addr i n)).receiver_world.written
        ≡ arrived schedule (meet c e e' a b a_addr i n).receiver_world.written
  carry-meet schedule room all =
      let (key, there, back) =
        meet-IsNew c ok able e e' reliable reliable' a b a_addr i k l cfg n m in
      carry-written c ok able.seals e e' random reliable reliable' b a_addr
        (config_at n.sender i).endpoint k l schedule (meet c e e' a b a_addr i n)
        (IsNew-IsReady a.static_pub b.static_pub key a_addr (config_at n.sender i).endpoint
          cfg.routes (config_at n.sender i).routes k l (length schedule)
          (meet c e e' a b a_addr i n) there back room)
        all
