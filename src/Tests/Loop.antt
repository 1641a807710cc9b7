-- ===== src/Tests/Loop.antt =====
-- The loop: stopping, datagrams that come twice, a new key, silent sessions.
use lane_cove_tunnel.Prelude.{
  ℕ, ◌+◌, ◌≤◌, ◌↔◌, ◌≡◌, refl, true, some, none, inl, Option, [], ◌∷◌, ◌++◌, length, replicate,
  arith, ap, get_or-replicate,
}
use lane_cove_tunnel.Prelude.Bytes.{Bytes, bytes_eq, be64}
use lane_cove_tunnel.Crypto.{seal, unseal}
use lane_cove_tunnel.Packet.{encrypt_packet, decrypt_packet}
use lane_cove_tunnel.Replay.Refines.{Tracks, empty-Tracks}
use lane_cove_tunnel.Node.{
  Session, PendingHs, Node, pending_at, set_pending, zero_config, zero_session, zero_pending,
}
use lane_cove_tunnel.Sessions.{slot, session_init, time_now}
use lane_cove_tunnel.World.{sendto}
use lane_cove_tunnel.Loop.Send.{note_sent, forward_to_peer}
use lane_cove_tunnel.Loop.Data.{open_data}
use lane_cove_tunnel.Loop.Delivery.{IsAllowed}
use lane_cove_tunnel.Loop.Once.{open_all, open_data_once}
use lane_cove_tunnel.Loop.Grace.{open_data-session_init}
use lane_cove_tunnel.Loop.Size.{
  buffer_size, wire_overhead, tun_mtu, forward_to_peer_fits, open_data_fits,
}
use lane_cove_tunnel.Loop.Periodic.{expire_pendings, periodic}
use lane_cove_tunnel.Loop.Timeout.{is_waiting, expire_pendings-active}
use lane_cove_tunnel.Loop.Expiry.{is_live, periodic-active}
use lane_cove_tunnel.Loop.Report.{sigterm, sigint, sigusr1}
use lane_cove_tunnel.Loop.Step.{failed, Turn, woken, interrupted, event_loop}
use lane_cove_tunnel.Loop.Stop.{IsSameButLog, event_loop_stop_before, event_loop_stop_during}
use lane_cove_tunnel.Loop.Within.{IsWithin, set_pending-IsWithin}
use lane_cove_tunnel.Loop.Within.Turns.{event_loop-IsWithin}
use lane_cove_tunnel.Tests.Toy.{toy, toy-IsCrypto, toy_env, toy_env-IsEnv, start}
use lane_cove_tunnel.Tests.Routes.{peer_addr, timers}
use lane_cove_tunnel.Tests.Tunnel.{session, payload, datagram, goes_out, arrives, self, node, flags}

abbrev quiet : Turn
quiet = record { before = sigusr1 ∷ []; during = []; wait = interrupted }

abbrev asked : Turn
asked = record {
  before = sigterm ∷ [];
  during = sigusr1 ∷ (sigint ∷ []);
  wait = woken (failed ∷ []);
}

event_loop_stop_before_example :
    IsSameButLog
      (event_loop toy toy_env self true true
        ((quiet ∷ []) ++ (asked ∷ (quiet ∷ [])))
        flags
        node
        start)
      (event_loop toy toy_env self true true (quiet ∷ []) flags node start)
event_loop_stop_before_example =
    event_loop_stop_before toy toy_env self true true (quiet ∷ []) asked (quiet ∷ []) flags node
      start refl

event_loop_stop_during_example :
    IsSameButLog
      (event_loop toy toy_env self true true
        ((quiet ∷ []) ++ (asked ∷ (quiet ∷ [])))
        flags
        node
        start)
      (event_loop toy toy_env self true true ((quiet ∷ []) ++ (asked ∷ [])) flags node start)
event_loop_stop_during_example =
    event_loop_stop_during toy toy_env self true true (quiet ∷ []) asked (quiet ∷ []) flags node
      start refl

periodic-active_example :
    (slot (periodic toy toy_env self 200 node start).0.sessions 0).active
    ≡ is_live self.timers 200 (slot node.sessions 0)
periodic-active_example = periodic-active toy toy_env self 200 node start (omega arith) 0

-- One peer, and no handshake yet; then one with that peer.
abbrev idle_node : Node ℕ
idle_node = record node { peer_configs = zero_config ∷ []; pending_hs = replicate 64 zero_pending }

abbrev waiting : PendingHs ℕ
waiting = record zero_pending { active = true; sent_at = 90 }

idle_node-IsWithin : IsWithin 1 idle_node
unfolding zero_pending
idle_node-IsWithin = record {
  configs = refl;
  pendings = refl;
  indices = λ j on.
      let empty = ap (λ (p : PendingHs ℕ). p.active) (get_or-replicate 64 j zero_pending) in
      cc (empty, on);
}

waiting-IsWithin : IsWithin 1 (set_pending idle_node 3 waiting)
unfolding zero_pending
waiting-IsWithin = set_pending-IsWithin 1 idle_node 3 waiting (λ on. omega arith) idle_node-IsWithin

event_loop-IsWithin_example :
    IsWithin 1
      (event_loop toy toy_env self true true
        (quiet ∷ (asked ∷ []))
        flags
        (set_pending idle_node 3 waiting)
        start).0
event_loop-IsWithin_example =
    event_loop-IsWithin toy toy_env 1 self true true (quiet ∷ (asked ∷ [])) flags
      (set_pending idle_node 3 waiting) start waiting-IsWithin

abbrev plain : Option Bytes
plain = decrypt_packet toy session.session_key datagram.bytes

abbrev bytes_of : Option Bytes → Bytes
bytes_of none = []
bytes_of (some bytes) = bytes

opens : plain ≡ some (bytes_of plain)
unfolding decrypt_packet unseal forward_to_peer note_sent encrypt_packet seal sendto time_now
    zero_session bytes_eq be64
opens = refl

tracks : Tracks session.window []
unfolding zero_session
tracks = empty-Tracks

open_data_once_example :
    (open_data toy 202
      (open_all toy ((201, payload) ∷ []) (open_data toy 200 session datagram.bytes).0)
      datagram.bytes).1
    ≡ none
open_data_once_example =
    open_data_once toy session [] datagram.bytes {plain = bytes_of plain} 200 202
      ((201, payload) ∷ []) tracks opens

abbrev rekeyed : Session
rekeyed = (session_init toy_env timers session peer_addr [] (replicate 32 8) none true start).0

locked : decrypt_packet toy (replicate 32 8) datagram.bytes ≡ none
unfolding decrypt_packet unseal forward_to_peer note_sent encrypt_packet seal sendto time_now
    zero_session bytes_eq be64
locked = refl

rekeyed-IsAllowed : IsAllowed rekeyed payload
unfolding session_init zero_session
rekeyed-IsAllowed = (λ h. absurd (omega arith), inl refl)

-- A datagram that opens under neither key comes first.
open_data-session_init_example :
    (open_data toy 110 (open_all toy ((105, payload) ∷ []) rekeyed) datagram.bytes).1 ≡ some payload
unfolding decrypt_packet unseal session_init
open_data-session_init_example =
    open_data-session_init toy toy-IsCrypto toy_env toy_env toy_env-IsEnv session session payload
      start {d = datagram} timers peer_addr [] (replicate 32 8) none true start 110
      ((105, payload) ∷ []) goes_out refl refl (omega arith) (refl, tt) locked rekeyed-IsAllowed

small : length datagram.bytes ≤ buffer_size + wire_overhead
small =
    (forward_to_peer_fits toy toy-IsCrypto toy_env toy_env-IsEnv session payload start
      {d = datagram} goes_out (omega arith)).0

forward_to_peer_fits_example :
    (length datagram.bytes ≤ buffer_size + wire_overhead)
    × ((20 + 8 + length datagram.bytes ≤ 1500) ↔ (length payload ≤ tun_mtu))
forward_to_peer_fits_example =
    forward_to_peer_fits toy toy-IsCrypto toy_env toy_env-IsEnv session payload start {d = datagram}
      goes_out (omega arith)

open_data_fits_example :
    (length payload + wire_overhead ≡ length datagram.bytes) × (length payload ≤ buffer_size)
open_data_fits_example =
    open_data_fits toy toy-IsCrypto 200 session datagram.bytes {payload = payload} arrives small

expire_pendings-active_example :
    (pending_at (expire_pendings timers 95 64 0 (set_pending idle_node 3 waiting)) 3).active
    ≡ is_waiting timers 95 (pending_at (set_pending idle_node 3 waiting) 3)
expire_pendings-active_example =
    expire_pendings-active timers 95 64 0 3 (set_pending idle_node 3 waiting) (omega arith)
      (omega arith)
