-- ===== src/Tests/Tunnel.antt =====
-- Packets through the tunnel, and a run of the loop.
use lane_cove_tunnel.Prelude.{
  false, ℕ, ◌+◌, ◌≡◌, refl, true, some, none, inl, List, [], ◌∷◌, length, replicate, arith,
}
use lane_cove_tunnel.Prelude.Bytes.{Bytes}
use lane_cove_tunnel.Crypto.{seal}
use lane_cove_tunnel.World.{World, Datagram, sendto}
use lane_cove_tunnel.Packet.{encrypt_packet}
use lane_cove_tunnel.Replay.{check_replay, advance, mark, shift_words, shifted_word}
use lane_cove_tunnel.Node.{Session, Self, Node, zero_session}
use lane_cove_tunnel.Sessions.{time_now}
use lane_cove_tunnel.Sessions.Unique.{IsTable}
use lane_cove_tunnel.Loop.Send.{note_sent, forward_to_peer}
use lane_cove_tunnel.Loop.Data.{open_data}
use lane_cove_tunnel.Loop.Delivery.{IsAllowed, Carries, Opens, open_data-authentic}
use lane_cove_tunnel.Loop.Forward.{open_data-forward_to_peer}
use lane_cove_tunnel.Loop.Step.{from_tun, from_udp, failed, handle_udp, Turn, woken, event_loop}
use lane_cove_tunnel.Loop.Report.{Flags, sigterm, sigusr1}
use lane_cove_tunnel.Loop.Invariant.{event_loop-IsTable}
use lane_cove_tunnel.Loop.Collision.{handle_untied, handle_udp-untied}
use lane_cove_tunnel.Tests.Toy.{toy, toy-IsCrypto, toy_env, toy_env-IsEnv, start}
use lane_cove_tunnel.Tests.Routes.{peer_addr, timers, started, started-IsTable}

abbrev pub session : Session
session = record zero_session {
  active = true;
  addr = peer_addr;
  session_key = replicate 32 9;
  send_seq = 1;
}

abbrev pub payload : Bytes
payload = 0x61 ∷ 0x62 ∷ []

abbrev sent : World
sent = (forward_to_peer toy toy_env session payload start).1

abbrev pub first : List Datagram → Datagram
first [] = record { to = peer_addr; bytes = [] }
first (d ∷ ds) = d

abbrev pub datagram : Datagram
datagram = first sent.sent

pub goes_out : sent.sent ≡ datagram ∷ start.sent
unfolding forward_to_peer note_sent encrypt_packet seal sendto time_now zero_session
goes_out = refl

is_fresh : (check_replay session.send_seq session.window).0 ≡ true
unfolding check_replay advance mark shift_words shifted_word zero_session
is_fresh = refl

payload-IsAllowed : IsAllowed session payload
unfolding zero_session
payload-IsAllowed = (λ h. absurd (omega arith), inl refl)

open_data-forward_to_peer_example :
    (datagram.to ≡ peer_addr)
    × (length datagram.bytes ≡ length payload + 44)
    × ((open_data toy 200 session datagram.bytes).1 ≡ some payload)
open_data-forward_to_peer_example =
    open_data-forward_to_peer toy toy_env toy-IsCrypto toy_env-IsEnv session session payload 200
      start {d = datagram} goes_out refl (omega arith) is_fresh payload-IsAllowed

pub arrives : (open_data toy 200 session datagram.bytes).1 ≡ some payload
arrives =
    (open_data-forward_to_peer toy toy_env toy-IsCrypto toy_env-IsEnv session session payload 200
      start {d = datagram} goes_out refl (omega arith) is_fresh payload-IsAllowed).2

open_data-authentic_example :
    (plain : Bytes) × Opens toy 200 session datagram.bytes plain
    × Carries plain payload
    × IsAllowed session payload
open_data-authentic_example =
    open_data-authentic toy 200 session datagram.bytes {payload = payload} arrives

abbrev pub self : Self ℕ
self = record { static_key = 5; static_pub = replicate 32 5; psk_key = none; timers = timers }

abbrev pub node : Node ℕ
node = record {
  peer_configs = [];
  sessions = started;
  pending_hs = [];
  precomp_eph_key = some 7;
  precomp_eph_pub = replicate 32 7;
  last_rekey_check = 0;
}

abbrev pub flags : Flags
flags = record { stop = false; print = false }

-- A datagram and a packet, and SIGTERM before the next turn.
abbrev two_turns : List Turn
two_turns =
    record {
      before = sigusr1 ∷ [];
      during = [];
      wait = woken (from_udp peer_addr datagram.bytes ∷ (from_tun payload ∷ []));
    }
    ∷ (record { before = sigterm ∷ []; during = []; wait = woken (failed ∷ []) } ∷ [])

event_loop-IsTable_example :
    IsTable (event_loop toy toy_env self true true two_turns flags node start).0.sessions
event_loop-IsTable_example =
    event_loop-IsTable toy toy_env self true true two_turns flags node start started-IsTable

handle_udp-untied_example :
    handle_udp toy toy_env self peer_addr datagram.bytes node start
    ≡ handle_untied toy toy_env self peer_addr datagram.bytes node start
handle_udp-untied_example = handle_udp-untied toy toy_env self peer_addr datagram.bytes node start
