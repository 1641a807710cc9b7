-- ===== src/Loop/Report.antt =====
-- `print_sessions` and `handle_signal` of src/peer.c.
use lane_cove_tunnel.Prelude.{ℕ, suc, Bool, true, List, [], ◌∷◌, ◌++◌, if◌then◌else◌, length, take}
use lane_cove_tunnel.Hex.{bytes_to_hex}
use lane_cove_tunnel.World.{World, LogLine, active_peers, active_peer}
use lane_cove_tunnel.Node.{Session}

-- The first loop.
unfoldable pub count_active : List Session → ℕ
count_active [] = 0
count_active (s ∷ sessions) =
    let rest = count_active sessions in if s.active then suc rest else rest

-- The second loop.
unfoldable pub peer_lines : List Session → List LogLine
peer_lines [] = []
peer_lines (s ∷ sessions) =
    let rest = peer_lines sessions in
    if s.active
    then active_peer s.is_outbound s.addr (bytes_to_hex (take 8 s.static_pub)) (length s.routes)
      ∷ rest
    else rest

unfoldable pub print_sessions : List Session → World → World
print_sessions sessions w = record w {
  log = w.log ++ (active_peers (count_active sessions) ∷ peer_lines sessions);
}

-- The signals that `start_peer` sets the handler for.
pub data Signal : Type 0 where
  sigterm sigint sigusr1 : Signal

-- `stop_flag` and `print_sessions_flag`
pub record Flags : Type 0 where
  pub stop : Bool
  pub print : Bool

unfoldable pub handle_signal : Signal → Flags → Flags
handle_signal sigusr1 flags = record flags { print = true }
handle_signal sigterm flags = record flags { stop = true }
handle_signal sigint flags = record flags { stop = true }

-- The signals that came since the flags were last read.
unfoldable pub handle_signals : List Signal → Flags → Flags
handle_signals [] flags = flags
handle_signals (sig ∷ signals) flags = handle_signals signals (handle_signal sig flags)
