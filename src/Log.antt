-- ===== src/Log.antt =====
-- The macros LOG_ERROR, LOG_WARN, LOG_INFO and LOG_DEBUG with `log_timestamp` (src/common.h), and the
-- text of the lines that print_sessions and session_init (src/peer.c) log.
use lane_cove_tunnel.Prelude.{ℕ, Bool, true, Option, none, some, [], ◌∷◌, ◌++◌, ltb, if◌then◌else◌}
use lane_cove_tunnel.Prelude.Bytes.{Bytes}
use lane_cove_tunnel.Decimal.{decimal}
use lane_cove_tunnel.World.{
  Addr, LogLine, active_peers, active_peer, peer_connected, peer_rekeyed, address_changed,
  caught_signal, loop_terminated,
}
use lane_cove_tunnel.Config.{codes}

pub data Level : Type 0 where
  error warn info debug : Level

-- Only LOG_DEBUG looks at `log_level`.
unfoldable pub is_logged : Level → ℕ → Bool
is_logged debug log_level = ltb 0 log_level
is_logged _ log_level = true

unfoldable pub tag : Level → Bytes
tag error = codes " [ERROR] "
tag warn = codes " [WARN]  "
tag info = codes " [INFO]  "
tag debug = codes " [DEBUG] "

-- What goes to stderr. `stamp` is `localtime` and `strftime` for a time.
unfoldable pub log_text : (ℕ → Bytes) → Level → ℕ → ℕ → Bytes → Option Bytes
log_text stamp level log_level now message =
    if is_logged level log_level
    then some (stamp now ++ (tag level ++ (message ++ (b'\n' ∷ []))))
    else none

module _ (inet_ntoa : ℕ → Bytes) where
  -- `%s:%d` for an address
  unfoldable pub endpoint_text : Addr → Bytes
  endpoint_text addr = inet_ntoa addr.ip ++ (b':' ∷ decimal addr.port)

  unfoldable pub message : LogLine → Bytes
  message (active_peers n) = codes "Active peers (" ++ (decimal n ++ codes "):")
  message (active_peer is_outbound addr key_hex routes) =
      codes "  ["
      ++ ((if is_outbound then codes "out" else codes "in")
          ++ (codes "] "
              ++ (endpoint_text addr
                  ++ (codes " key=" ++ (key_hex ++ (codes "... routes=" ++ decimal routes))))))
  message (peer_connected addr key_hex) =
      codes "Peer connected: "
      ++ (endpoint_text addr ++ (codes " (key=" ++ (key_hex ++ codes "...)")))
  message (peer_rekeyed addr key_hex) =
      codes "Peer re-keyed: "
      ++ (endpoint_text addr ++ (codes " (key=" ++ (key_hex ++ codes "...)")))
  message (address_changed old addr key_hex) =
      codes "Peer address changed: "
      ++ (endpoint_text old
          ++ (codes " -> "
              ++ (endpoint_text addr ++ (codes " (key=" ++ (key_hex ++ codes "...)")))))
  -- The dash is UTF-8.
  message caught_signal = codes "Caught signal " ++ (226 ∷ 128 ∷ 148 ∷ codes " shutting down")
  message loop_terminated = codes "Event loop terminated"
