-- ===== src/Loop/Collision.antt =====
-- The tie-breaking of `event_loop` (src/peer.c) between two handshakes that cross.
use lane_cove_tunnel.Prelude.{
  ℕ, ◌≡◌, refl, false, none, some, Option-cases, Bool-cases, inl, inr, if◌then◌else◌,
}
use lane_cove_tunnel.Prelude.Bytes.{Bytes}
use lane_cove_tunnel.Crypto.{Crypto}
use lane_cove_tunnel.World.{Env, World, Addr}
use lane_cove_tunnel.Node.{Self, Node}
use lane_cove_tunnel.Sessions.{find_index, time_now}
use lane_cove_tunnel.Loop.Response.{is_handshake, awaits, take_response}
use lane_cove_tunnel.Loop.Inbound.{break_tie, answer, handle_inbound}
use lane_cove_tunnel.Loop.Data.{handle_data}
use lane_cove_tunnel.Loop.Step.{handle_udp}

module _ {PKey Ctx : Type 0} (c : Crypto PKey Ctx) (e : Env PKey) where
  -- The handling of a datagram with the tie-breaking left out.
  unfoldable pub handle_untied : Self PKey → Addr → Bytes → Node PKey → World → Node PKey × World
  unfolding time_now
  handle_untied self src wire_buf node w =
      let (now, w) = time_now e w in
      if is_handshake self.psk_key wire_buf
      then (elim (find_index (awaits src) node.pending_hs) [
        | some j ↦ take_response c e self src wire_buf j node w
        | none ↦ answer c e self now src wire_buf node w
      ])
      else handle_data c e now src wire_buf node w

  handle_inbound-unasked :
      (self : Self PKey) (now : ℕ) (src : Addr) (wire_buf : Bytes) (node : Node PKey) (w : World)
      → find_index (awaits src) node.pending_hs ≡ none
      → handle_inbound c e self now src wire_buf node w ≡ answer c e self now src wire_buf node w
  unfolding handle_inbound break_tie
  handle_inbound-unasked self now src wire_buf node w unasked =
      let no_tie : break_tie self src node ≡ (false, node) = rw (unasked, break_tie) refl in
      rw (handle_inbound, no_tie) refl

  -- The tie-breaking between two handshakes that cross never acts: without it, every datagram has
  -- the same effect on the node and on the world.
  pub handle_udp-untied :
      (self : Self PKey) (src : Addr) (wire_buf : Bytes) (node : Node PKey) (w : World)
      → handle_udp c e self src wire_buf node w ≡ handle_untied self src wire_buf node w
  unfolding handle_udp handle_untied
  handle_udp-untied self src wire_buf node w =
      elim (Bool-cases (is_handshake self.psk_key wire_buf)) [
        | inr data_packet ↦ rw (data_packet, handle_udp, handle_untied) refl
        | inl handshake ↦ elim (Option-cases (find_index (awaits src) node.pending_hs)) [
          | inl unasked ↦
              rw (handshake, unasked, handle_udp, handle_untied)
                (handle_inbound-unasked self _ src wire_buf node _ unasked)
          | inr (j, asked) ↦ rw (handshake, asked, handle_udp, handle_untied) refl
        ]
      ]
