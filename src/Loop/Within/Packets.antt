-- ===== src/Loop/Within/Packets.antt =====
-- The indices of `pending_hs` through the data packets of `event_loop` (src/peer.c).
use lane_cove_tunnel.Prelude.{ℕ, refl, none, Option-cases, inl, inr, if_both, if◌then◌else◌, ◌==◌}
use lane_cove_tunnel.Prelude.Bytes.{Bytes}
use lane_cove_tunnel.Crypto.{Crypto}
use lane_cove_tunnel.World.{Env, World, Addr}
use lane_cove_tunnel.Node.{Node}
use lane_cove_tunnel.Sessions.{find_session_by_addr, slot, route_lookup}
use lane_cove_tunnel.Loop.Data.{
  is_ipv4, dst_ip, open_data, forward_at, deliver_payload, handle_data, handle_tun,
}
use lane_cove_tunnel.Loop.Within.{IsWithin, same-IsWithin}

module _ {PKey Ctx : Type 0} (c : Crypto PKey Ctx) (e : Env PKey) (n : ℕ) where
  forward_at-IsWithin :
      (i : ℕ) (payload : Bytes) (node : Node PKey) (w : World)
      → IsWithin n node
      → IsWithin n (forward_at c e i payload node w).0
  unfolding forward_at
  forward_at-IsWithin i payload node w h = same-IsWithin n node _ refl refl h

  deliver_payload-IsWithin :
      (i : ℕ) (payload : Bytes) (node : Node PKey) (w : World)
      → IsWithin n node
      → IsWithin n (deliver_payload c e i payload node w).0
  unfolding deliver_payload
  deliver_payload-IsWithin i payload node w h =
      elim (Option-cases
        (if is_ipv4 payload then route_lookup (dst_ip payload) node.sessions else none)) [
          | inl none_found ↦ rw (none_found, deliver_payload) h
          | inr (fwd, found) ↦
              rw (found, deliver_payload)
                (if_both (λ (r : Node PKey × World). IsWithin n r.0) (fwd == i) _ _ h
                  (forward_at-IsWithin fwd payload node w h))
        ]

  pub handle_tun-IsWithin :
      (packet : Bytes) (node : Node PKey) (w : World)
      → IsWithin n node
      → IsWithin n (handle_tun c e packet node w).0
  unfolding handle_tun
  handle_tun-IsWithin packet node w h =
      elim (Option-cases
        (if is_ipv4 packet then route_lookup (dst_ip packet) node.sessions else none)) [
          | inl none_found ↦ rw (none_found, handle_tun) h
          | inr (i, found) ↦ rw (found, handle_tun) (forward_at-IsWithin i packet node w h)
        ]

  pub handle_data-IsWithin :
      (now : ℕ) (src : Addr) (wire_buf : Bytes) (node : Node PKey) (w : World)
      → IsWithin n node
      → IsWithin n (handle_data c e now src wire_buf node w).0
  unfolding handle_data
  handle_data-IsWithin now src wire_buf node w h =
      elim (Option-cases (find_session_by_addr src node.sessions)) [
        | inl unknown ↦ rw (unknown, handle_data) h
        | inr (i, found) ↦ elim (Option-cases (open_data c now (slot node.sessions i) wire_buf).1) [
          | inl dropped ↦ rw (found, dropped, handle_data) (same-IsWithin n node _ refl refl h)
          | inr (p, opened) ↦
              rw (found, opened, handle_data)
                (deliver_payload-IsWithin i p _ w (same-IsWithin n node _ refl refl h))
        ]
      ]
