-- ===== src/Loop/Still.antt =====
-- The session table through the data packets and keepalives of `event_loop` (src/peer.c).
use lane_cove_tunnel.Prelude.{
  ℕ, zero, suc, ◌+◌, ◌≡◌, refl, Bool, true, false, Option, none, some, List, [], ◌∷◌, Bool-cases,
  Option-cases, inl, inr, arith, length, if◌then◌else◌, ltb, leb, not, ◌||◌, ◌&&◌, ◌++◌, ◌==◌,
}
use lane_cove_tunnel.Prelude.Bytes.{Bytes, be64}
use lane_cove_tunnel.Crypto.{Crypto}
use lane_cove_tunnel.World.{Env, World, Addr}
use lane_cove_tunnel.Handshake.{pkt_header}
use lane_cove_tunnel.Packet.{encrypt_packet, decrypt_packet}
use lane_cove_tunnel.Node.{Session, Node, Timers}
use lane_cove_tunnel.Sessions.{slot, find_session_by_addr, route_lookup}
use lane_cove_tunnel.Sessions.Unique.{update-IsTable}
use lane_cove_tunnel.Loop.Send.{note_sent, forward_to_peer}
use lane_cove_tunnel.Loop.Periodic.{keepalive, keepalives}
use lane_cove_tunnel.Loop.Data.{
  check_plain, open_data, forward_at, deliver_payload, handle_data, handle_tun, is_ipv4, dst_ip,
}
use lane_cove_tunnel.Loop.Table.{HasTable}

-- A session that is the same peer's as before and not awake if it was not.
abbrev pub IsStill : Session → Session → Type 0
IsStill old new = (new.active ≡ true → old.active ≡ true) × (new.static_pub ≡ old.static_pub)

each-cons :
    (old new : Session) (olds news : List Session)
    → IsStill old new
    → ((i : ℕ) → IsStill (slot olds i) (slot news i))
    → (i : ℕ) → IsStill (slot (old ∷ olds) i) (slot (new ∷ news) i)
unfolding slot
each-cons old new olds news h k zero = h
each-cons old new olds news h k (suc i) = k i

check_plain-IsStill :
    (s : Session) (plain : Bytes) (used_prev_key : Bool)
    → IsStill s (check_plain s plain used_prev_key).0
unfolding check_plain
check_plain-IsStill s plain used_prev_key = ground arith

module _ {PKey Ctx : Type 0} (c : Crypto PKey Ctx) where
  open_data-IsStill :
      (now : ℕ) (s : Session) (wire_buf : Bytes) → IsStill s (open_data c now s wire_buf).0
  unfolding open_data
  open_data-IsStill now s wire_buf =
      let seen : Session = record s { last_seen = now } in
      elim (Option-cases (decrypt_packet c s.session_key wire_buf)) [
        | inr (plain, opened) ↦
            rw (opened, open_data)
              (check_plain-IsStill (record seen { prev_key_active = false }) plain false)
        | inl fails ↦ elim (Bool-cases (s.prev_key_active && leb now s.prev_key_expires)) [
          | inr off ↦ rw (fails, off, open_data) (λ p. p, refl)
          | inl on ↦ elim (Option-cases (decrypt_packet c s.prev_session_key wire_buf)) [
            | inl fails' ↦ rw (fails, on, fails', open_data) (λ p. p, refl)
            | inr (plain, opened) ↦
                rw (fails, on, opened, open_data) (check_plain-IsStill seen plain true)
          ]
        ]
      ]

  module _ (e : Env PKey) where
    note_sent-IsStill :
        (s : Session) (r : Option (Unit {0}) × World) → IsStill s (note_sent c e s r).0
    unfolding note_sent
    note_sent-IsStill s (none, w) = (λ p. p, refl)
    note_sent-IsStill s (some _, w) = (λ p. p, refl)

    forward_to_peer-IsStill :
        (s : Session) (payload : Bytes) (w : World) → IsStill s (forward_to_peer c e s payload w).0
    unfolding forward_to_peer
    forward_to_peer-IsStill s payload w =
        elim (Option-cases
          (encrypt_packet c e s.session_key (pkt_header ++ (be64 s.send_seq ++ payload)) w).0) [
            | inl fails ↦ rw (fails, forward_to_peer) (λ p. p, refl)
            | inr (wire, sealed) ↦ rw (sealed, forward_to_peer) (note_sent-IsStill _ _)
          ]

    keepalive-IsStill :
        (timers : Timers) (now : ℕ) (s : Session) (w : World)
        → IsStill s (keepalive c e timers now s w).0
    unfolding keepalive
    keepalive-IsStill timers now s w =
        elim (Bool-cases (not s.active || ltb now (s.last_sent + timers.keepalive_interval))) [
          | inl quiet ↦ rw (quiet, keepalive) (λ p. p, refl)
          | inr due ↦ rw (due, keepalive) (forward_to_peer-IsStill s [] w)
        ]

    pub keepalives-IsTable :
        (timers : Timers) (now : ℕ) (sessions : List Session) (w : World)
        → (length (keepalives c e timers now sessions w).0 ≡ length sessions)
          × ((i : ℕ) → IsStill (slot sessions i) (slot (keepalives c e timers now sessions w).0 i))
    unfolding keepalives
    keepalives-IsTable timers now [] w = (refl, λ i. (λ p. p, refl))
    keepalives-IsTable timers now (s ∷ sessions) w =
        let (s', w') = keepalive c e timers now s w in
        let later = keepalives-IsTable timers now sessions w' in
        (omega (arith, later.0), each-cons _ _ _ _ (keepalive-IsStill timers now s w) later.1)

    forward_at-HasTable :
        (i : ℕ) (payload : Bytes) (node : Node PKey) (w : World)
        → HasTable node
        → HasTable (forward_at c e i payload node w).0
    unfolding forward_at
    forward_at-HasTable i payload node w t =
        let still = forward_to_peer-IsStill (slot node.sessions i) payload w in
        update-IsTable node.sessions i _ t still.0 still.1

    deliver_payload-HasTable :
        (i : ℕ) (payload : Bytes) (node : Node PKey) (w : World)
        → HasTable node
        → HasTable (deliver_payload c e i payload node w).0
    unfolding deliver_payload
    deliver_payload-HasTable i payload node w t =
        elim (Option-cases
          (if is_ipv4 payload then route_lookup (dst_ip payload) node.sessions else none)) [
            | inl none_found ↦ rw (none_found, deliver_payload) t
            | inr (fwd, found) ↦ elim (Bool-cases (fwd == i)) [
              | inl own ↦ rw (found, own, deliver_payload) t
              | inr other ↦
                  rw (found, other, deliver_payload) (forward_at-HasTable fwd payload node w t)
            ]
          ]

    pub handle_tun-HasTable :
        (packet : Bytes) (node : Node PKey) (w : World)
        → HasTable node
        → HasTable (handle_tun c e packet node w).0
    unfolding handle_tun
    handle_tun-HasTable packet node w t =
        elim (Option-cases
          (if is_ipv4 packet then route_lookup (dst_ip packet) node.sessions else none)) [
            | inl none_found ↦ rw (none_found, handle_tun) t
            | inr (i, found) ↦ rw (found, handle_tun) (forward_at-HasTable i packet node w t)
          ]

    pub handle_data-HasTable :
        (now : ℕ) (src : Addr) (wire_buf : Bytes) (node : Node PKey) (w : World)
        → HasTable node
        → HasTable (handle_data c e now src wire_buf node w).0
    unfolding handle_data
    handle_data-HasTable now src wire_buf node w t =
        elim (Option-cases (find_session_by_addr src node.sessions)) [
          | inl unknown ↦ rw (unknown, handle_data) t
          | inr (i, found) ↦
              let still = open_data-IsStill now (slot node.sessions i) wire_buf in
              let t' =
                update-IsTable node.sessions i (open_data c now (slot node.sessions i) wire_buf).0 t
                  still.0 still.1 in
              elim (Option-cases (open_data c now (slot node.sessions i) wire_buf).1) [
                | inl dropped ↦ rw (found, dropped, handle_data) t'
                | inr (p, opened) ↦
                    rw (found, opened, handle_data) (deliver_payload-HasTable i p _ w t')
              ]
        ]
