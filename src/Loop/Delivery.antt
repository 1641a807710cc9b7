-- ===== src/Loop/Delivery.antt =====
-- What a data packet must have for its payload to go on from `event_loop` (src/peer.c).
use lane_cove_tunnel.Prelude.{
  ℕ, ◌+◌, ◌≤◌, ◌≡◌, ◌≢◌, ◌⊎◌, refl, Bool, true, false, Option, none, some, Option-cases, Bool-cases,
  inl, inr, length, take, drop, arith, ltb, leb, ◌&&◌, ◌||◌, not,
}
use lane_cove_tunnel.Prelude.Bytes.{Bytes, bytes_eq, bytes_eq→eq, of_be}
use lane_cove_tunnel.Crypto.{Crypto}
use lane_cove_tunnel.Replay.{check_replay}
use lane_cove_tunnel.Packet.{decrypt_packet}
use lane_cove_tunnel.Handshake.{header_size, pkt_header}
use lane_cove_tunnel.Node.{Session}
use lane_cove_tunnel.Sessions.{check_allowed_src}
use lane_cove_tunnel.Loop.Data.{seq_size, is_ipv4, src_ip, check_payload, check_plain, open_data}

-- The sequence number in a decrypted packet.
abbrev pub seq_of : Bytes → ℕ
seq_of plain = of_be 0 (take seq_size (drop header_size plain))

-- A payload that a session may send: not empty, and from its AllowedIPs if it has any.
abbrev pub IsAllowed : Session → Bytes → Type 0
IsAllowed s payload =
    (length payload ≢ 0)
    × ((length s.routes ≡ 0)
        ⊎ (is_ipv4 payload ≡ false)
        ⊎ (check_allowed_src s.routes (src_ip payload) ≡ true))

-- A decrypted packet of the tunnel with its payload.
abbrev pub Carries : Bytes → Bytes → Type 0
Carries plain payload =
    (header_size + seq_size ≤ length plain)
    × (take header_size plain ≡ pkt_header)
    × (payload ≡ drop (header_size + seq_size) plain)

IsAllowed-check_payload :
    (s : Session) (payload : Bytes) {out : Bytes}
    → check_payload s payload ≡ some out
    → (out ≡ payload) × IsAllowed s payload
unfolding check_payload
IsAllowed-check_payload s payload {out} h = ground arith

check_header :
    (plain : Bytes)
    → ltb (length plain) (header_size + seq_size)
        || not (bytes_eq (take header_size plain) pkt_header)
      ≡ false
    → (header_size + seq_size ≤ length plain) × (take header_size plain ≡ pkt_header)
check_header plain good = ground (arith, bytes_eq→eq (take 8 plain) pkt_header)

check_plain-delivered :
    (s : Session) (plain : Bytes) (used_prev_key : Bool) {payload : Bytes}
    → (check_plain s plain used_prev_key).1 ≡ some payload
    → Carries plain payload
      × IsAllowed s payload
      × (used_prev_key ≡ false → (check_replay (seq_of plain) s.window).0 ≡ true)
unfolding check_plain
check_plain-delivered s plain used_prev_key {payload} h =
    elim (Bool-cases (
      ltb (length plain) (header_size + seq_size)
      || not (bytes_eq (take header_size plain) pkt_header))) [
        | inl bad ↦
            let h' : ◌≡◌ {A = Option Bytes} none (some payload) = rw (check_plain, bad) at h in
            cc h'
        | inr good ↦ elim (Bool-cases used_prev_key) [
          | inl prev ↦
              let (same, allowed) =
                IsAllowed-check_payload s (drop 16 plain) {out = payload}
                  (rw (check_plain, good, prev) at h) in
              (
                ((check_header plain good).0, (check_header plain good).1, same),
                rw (same) allowed,
                λ current. cc (prev, current),
              )
          | inr current ↦ elim (Bool-cases (check_replay (seq_of plain) s.window).0) [
            | inr replayed ↦
                let h' : ◌≡◌ {A = Option Bytes} none (some payload) =
                  rw (check_plain, good, current, replayed) at h in
                cc h'
            | inl fresh ↦
                let (same, allowed) =
                  IsAllowed-check_payload s (drop 16 plain) {out = payload}
                    (rw (check_plain, good, current, fresh) at h) in
                (
                  ((check_header plain good).0, (check_header plain good).1, same),
                  rw (same) allowed,
                  λ _. fresh,
                )
          ]
        ]
      ]

module _ {PKey Ctx : Type 0} (c : Crypto PKey Ctx) where
  -- The datagram opens to a packet under the current key, whose sequence number is fresh, or under
  -- the previous key within its grace time.
  abbrev pub Opens : ℕ → Session → Bytes → Bytes → Type 0
  Opens now s wire_buf plain =
      ((decrypt_packet c s.session_key wire_buf ≡ some plain)
        × ((check_replay (seq_of plain) s.window).0 ≡ true))
      ⊎ ((decrypt_packet c s.session_key wire_buf ≡ none)
          × ((s.prev_key_active && leb now s.prev_key_expires) ≡ true)
          × (decrypt_packet c s.prev_session_key wire_buf ≡ some plain))

  -- Where a datagram's payload goes on, the datagram opens under the current key with a sequence number that `check_replay` accepts, or
  -- under the previous key within its grace time; the packet in it has the magic header and carries
  -- this payload, which is not empty; and an IPv4 payload of a session with AllowedIPs has its
  -- source address among them.
  pub open_data-authentic :
      (now : ℕ) (s : Session) (wire_buf : Bytes) {payload : Bytes}
      → (open_data c now s wire_buf).1 ≡ some payload
      → (plain : Bytes) × Opens now s wire_buf plain × Carries plain payload × IsAllowed s payload
  unfolding open_data
  open_data-authentic now s wire_buf {payload} h =
      let seen : Session = record s { last_seen = now } in
      elim (Option-cases (decrypt_packet c s.session_key wire_buf)) [
        | inr (plain, opened) ↦
            let (carries, allowed, fresh) =
              check_plain-delivered (record seen { prev_key_active = false }) plain false
                {payload = payload} (rw (open_data, opened) at h) in
            (plain, inl (opened, fresh refl), carries, allowed)
        | inl fails ↦ elim (Bool-cases (s.prev_key_active && leb now s.prev_key_expires)) [
          | inr off ↦
              let h' : ◌≡◌ {A = Option Bytes} none (some payload) =
                rw (open_data, fails, off) at h in
              cc h'
          | inl on ↦ elim (Option-cases (decrypt_packet c s.prev_session_key wire_buf)) [
            | inl fails' ↦
                let h' : ◌≡◌ {A = Option Bytes} none (some payload) =
                  rw (open_data, fails, on, fails') at h in
                cc h'
            | inr (plain, opened) ↦
                let (carries, allowed, fresh) =
                  check_plain-delivered seen plain true {payload = payload}
                    (rw (open_data, fails, on, opened) at h) in
                (plain, inr (fails, on, opened), carries, allowed)
          ]
        ]
      ]
