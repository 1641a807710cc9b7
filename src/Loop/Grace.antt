-- ===== src/Loop/Grace.antt =====
-- A new session key, and the packets still on their way under the old one: `session_init` and then
-- the data path of `event_loop` (src/peer.c).
use lane_cove_tunnel.Prelude.{
  ℕ, ◌≤◌, ◌+◌, ◌≡◌, refl, Bool, true, false, Option, none, some, List, [], ◌∷◌, ap, ◌∙◌, Bool-cases,
  Option-cases, inl, inr, ◌&&◌, ◌||◌, not, ltb, leb, length, take, arith,
}
use lane_cove_tunnel.Prelude.Bytes.{Bytes, bytes_eq, bytes_eq_refl}
use lane_cove_tunnel.Crypto.{Crypto, IsCrypto}
use lane_cove_tunnel.World.{Env, World, Addr, Datagram, IsEnv}
use lane_cove_tunnel.Packet.{decrypt_packet}
use lane_cove_tunnel.Handshake.{header_size, pkt_header}
use lane_cove_tunnel.Node.{Session, PeerConfig, Timers}
use lane_cove_tunnel.Sessions.{session_init, keep_prev_key, time_now}
use lane_cove_tunnel.Loop.Send.{framed, forward_to_peer}
use lane_cove_tunnel.Loop.Data.{seq_size, check_plain, open_data}
use lane_cove_tunnel.Loop.Delivery.{IsAllowed}
use lane_cove_tunnel.Loop.Once.{open_all}
use lane_cove_tunnel.Loop.Forward.{framed-parts, check_payload-IsAllowed, forward_to_peer-opens}

check_plain-framed_prev :
    (r : Session) (seq : ℕ) (payload : Bytes)
    → IsAllowed r payload
    → (check_plain r (framed seq payload) true).1 ≡ some payload
unfolding check_plain
check_plain-framed_prev r seq payload allowed =
    let (header, number, rest, size) = framed-parts seq payload in
    let good : ltb (length (framed seq payload)) (header_size + seq_size)
          || not (bytes_eq (take header_size (framed seq payload)) pkt_header)
        ≡ false =
      rw (header, bytes_eq_refl pkt_header) (ground (arith, size)) in
    rw (check_plain, good) (rw (rest) (check_payload-IsAllowed r payload allowed))

-- The old key after a session is started anew in the slot of an active one.
session_init_prev :
    {PKey : Type 0} (e : Env PKey) (timers : Timers) (r : Session) (addr : Addr)
    (key new_key : Bytes) (cfg : Option PeerConfig) (is_outbound : Bool) (w : World)
    → r.active ≡ true
    → let r' = (session_init e timers r addr key new_key cfg is_outbound w).0 in
      (r'.session_key ≡ new_key)
      × (r'.prev_session_key ≡ r.session_key)
      × (r'.prev_key_active ≡ true)
      × (r'.prev_key_expires ≡ e.clock w.calls + timers.prev_key_grace)
unfolding session_init keep_prev_key time_now
session_init_prev e timers r addr key new_key cfg is_outbound w h =
    rw (session_init, keep_prev_key, h) (refl, refl, refl, refl)

module _ {PKey Ctx : Type 0} (c : Crypto PKey Ctx) where
  open_prev :
      (now : ℕ) (r : Session) (wire_buf plain : Bytes)
      → decrypt_packet c r.session_key wire_buf ≡ none
      → (r.prev_key_active && leb now r.prev_key_expires) ≡ true
      → decrypt_packet c r.prev_session_key wire_buf ≡ some plain
      → open_data c now r wire_buf ≡ check_plain (record r { last_seen = now }) plain true
  unfolding open_data
  open_prev now r wire_buf plain fails on opens = rw (open_data, fails, on, opens) refl

  -- None of the datagrams opens under a key.
  abbrev pub AreOther : Bytes → List (ℕ × Bytes) → Type 0
  AreOther key [] = Unit {0}
  AreOther key ((now, wire_buf) ∷ arrivals) =
      (decrypt_packet c key wire_buf ≡ none) × AreOther key arrivals

  -- A datagram that does not open under the session's key changes `last_seen` and nothing else.
  open_other :
      (now : ℕ) (r : Session) (wire_buf : Bytes)
      → decrypt_packet c r.session_key wire_buf ≡ none
      → (open_data c now r wire_buf).0 ≡ record r { last_seen = now }
  unfolding open_data check_plain
  open_other now r wire_buf fails =
      elim (Bool-cases (r.prev_key_active && leb now r.prev_key_expires)) [
        | inr off ↦ rw (open_data, fails, off) refl
        | inl on ↦ elim (Option-cases (decrypt_packet c r.prev_session_key wire_buf)) [
          | inl fails' ↦ rw (open_data, fails, on, fails') refl
          | inr (plain, opens) ↦ rw (open_data, fails, on, opens) (ground arith)
        ]
      ]

  open_all_other :
      (arrivals : List (ℕ × Bytes)) (r : Session)
      → AreOther r.session_key arrivals
      → (t : ℕ) × (open_all c arrivals r ≡ record r { last_seen = t })
  unfolding open_all
  open_all_other [] r h = (r.last_seen, refl)
  open_all_other ((now, wire_buf) ∷ arrivals) r (fails, h) =
      let (t, later) = open_all_other arrivals (record r { last_seen = now }) h in
      (t, ap (open_all c arrivals) (open_other now r wire_buf fails) ∙ later)

  module _ (ok : IsCrypto c) (e e' : Env PKey) (random : IsEnv e) where
    -- What `forward_to_peer` of one peer sent under the key that an active session of another peer held
    -- before `session_init` gave it a new one is still opened to its payload, up to `prev_key_grace`
    -- seconds later, as long as none of the data datagrams that came since then opened under the new
    -- key, where this datagram does not open under it either and the session allows the payload.
    pub open_data-session_init :
        (s r : Session) (payload : Bytes) (w : World) {d : Datagram} (timers : Timers) (addr : Addr)
        (key new_key : Bytes) (cfg : Option PeerConfig) (is_outbound : Bool) (v : World) (now : ℕ)
        (between : List (ℕ × Bytes))
        → (forward_to_peer c e s payload w).1.sent ≡ d ∷ w.sent
        → s.session_key ≡ r.session_key
        → r.active ≡ true
        → now ≤ e'.clock v.calls + timers.prev_key_grace
        → AreOther new_key between
        → decrypt_packet c new_key d.bytes ≡ none
        → IsAllowed (session_init e' timers r addr key new_key cfg is_outbound v).0 payload
        → (open_data c now
            (open_all c between (session_init e' timers r addr key new_key cfg is_outbound v).0)
            d.bytes).1
          ≡ some payload
    open_data-session_init s r payload w {d} timers addr key new_key cfg is_outbound v now between h
          same awake soon others other allowed =
        let r' = (session_init e' timers r addr key new_key cfg is_outbound v).0 in
        let (new, old, kept, until) =
          session_init_prev e' timers r addr key new_key cfg is_outbound v awake in
        let (t, unchanged) = open_all_other between r' (rw new others) in
        let r'' : Session = record r' { last_seen = t } in
        let (_, _, opened) = forward_to_peer-opens c e ok random s payload w h in
        let fails : decrypt_packet c r'.session_key d.bytes ≡ none = rw new other in
        let on : (r'.prev_key_active && leb now r'.prev_key_expires) ≡ true =
          rw (kept, until) (ground (arith, soon)) in
        let opens : decrypt_packet c r'.prev_session_key d.bytes
            ≡ some (framed s.send_seq payload) =
          rw (old, ← same) opened in
        ap (λ (x : Session). (open_data c now x d.bytes).1) unchanged
        ∙ rw (open_prev now r'' d.bytes (framed s.send_seq payload) fails on opens)
            (check_plain-framed_prev (record r'' { last_seen = now }) s.send_seq payload allowed)
