-- ===== src/Handshake/Safety.antt =====
-- What each side of a handshake (src/common.c) checks before it goes on.
use lane_cove_tunnel.Prelude.{
  ◌≡◌, Option, none, some, true, length, take, ◌==◌, arith, inl, inr, Bool-cases, Option-cases,
  ==_iff,
}
use lane_cove_tunnel.Prelude.Bytes.{Bytes, bytes_eq, bytes_eq→eq}
use lane_cove_tunnel.Prelude.Partial.{guard, guard-eq-some, >>=-eq-some}
use lane_cove_tunnel.Crypto.{Crypto}
use lane_cove_tunnel.World.{Env, World, Addr}
use lane_cove_tunnel.Handshake.{
  pkt_header, header_size, hs_size, eph_pub_of, enc_static_of, body_of, mac_of,
  x25519_shared_secret, decrypt_identity, compute_hmac, check_mac,
}
use lane_cove_tunnel.Handshake.Client.{HsClientState}
use lane_cove_tunnel.Handshake.Client.Recv.{client_session_key, handshake_client_recv}
use lane_cove_tunnel.Handshake.Server.{handshake_server_respond}

module _ {PKey Ctx : Type 0} (c : Crypto PKey Ctx) where
  -- The HMAC that the holders of the key compute, where there is one.
  abbrev pub HasMac : Option Bytes → Bytes → Type 0
  HasMac none pkt = Unit {0}
  HasMac (some psk) pkt = c.hmac psk (body_of pkt) ≡ some (mac_of pkt)

  -- A packet of the handshake's size and magic, under the right HMAC.
  pub record IsAuthentic (psk : Option Bytes) (pkt : Bytes) : Type 0 where
    pub size : length pkt ≡ hs_size psk
    pub magic : take header_size pkt ≡ pkt_header
    pub mac : HasMac psk pkt

  check_mac-HasMac :
      (psk : Option Bytes) (pkt : Bytes) → check_mac c psk pkt ≡ some tt → HasMac psk pkt
  unfolding check_mac compute_hmac
  check_mac-HasMac none pkt h = tt
  check_mac-HasMac (some psk) pkt h =
      >>=-eq-some (c.hmac psk (body_of pkt)) _ h λ expected found equal.
        cc (found, bytes_eq→eq (mac_of pkt) expected (guard-eq-some _ equal))

  IsAuthentic-checks :
      (psk : Option Bytes) (pkt : Bytes)
      → (length pkt == hs_size psk) ≡ true
      → bytes_eq (take header_size pkt) pkt_header ≡ true
      → check_mac c psk pkt ≡ some tt
      → IsAuthentic psk pkt
  IsAuthentic-checks psk pkt sized magic checked = record {
    size = (==_iff _ _).0 sized;
    magic = bytes_eq→eq _ _ magic;
    mac = check_mac-HasMac psk pkt checked;
  }

  -- A packet of the wrong size, with another magic, or (with a pre-shared key) under a wrong HMAC is
  -- no client's: the server neither answers it nor does anything else.
  pub handshake_server_respond-forged :
      (e : Env PKey) (pkt : Bytes) (to : Addr) (psk : Option Bytes) (static_key : PKey)
      (static_pub : Bytes) (eph_key : Option PKey) (eph_pub : Bytes) (w : World)
      → ¬ IsAuthentic psk pkt
      → handshake_server_respond c e pkt to psk static_key static_pub eph_key eph_pub w ≡ (none, w)
  unfolding handshake_server_respond
  handshake_server_respond-forged e pkt to psk static_key static_pub eph_key eph_pub w forged =
      elim (Bool-cases (length pkt == hs_size psk)) [
        | inr small ↦ rw small
        | inl sized ↦ elim (Bool-cases (bytes_eq (take header_size pkt) pkt_header)) [
          | inr other ↦ rw (sized, other)
          | inl magic ↦ elim (Option-cases (check_mac c psk pkt)) [
            | inl wrong ↦ rw (sized, magic, wrong)
            | inr (tt, checked) ↦ absurd (forged (IsAuthentic-checks psk pkt sized magic checked))
          ]
        ]
      ]

  session_key-of_recv :
      (resp : Bytes) (psk : Option Bytes) (static_key : PKey) (static_pub server_pub key : Bytes)
      (st st' : HsClientState PKey)
      → handshake_client_recv c resp psk static_key static_pub server_pub st ≡ (some key, st')
      → client_session_key c resp psk static_key static_pub server_pub st ≡ some key
  unfolding handshake_client_recv
  session_key-of_recv resp psk static_key static_pub server_pub key st st' h = ground arith

  -- A client accepts an answer only if it is authentic and carries the static public key that the
  -- configuration names, under a secret shared with the answer's ephemeral key.
  pub handshake_client_recv-pinned :
      (resp : Bytes) (psk : Option Bytes) (static_key : PKey) (static_pub server_pub key : Bytes)
      (st st' : HsClientState PKey)
      → handshake_client_recv c resp psk static_key static_pub server_pub st ≡ (some key, st')
      → IsAuthentic psk resp
        × ((eph_key : PKey) × (secret : Bytes) × (st.eph_key ≡ some eph_key)
            × (x25519_shared_secret c eph_key (eph_pub_of resp) ≡ some secret)
            × (decrypt_identity c secret (enc_static_of resp) ≡ some server_pub))
  unfolding client_session_key
  handshake_client_recv-pinned resp psk static_key static_pub server_pub key st st' h =
      let accepted = session_key-of_recv resp psk static_key static_pub server_pub key st st' h in
      >>=-eq-some (guard (length resp == hs_size psk)) _ accepted λ _ sized h₁.
        >>=-eq-some (guard (bytes_eq (take header_size resp) pkt_header)) _ h₁ λ _ magic h₂.
          >>=-eq-some (check_mac c psk resp) _ h₂ λ _ checked h₃.
            >>=-eq-some st.eph_key _ h₃ λ eph_key own h₄.
              >>=-eq-some (x25519_shared_secret c eph_key (eph_pub_of resp)) _ h₄
                λ secret shared h₅.
                  >>=-eq-some (decrypt_identity c secret (enc_static_of resp)) _ h₅
                    λ found identity h₆.
                      >>=-eq-some (guard (bytes_eq found server_pub)) _ h₆ λ _ same h₇. (
                        IsAuthentic-checks psk resp (guard-eq-some _ sized) (guard-eq-some _ magic)
                            checked,
                        (
                          eph_key,
                          secret,
                          own,
                          shared,
                          cc (identity, bytes_eq→eq found server_pub (guard-eq-some _ same)),
                        ),
                      )
