-- ===== src/Loop/Once.antt =====
-- The replay check in the data path of `event_loop` (src/peer.c), over the life of a session key.
use lane_cove_tunnel.Prelude.{
  ℕ, ◌+◌, ◌≡◌, ◌⊎◌, refl, sym, ap, ◌∙◌, Bool, true, false, not, ◌&&◌, ◌||◌, Option, none, some,
  Option-cases, Bool-cases, inl, inr, List, [], ◌∷◌, arith, leb, ltb, length, take, if_both,
  if◌then◌else◌,
}
use mathlib.Core.Path.{subst}
use lane_cove_tunnel.Prelude.Bytes.{Bytes, bytes_eq}
use lane_cove_tunnel.Crypto.{Crypto}
use lane_cove_tunnel.Replay.{Window, check_replay}
use lane_cove_tunnel.Replay.Refines.{Tracks, mem, maximum, fresh, check_replay-refines}
use lane_cove_tunnel.Packet.{decrypt_packet}
use lane_cove_tunnel.Handshake.{header_size, pkt_header}
use lane_cove_tunnel.Node.{Session}
use lane_cove_tunnel.Loop.Delivery.{seq_of}
use lane_cove_tunnel.Loop.Data.{seq_size, check_plain, open_data}

-- A number that is not fresh stays so when the log grows, and an accepted one is not fresh.
stale_grows : (log : List ℕ) (n seq : ℕ) → fresh log seq ≡ false → fresh (n ∷ log) seq ≡ false
unfolding fresh mem maximum
stale_grows log n seq h = ground arith

stale_after : (log : List ℕ) (seq : ℕ) → fresh (seq ∷ log) seq ≡ false
unfolding fresh mem maximum
stale_after log seq = ground arith

-- The session's window records a log in which a number is not fresh.
abbrev IsSpent : ℕ → Session → Type 0
IsSpent seq s = (log : List ℕ) × Tracks s.window log × (fresh log seq ≡ false)

IsSpent-check_replay :
    (seq : ℕ) (s : Session) → IsSpent seq s → (check_replay seq s.window).0 ≡ false
IsSpent-check_replay seq s (log, t, stale) = (check_replay-refines seq s.window log t).0 ∙ stale

spent_window :
    (seq n : ℕ) (w : Window) (log : List ℕ)
    → Tracks w log
    → fresh log seq ≡ false
    → (log' : List ℕ) × Tracks (check_replay n w).1 log' × (fresh log' seq ≡ false)
spent_window seq n w log t stale =
    let (accepted, w') = check_replay n w in
    (
      if accepted then n ∷ log else log,
      (check_replay-refines n w log t).1,
      if_both (λ (l : List ℕ). fresh l seq ≡ false) accepted _ _ (stale_grows log n seq stale)
          stale,
    )

window_used :
    (n : ℕ) (w : Window) (log : List ℕ)
    → Tracks w log
    → (log' : List ℕ) × Tracks (check_replay n w).1 log' × (fresh log' n ≡ false)
window_used n w log t =
    let (agrees, tracks) = check_replay-refines n w log t in
    elim (Bool-cases (check_replay n w).0) [
      | inl passes ↦ (
        n ∷ log,
        subst (λ (b : Bool). Tracks (check_replay n w).1 (if b then n ∷ log else log)) passes
            tracks,
        stale_after log n,
      )
      | inr fails ↦ (
        log,
        subst (λ (b : Bool). Tracks (check_replay n w).1 (if b then n ∷ log else log)) fails tracks,
        sym agrees ∙ fails,
      )
    ]

-- A plaintext leaves the window or moves it by its number, and the keys as they were.
check_plain_window :
    (s : Session) (plain : Bytes) (used_prev_key : Bool)
    → ((check_plain s plain used_prev_key).0.window ≡ s.window)
      ⊎ ((check_plain s plain used_prev_key).0.window ≡ (check_replay (seq_of plain) s.window).1)
unfolding check_plain
check_plain_window s plain used_prev_key = ground arith

check_plain_key :
    (s : Session) (plain : Bytes) (used_prev_key : Bool)
    → (check_plain s plain used_prev_key).0.session_key ≡ s.session_key
unfolding check_plain
check_plain_key s plain used_prev_key = ground arith

-- The key is kept, and the window is kept or moved by some number.
abbrev IsStep : Session → Session → Type 0
IsStep s s' =
    (s'.session_key ≡ s.session_key)
    × ((s'.window ≡ s.window) ⊎ ((n : ℕ) × (s'.window ≡ (check_replay n s.window).1)))

check_plain-IsStep :
    (s : Session) (plain : Bytes) (used_prev_key : Bool)
    → IsStep s (check_plain s plain used_prev_key).0
check_plain-IsStep s plain used = (
  check_plain_key s plain used,
  elim (check_plain_window s plain used) [
    | inl same ↦ inl same
    | inr moved ↦ inr (seq_of plain, moved)
  ],
)

IsSpent-IsStep : (seq : ℕ) (s s' : Session) → IsStep s s' → IsSpent seq s → IsSpent seq s'
IsSpent-IsStep seq s s' (key, inl same) (log, t, stale) =
    (log, subst (λ (w : Window). Tracks w log) (sym same) t, stale)
IsSpent-IsStep seq s s' (key, inr (n, moved)) (log, t, stale) =
    let (log', t', stale') = spent_window seq n s.window log t stale in
    (log', subst (λ (w : Window). Tracks w log') (sym moved) t', stale')

check_plain_replayed :
    (s : Session) (plain : Bytes)
    → (check_replay (seq_of plain) s.window).0 ≡ false
    → (check_plain s plain false).1 ≡ none
unfolding check_plain
check_plain_replayed s plain h = ground (arith, h)

abbrev bad_header : Bytes → Bool
bad_header plain =
    ltb (length plain) (header_size + seq_size)
    || not (bytes_eq (take header_size plain) pkt_header)

check_plain_bad :
    (s : Session) (plain : Bytes) → bad_header plain ≡ true → (check_plain s plain false).1 ≡ none
unfolding check_plain
check_plain_bad s plain h = rw (check_plain, h) refl

check_plain_moves :
    (s : Session) (plain : Bytes)
    → bad_header plain ≡ false
    → (check_plain s plain false).0.window ≡ (check_replay (seq_of plain) s.window).1
unfolding check_plain check_replay
check_plain_moves s plain h = ground (arith, h)

module _ {PKey Ctx : Type 0} (c : Crypto PKey Ctx) where
  -- What a session is after the datagrams at its address, each with the time it comes.
  unfoldable pub open_all : List (ℕ × Bytes) → Session → Session
  open_all [] s = s
  open_all ((now, wire_buf) ∷ arrivals) s = open_all arrivals (open_data c now s wire_buf).0

  open_current :
      (now : ℕ) (s : Session) (wire_buf : Bytes) {plain : Bytes}
      → decrypt_packet c s.session_key wire_buf ≡ some plain
      → open_data c now s wire_buf
        ≡ check_plain (record s { last_seen = now; prev_key_active = false }) plain false
  unfolding open_data
  open_current now s wire_buf h = rw (open_data, h) refl

  open_data-IsStep :
      (now : ℕ) (s : Session) (wire_buf : Bytes) → IsStep s (open_data c now s wire_buf).0
  unfolding open_data
  open_data-IsStep now s wire_buf = elim (Option-cases (decrypt_packet c s.session_key wire_buf)) [
    | inr (plain, opened) ↦ rw (open_data, opened) (check_plain-IsStep _ plain false)
    | inl fails ↦ elim (Bool-cases (s.prev_key_active && leb now s.prev_key_expires)) [
      | inr off ↦ rw (open_data, fails, off) (refl, inl refl)
      | inl on ↦ elim (Option-cases (decrypt_packet c s.prev_session_key wire_buf)) [
        | inl fails' ↦ rw (open_data, fails, on, fails') (refl, inl refl)
        | inr (plain, opened) ↦ rw (open_data, fails, on, opened) (check_plain-IsStep _ plain true)
      ]
    ]
  ]

  -- The key and a spent number outlive any datagrams.
  open_all-IsSpent :
      (arrivals : List (ℕ × Bytes)) (seq : ℕ) (s : Session)
      → IsSpent seq s
      → ((open_all arrivals s).session_key ≡ s.session_key) × IsSpent seq (open_all arrivals s)
  unfolding open_all
  open_all-IsSpent [] seq s spent = (refl, spent)
  open_all-IsSpent ((now, wire_buf) ∷ arrivals) seq s spent =
      let step = open_data-IsStep now s wire_buf in
      let (key, spent') =
        open_all-IsSpent arrivals seq (open_data c now s wire_buf).0
          (IsSpent-IsStep seq s (open_data c now s wire_buf).0 step spent) in
      (key ∙ step.0, spent')

  open_all_key :
      (arrivals : List (ℕ × Bytes)) (s : Session)
      → (open_all arrivals s).session_key ≡ s.session_key
  unfolding open_all
  open_all_key [] s = refl
  open_all_key ((now, wire_buf) ∷ arrivals) s =
      open_all_key arrivals (open_data c now s wire_buf).0 ∙ (open_data-IsStep now s wire_buf).0

  -- A data datagram that opens under the key of the session, and that came before, carries nothing on
  -- the second time, whatever other data datagrams for the session came between the two: for a session
  -- whose window records the numbers accepted so far, and that is not started anew in between.
  pub open_data_once :
      (s : Session) (log : List ℕ) (wire_buf : Bytes) {plain : Bytes} (now later : ℕ)
      (between : List (ℕ × Bytes))
      → Tracks s.window log
      → decrypt_packet c s.session_key wire_buf ≡ some plain
      → (open_data c later (open_all between (open_data c now s wire_buf).0) wire_buf).1 ≡ none
  open_data_once s log wire_buf {plain} now later between t opens =
      let once = (open_data c now s wire_buf).0 in
      let s' = open_all between once in
      let opens' : decrypt_packet c s'.session_key wire_buf ≡ some plain =
        ap (λ (k : Bytes). decrypt_packet c k wire_buf)
          (open_all_key between once ∙ (open_data-IsStep now s wire_buf).0)
        ∙ opens in
      let second = open_current later s' wire_buf opens' in
      let fresh_session : Session = record s' { last_seen = later; prev_key_active = false } in
      ap (λ (r : Session × Option Bytes). r.1) second ∙ (elim (Bool-cases (bad_header plain)) [
        | inl bad ↦ check_plain_bad fresh_session plain bad
        | inr good ↦
            let moved : once.window ≡ (check_replay (seq_of plain) s.window).1 =
              ap (λ (r : Session × Option Bytes). r.0.window) (open_current now s wire_buf opens)
              ∙ check_plain_moves (record s { last_seen = now; prev_key_active = false }) plain
                  good in
            let (log', t', stale) = window_used (seq_of plain) s.window log t in
            let spent : IsSpent (seq_of plain) once =
              (log', subst (λ (w : Window). Tracks w log') (sym moved) t', stale) in
            check_plain_replayed fresh_session plain (
              IsSpent-check_replay (seq_of plain) fresh_session
                (open_all-IsSpent between (seq_of plain) once spent).1)
      ])
